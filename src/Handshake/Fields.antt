-- ===== src/Handshake/Fields.antt =====
-- What the settings of an account are, one field at a time.
use algo_trading_broker.Prelude.{
  String, ◌≡◌, refl, sym, ap, ◌∙◌, true, false, Option, none, some, List, [], ◌∷◌, ◌==◌, string_eq,
  Bool-cases, Option-cases, inl, inr, arith, last?, or_else, if◌then◌else◌,
}
use algo_trading_broker.Accounts.{Blob}
use algo_trading_broker.Handshake.Settings.{
  AccountSettings, no_settings, Validators, keep_field, keep_fields, parse_account_settings,
}

-- The valid values among the entries of one field.
abbrev pub valid_values {ℓ} : {A : Type ℓ} → (String → Option A) → String → Blob → List A
valid_values read field [] = []
valid_values read field (e ∷ es) =
    let rest = valid_values read field es in
    if e.0 == field then elim (read e.1) [ none ↦ rest | some a ↦ a ∷ rest ] else rest

last_or {ℓ} :
    {A : Type ℓ} (x d : A) (xs : List A) → or_else (last? (x ∷ xs)) d ≡ or_else (last? xs) x
last_or x d [] = refl
last_or x d (y ∷ ys) = last_or y d ys ∙ sym (last_or y x ys)

-- One entry more makes a difference to the last valid value if there is none after it.
last_value {ℓ} :
    {A : Type ℓ} (read : String → Option A) (field : String) (e : String × String) (es : Blob)
    (d : A)
    → or_else (last? (valid_values read field (e ∷ es))) d
      ≡ or_else
          (last? (valid_values read field es))
          (if e.0 == field then or_else (read e.1) d else d)
last_value read field e es d = elim (Bool-cases (e.0 == field)) [
  | inr k ↦ rw k refl
  | inl k ↦ elim (Option-cases (read e.1)) [
    | inl n ↦ rw (k, n) refl
    | inr (a, n) ↦ rw (k, n) (last_or a d (valid_values read field es))
  ]
]

not_both : (k : String) → (k == "max_open_orders") ≡ true → (k == "signal_blocked") ≡ false
not_both k h = ap (λ x. x == "signal_blocked") ((string_eq.decides k "max_open_orders").0 h)

module _ (v : Validators) where
  blocked_after :
      (e : String × String) (s : AccountSettings)
      → (keep_field v e s).signal_blocked ≡ (
          if e.0 == "signal_blocked"
          then or_else (v.as_blocked e.1) s.signal_blocked
          else s.signal_blocked)
  blocked_after e s = ground arith

  cap_after :
      (e : String × String) (s : AccountSettings)
      → (keep_field v e s).max_open_orders ≡ (
          if e.0 == "max_open_orders"
          then or_else (v.as_cap e.1) s.max_open_orders
          else s.max_open_orders)
  cap_after e s = elim (Bool-cases (e.0 == "max_open_orders")) [
    | inl k ↦ ground (arith, k, not_both e.0 k)
    | inr k ↦ ground (arith, k)
  ]

  blocked-values :
      (es : Blob) (s : AccountSettings)
      → (keep_fields v es s).signal_blocked
        ≡ or_else (last? (valid_values v.as_blocked "signal_blocked" es)) s.signal_blocked
  unfolding keep_fields
  blocked-values [] s = refl
  blocked-values (e ∷ es) s =
      blocked-values es (keep_field v e s)
      ∙ ap (or_else (last? (valid_values v.as_blocked "signal_blocked" es))) (blocked_after e s)
      ∙ sym (last_value v.as_blocked "signal_blocked" e es s.signal_blocked)

  cap-values :
      (es : Blob) (s : AccountSettings)
      → (keep_fields v es s).max_open_orders
        ≡ or_else (last? (valid_values v.as_cap "max_open_orders" es)) s.max_open_orders
  unfolding keep_fields
  cap-values [] s = refl
  cap-values (e ∷ es) s =
      cap-values es (keep_field v e s)
      ∙ ap (or_else (last? (valid_values v.as_cap "max_open_orders" es))) (cap_after e s)
      ∙ sym (last_value v.as_cap "max_open_orders" e es s.max_open_orders)

-- Each setting of an account is the last valid value among its own entries in the stored object:
-- not blocked without one, and no cap of its own without one. No entry under another key and no
-- value that does not validate makes a difference.
pub parse_account_settings-fieldwise :
    (v : Validators) (blob : Blob)
    → ((parse_account_settings v (some blob)).signal_blocked
        ≡ or_else (last? (valid_values v.as_blocked "signal_blocked" blob)) false)
      × ((parse_account_settings v (some blob)).max_open_orders
          ≡ or_else (last? (valid_values v.as_cap "max_open_orders" blob)) none)
unfolding parse_account_settings
parse_account_settings-fieldwise v blob =
    (blocked-values v blob no_settings, cap-values v blob no_settings)
