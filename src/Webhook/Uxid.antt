-- ===== src/Webhook/Uxid.antt =====
-- The cycle id that the schema lets in.
use algo_trading_broker.Prelude.{
  ℕ, ◌≡◌, refl, ap, ◌∙◌, true, false, Option, some, [], ◌∷◌, arith, length, Bool-cases, inl, inr,
  All, nat_beq,
}
use mathlib.Core.Bool.{false≢true}
use algo_trading_broker.Prelude.Texts.{Text, upper_char, is_space, strip, lstrip, rstrip, rcons}
use algo_trading_broker.Prelude.Texts.Laws.{IsUpper, upper_of_IsUpper}
use algo_trading_broker.Webhook.{is_hex, all_hex, is_valid_uxid, fill_or_validate_uxid}

nonblank_lstrip : (t : Text) → All (λ c. is_space c ≡ false) t → lstrip t ≡ t
unfolding lstrip
nonblank_lstrip [] h = refl
nonblank_lstrip (c ∷ t) h = rw h.0

nonblank_rcons : (c : ℕ) (t : Text) → is_space c ≡ false → rcons c t ≡ c ∷ t
nonblank_rcons c [] h = rw h
nonblank_rcons c (d ∷ t) h = refl

nonblank_rstrip : (t : Text) → All (λ c. is_space c ≡ false) t → rstrip t ≡ t
unfolding rstrip
nonblank_rstrip [] h = refl
nonblank_rstrip (c ∷ t) h = ap (rcons c) (nonblank_rstrip t h.1) ∙ nonblank_rcons c t h.0

nonblank_strip : (t : Text) → All (λ c. is_space c ≡ false) t → strip t ≡ t
unfolding strip
nonblank_strip t h = ap rstrip (nonblank_lstrip t h) ∙ nonblank_rstrip t h

hex_char : (c : ℕ) → is_hex c ≡ true → (is_space c ≡ false) × (upper_char c ≡ c)
unfolding is_hex is_space upper_char
hex_char c h = ground arith

hex_text : (t : Text) → all_hex t ≡ true → All (λ c. is_space c ≡ false) t × IsUpper t
unfolding all_hex
hex_text [] h = (tt, tt)
hex_text (c ∷ t) h = elim (Bool-cases (is_hex c)) [
  | inl e ↦
      let rest = hex_text t (rw e at h) in
      ((((hex_char c e).0), rest.0), ((hex_char c e).1, rest.1))
  | inr e ↦ absurd (false≢true (rw e at h))
]

valid_uxid_parts :
    (u : Text) → is_valid_uxid u ≡ true → (nat_beq (length u) 0 ≡ false) × (all_hex u ≡ true)
unfolding is_valid_uxid
valid_uxid_parts u h = ground arith

valid_uxid_fixed :
    (fresh u : Text) → is_valid_uxid u ≡ true → fill_or_validate_uxid fresh (some u) ≡ some u
unfolding fill_or_validate_uxid
valid_uxid_fixed fresh u h =
    let parts = valid_uxid_parts u h in
    let letters = hex_text u parts.1 in
    rw (nonblank_strip u letters.0, parts.0, upper_of_IsUpper u letters.1, h)

fill_or_validate_uxid-valid :
    (fresh : Text) (value : Option Text) (uxid : Text)
    → is_valid_uxid fresh ≡ true
    → fill_or_validate_uxid fresh value ≡ some uxid
    → is_valid_uxid uxid ≡ true
unfolding fill_or_validate_uxid
fill_or_validate_uxid-valid fresh value uxid f h = ground arith

-- When a generated id has the canonical shape, an id that the schema lets in has it too, whatever
-- the alert wrote; and validated again, as when a payload is rebuilt from a stored row, it stays
-- the same.
pub fill_or_validate_uxid-stable :
    (fresh again : Text) (value : Option Text) (uxid : Text)
    → is_valid_uxid fresh ≡ true
    → fill_or_validate_uxid fresh value ≡ some uxid
    → (is_valid_uxid uxid ≡ true) × (fill_or_validate_uxid again (some uxid) ≡ some uxid)
fill_or_validate_uxid-stable fresh again value uxid f h =
    let v = fill_or_validate_uxid-valid fresh value uxid f h in (v, valid_uxid_fixed again uxid v)
