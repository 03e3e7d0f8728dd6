-- ===== src/Prelude/Texts/Laws.antt =====
-- What `upper`, `strip`, `split` and `join` keep, and the round trip of `join` and `split`.
use mathlib.Core.Path.{◌≡◌, refl, ap, ap₂, ◌∙◌}
use mathlib.Core.Logic.{◌≢◌, ◌⊎◌, inl, inr}
use mathlib.Core.Bool.{false}
use mathlib.Core.List.{List, [], ◌∷◌, ◌++◌}
use Prim.Native.Nat.{ℕ}
use native.Mathlib.Omega.{arith}
use algo_trading_broker.Prelude.Tests.{nat_beq, Bool-cases}
use algo_trading_broker.Prelude.Lists.{All}
use algo_trading_broker.Prelude.Texts.{
  Text, upper_char, upper, is_space, lstrip, rcons, rstrip, strip, on_head, split, join, last_piece,
  Lacks,
}

module _ {κ} (P : ℕ → Type κ) where
  All-lstrip : (t : Text) → All P t → All P (lstrip t)
  unfolding lstrip
  All-lstrip [] h = h
  All-lstrip (x ∷ xs) h = elim (Bool-cases (is_space x)) [
    | inl e ↦ rw e (All-lstrip xs h.1)
    | inr e ↦ rw e h
  ]

  All-rcons : (x : ℕ) (r : Text) → P x → All P r → All P (rcons x r)
  All-rcons x [] px h = elim (Bool-cases (is_space x)) [ inl e ↦ rw e tt | inr e ↦ rw e (px, tt) ]
  All-rcons x (y ∷ r) px h = (px, h)

  All-rstrip : (t : Text) → All P t → All P (rstrip t)
  unfolding rstrip
  All-rstrip [] h = h
  All-rstrip (x ∷ xs) h = All-rcons x (rstrip xs) h.0 (All-rstrip xs h.1)

  pub All-strip : (t : Text) → All P t → All P (strip t)
  unfolding strip
  All-strip t h = All-rstrip (lstrip t) (All-lstrip t h)

  pub All-last_piece : (ps : List Text) → All (All P) ps → All P (last_piece ps)
  All-last_piece [] h = tt
  All-last_piece (p ∷ []) h = h.0
  All-last_piece (p ∷ q ∷ ps) h = All-last_piece (q ∷ ps) h.1

rstrip-rcons : (x : ℕ) (r : Text) → rstrip r ≡ r → rstrip (rcons x r) ≡ rcons x r
unfolding rstrip
rstrip-rcons x [] h = elim (Bool-cases (is_space x)) [ inl e ↦ rw e | inr e ↦ rw (e, e) ]
rstrip-rcons x (y ∷ r) h = ap (rcons x) h

rstrip_idem : (t : Text) → rstrip (rstrip t) ≡ rstrip t
unfolding rstrip
rstrip_idem [] = refl
rstrip_idem (x ∷ xs) = rstrip-rcons x (rstrip xs) (rstrip_idem xs)

lstrip-head :
    (t : Text)
    → (lstrip t ≡ []) ⊎ ((x : ℕ) × (xs : Text) × (lstrip t ≡ x ∷ xs) × (is_space x ≡ false))
unfolding lstrip
lstrip-head [] = inl refl
lstrip-head (x ∷ xs) = elim (Bool-cases (is_space x)) [
  | inl e ↦ rw e (lstrip-head xs)
  | inr e ↦ inr (x, xs, rw e, e)
]

lstrip-rcons : (x : ℕ) (r : Text) → is_space x ≡ false → lstrip (rcons x r) ≡ rcons x r
unfolding lstrip
lstrip-rcons x [] e = rw (e, e)
lstrip-rcons x (y ∷ r) e = rw e

lstrip-strip : (t : Text) → lstrip (strip t) ≡ strip t
unfolding strip rstrip lstrip
lstrip-strip t = elim (lstrip-head t) [
  | inl e ↦ rw e
  | inr (x, xs, e, s) ↦ rw e (lstrip-rcons x (rstrip xs) s)
]

pub strip_idem : (t : Text) → strip (strip t) ≡ strip t
unfolding strip
strip_idem t = ap rstrip (lstrip-strip t) ∙ rstrip_idem (lstrip t)

upper_char_idem : (c : ℕ) → upper_char (upper_char c) ≡ upper_char c
unfolding upper_char
upper_char_idem c = ground arith

-- A text whose letters are upper-cased already.
abbrev pub IsUpper : Text → Type 0
IsUpper t = All (λ c. upper_char c ≡ c) t

pub upper-IsUpper : (t : Text) → IsUpper (upper t)
unfolding upper
upper-IsUpper [] = tt
upper-IsUpper (c ∷ t) = (upper_char_idem c, upper-IsUpper t)

pub upper_of_IsUpper : (t : Text) → IsUpper t → upper t ≡ t
unfolding upper
upper_of_IsUpper [] h = refl
upper_of_IsUpper (c ∷ t) h = ap₂ ◌∷◌ h.0 (upper_of_IsUpper t h.1)

upper_char-ne_colon : (c : ℕ) → c ≢ 58 → upper_char c ≢ 58
unfolding upper_char
upper_char-ne_colon c h = ground arith

pub upper-Lacks_colon : (t : Text) → Lacks 58 t → Lacks 58 (upper t)
unfolding upper
upper-Lacks_colon [] h = tt
upper-Lacks_colon (c ∷ t) h = (upper_char-ne_colon c h.0, upper-Lacks_colon t h.1)

All-on_head : (c x : ℕ) (ps : List Text) → x ≢ c → All (Lacks c) ps → All (Lacks c) (on_head x ps)
All-on_head c x [] n h = ((n, tt), tt)
All-on_head c x (p ∷ ps) n h = ((n, h.0), h.1)

pub split-Lacks : (c : ℕ) (t : Text) → All (Lacks c) (split c t)
unfolding split
split-Lacks c [] = (tt, tt)
split-Lacks c (x ∷ xs) = elim (Bool-cases (nat_beq x c)) [
  | inl e ↦ rw e (tt, split-Lacks c xs)
  | inr e ↦ rw e (All-on_head c x (split c xs) (ground arith) (split-Lacks c xs))
]

pub split_of_Lacks : (c : ℕ) (t : Text) → Lacks c t → split c t ≡ t ∷ []
unfolding split
split_of_Lacks c [] h = refl
split_of_Lacks c (x ∷ xs) h = ground (arith, split_of_Lacks c xs h.1, h.0)

split-append : (c : ℕ) (p t : Text) → Lacks c p → split c (p ++ (c ∷ t)) ≡ p ∷ split c t
unfolding split
split-append c [] t h = ground arith
split-append c (x ∷ p) t h = ground (arith, split-append c p t h.1, h.0)

-- Splitting what was joined gives the pieces back.
pub split-join :
    (c : ℕ) (p : Text) (ps : List Text)
    → All (Lacks c) (p ∷ ps)
    → split c (join c (p ∷ ps)) ≡ p ∷ ps
unfolding join
split-join c p [] h = split_of_Lacks c p h.0
split-join c p (q ∷ ps) h =
    split-append c p (join c (q ∷ ps)) h.0 ∙ ap (λ l. p ∷ l) (split-join c q ps h.1)
