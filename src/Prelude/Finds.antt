-- ===== src/Prelude/Finds.antt =====
-- The first row of a select, an update of it, and tables in which no two rows are the same one.
use mathlib.Core.Option
use algo_trading_broker.Prelude.Tests.{if◌then◌else◌, is_some, Bool-cases}
use algo_trading_broker.Prelude.Lists.{keep}
use mathlib.Core.Path.{◌≡◌, refl, ap, ◌∙◌}
use mathlib.Core.Logic.{inl, inr}
use mathlib.Core.Bool.{Bool, true, false, ◌&&◌, ◌||◌}
use mathlib.Core.Option.{Option, none, some}
use mathlib.Core.List.{List, [], ◌∷◌, ◌++◌, map}
use native.Mathlib.Omega.{arith}

module _ {ℓ} {A : Type ℓ} where
  unfoldable pub any : (A → Bool) → List A → Bool
  any p [] = false
  any p (x ∷ xs) = p x || any p xs

  unfoldable pub find : (A → Bool) → List A → Option A
  find p [] = none
  find p (x ∷ xs) = let rest = find p xs in if p x then some x else rest

  unfoldable pub update_first : (A → Bool) → (A → A) → List A → List A
  update_first p f [] = []
  update_first p f (x ∷ xs) = let rest = update_first p f xs in if p x then f x ∷ xs else x ∷ rest

  unfoldable pub head? : List A → Option A
  head? [] = none
  head? (x ∷ _) = some x

  pub any-append : (p : A → Bool) (xs ys : List A) → any p (xs ++ ys) ≡ (any p xs || any p ys)
  unfolding any
  any-append p [] ys = refl
  any-append p (x ∷ xs) ys = ground (arith, any-append p xs ys)

  pub any-map : (p : A → Bool) (f : A → A) (xs : List A) → any p (map f xs) ≡ any (λ x. p (f x)) xs
  unfolding any
  any-map p f [] = refl
  any-map p f (x ∷ xs) = ground (arith, any-map p f xs)

  pub any-same : (p q : A → Bool) → ((x : A) → p x ≡ q x) → (xs : List A) → any p xs ≡ any q xs
  unfolding any
  any-same p q h [] = refl
  any-same p q h (x ∷ xs) = ground (arith, any-same p q h xs, h x)

  -- A row that a condition keeps is found if and only if it was.
  pub any-keep : (p q : A → Bool) (xs : List A) → any p (keep q xs) ≡ any (λ x. q x && p x) xs
  unfolding any keep
  any-keep p q [] = refl
  any-keep p q (x ∷ xs) = ground (arith, any-keep p q xs)

  pub any-update_first :
      (p q : A → Bool) (f : A → A)
      → ((x : A) → q (f x) ≡ q x)
      → (xs : List A) → any q (update_first p f xs) ≡ any q xs
  unfolding any update_first
  any-update_first p q f h [] = refl
  any-update_first p q f h (x ∷ xs) = ground (arith, any-update_first p q f h xs, h x)

  pub is_some-find : (p : A → Bool) (xs : List A) → is_some (find p xs) ≡ any p xs
  unfolding any find
  is_some-find p [] = refl
  is_some-find p (x ∷ xs) = ground (arith, is_some-find p xs)

  pub find-holds : (p : A → Bool) (xs : List A) (x : A) → find p xs ≡ some x → p x ≡ true
  unfolding find
  find-holds p [] x h = cc
  find-holds p (y ∷ xs) x h = ground (arith, find-holds p xs x)

  pub any-holds :
      (p q : A → Bool)
      → ((x : A) → p x ≡ true → q x ≡ true)
      → (xs : List A) → any p xs ≡ true
      → any q xs ≡ true
  unfolding any
  any-holds p q h [] e = cc
  any-holds p q h (x ∷ xs) e = ground (arith, any-holds p q h xs, h x)

  pub no_any-keep : (p q : A → Bool) (xs : List A) → any p xs ≡ false → any p (keep q xs) ≡ false
  unfolding any keep
  no_any-keep p q [] h = refl
  no_any-keep p q (x ∷ xs) h = ground (arith, no_any-keep p q xs)

  pub any-never : (p : A → Bool) → ((x : A) → p x ≡ false) → (xs : List A) → any p xs ≡ false
  unfolding any
  any-never p h [] = refl
  any-never p h (x ∷ xs) = ground (arith, any-never p h xs, h x)

  pub any-head? :
      (p : A → Bool) (xs : List A) (x : A) → head? xs ≡ some x → p x ≡ true → any p xs ≡ true
  unfolding any head?
  any-head? p [] x h e = cc
  any-head? p (y ∷ xs) x h e = let same_test : p y ≡ p x = cc in ground (arith, same_test, e)

  pub any-head_none : (p : A → Bool) (xs : List A) → head? xs ≡ none → any p xs ≡ false
  unfolding any head?
  any-head_none p [] h = refl
  any-head_none p (x ∷ xs) h = cc

  pub find-update_first :
      (p : A → Bool) (f : A → A)
      → ((x : A) → p (f x) ≡ p x)
      → (xs : List A) → find p (update_first p f xs) ≡ Option.map f (find p xs)
  unfolding find update_first
  find-update_first p f h [] = refl
  find-update_first p f h (x ∷ xs) = ground (arith, find-update_first p f h xs, h x)

  pub find-update_hit :
      (p : A → Bool) (f : A → A)
      → ((x : A) → p x ≡ true → p (f x) ≡ true)
      → (xs : List A) → find p (update_first p f xs) ≡ Option.map f (find p xs)
  unfolding find update_first
  find-update_hit p f h [] = refl
  find-update_hit p f h (x ∷ xs) = ground (arith, find-update_hit p f h xs, h x)

  pub update_first-fixed :
      (p : A → Bool) (f : A → A) (xs : List A) (x : A)
      → find p xs ≡ some x
      → f x ≡ x
      → update_first p f xs ≡ xs
  unfolding find update_first
  update_first-fixed p f [] x h e = refl
  update_first-fixed p f (y ∷ xs) x h e = elim (Bool-cases (p y)) [
    | inl t ↦
        let same : some y ≡ some x = rw t at h in
        let same_row : y ≡ x = cc in rw t (ap (λ z. z ∷ xs) (cc (same_row, e, ap f same_row)))
    | inr t ↦ rw t (ap (λ zs. y ∷ zs) (update_first-fixed p f xs x (rw t at h) e))
  ]

  pub find-update_other :
      (p q : A → Bool) (f : A → A)
      → ((x : A) → p x ≡ true → (q x ≡ false) × (q (f x) ≡ false))
      → (xs : List A) → find q (update_first p f xs) ≡ find q xs
  unfolding find update_first
  find-update_other p q f h [] = refl
  find-update_other p q f h (x ∷ xs) = ground (arith, find-update_other p q f h xs, h x)

  pub find-map :
      (p : A → Bool) (f : A → A)
      → ((x : A) → p (f x) ≡ p x)
      → (xs : List A) → find p (map f xs) ≡ Option.map f (find p xs)
  unfolding find
  find-map p f h [] = refl
  find-map p f h (x ∷ xs) = ground (arith, find-map p f h xs, h x)

  pub find-append_one :
      (p : A → Bool) (xs : List A) (x : A)
      → find p (xs ++ x ∷ []) ≡ (if any p xs then find p xs else if p x then some x else none)
  unfolding find any
  find-append_one p [] x = refl
  find-append_one p (y ∷ xs) x = ground (arith, find-append_one p xs x)

-- No two rows are the same one.
abbrev pub Apart {ℓ} : {A : Type ℓ} → (A → A → Bool) → List A → Type 0
Apart same [] = Unit
Apart same (x ∷ xs) = (any (same x) xs ≡ false) × Apart same xs

module _ {ℓ} {A : Type ℓ} (same : A → A → Bool) where
  pub Apart-append_one :
      (xs : List A) (x : A)
      → any (λ y. same y x) xs ≡ false
      → Apart same xs
      → Apart same (xs ++ x ∷ [])
  unfolding any
  Apart-append_one [] x h d = (refl, tt)
  Apart-append_one (y ∷ xs) x h d = (
    ground (arith, any-append (same y) xs (x ∷ []), d.0, h),
    Apart-append_one xs x (ground arith) d.1,
  )

  pub Apart-keep : (q : A → Bool) (xs : List A) → Apart same xs → Apart same (keep q xs)
  unfolding keep
  Apart-keep q [] d = tt
  Apart-keep q (x ∷ xs) d = elim (Bool-cases (q x)) [
    | inl e ↦ rw e (no_any-keep (same x) q xs d.0, Apart-keep q xs d.1)
    | inr e ↦ rw e (Apart-keep q xs d.1)
  ]

  module _ (f : A → A) (left : (x y : A) → same (f x) y ≡ same x y)
      (right : (x y : A) → same x (f y) ≡ same x y) where
    pub Apart-update_first :
        (p : A → Bool) (xs : List A) → Apart same xs → Apart same (update_first p f xs)
    unfolding update_first
    Apart-update_first p [] d = tt
    Apart-update_first p (x ∷ xs) d = elim (Bool-cases (p x)) [
      | inl e ↦ rw e (any-same (same (f x)) (same x) (left x) xs ∙ d.0, d.1)
      | inr e ↦ rw e (any-update_first p (same x) f (right x) xs ∙ d.0, Apart-update_first p xs d.1)
    ]

    pub Apart-map : (xs : List A) → Apart same xs → Apart same (map f xs)
    Apart-map [] d = tt
    Apart-map (x ∷ xs) d = (
      any-map (same (f x)) f xs
          ∙ any-same (λ y. same (f x) (f y)) (same x) (λ y. left x (f y) ∙ right x y) xs
          ∙ d.0,
      Apart-map xs d.1,
    )
