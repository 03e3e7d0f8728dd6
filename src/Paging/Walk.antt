-- ===== src/Paging/Walk.antt =====
-- What a user sees who goes on to the next page as long as there is one.
use algo_trading_broker.Prelude.{
  All, ◌⊎◌, ℕ, zero, suc, ◌+◌, ◌<◌, ◌≤◌, ◌≡◌, refl, sym, ap, ◌∙◌, Bool, true, false, Option, none,
  some, List, [], ◌∷◌, ◌++◌, length, take, drop, ltb, if◌then◌else◌, arith, Bool-cases, inl, inr,
  take-append-drop, length-drop, length-take,
}
use algo_trading_broker.Prelude.Ints.{ℤ, pos, negsuc}
use algo_trading_broker.Paging.{
  at_least_one, clamp, paginate, Button, prev, next, build_pagination_row,
}

-- Where the Next button of a row leads.
unfoldable pub next_of : List Button → Option ℕ
next_of [] = none
next_of (prev o ∷ row) = next_of row
next_of (next o ∷ row) = some o

abbrev go_on {ℓ} : {A : Type ℓ} → Option ℕ → (ℕ → List (List A)) → List (List A)
go_on none rest = []
go_on (some o) rest = rest o

-- The pages from that offset on, one after the other.
unfoldable pub walk {ℓ} : {A : Type ℓ} → List A → ℤ → (fuel offset : ℕ) → List (List A)
walk items limit zero offset = []
walk items limit (suc fuel) offset =
    let x = paginate items limit (pos offset) in
    x.0 ∷ go_on (next_of (build_pagination_row x.1)) (λ (o : ℕ). walk items limit fuel o)

unfoldable pub joined {ℓ} : {A : Type ℓ} → List (List A) → List A
joined [] = []
joined (xs ∷ xss) = xs ++ joined xss

next_of-row :
    (total limit offset : ℕ)
    → next_of (build_pagination_row (record { total = total; limit = suc limit; offset = offset }))
      ≡ (if ltb (offset + suc limit) total then some (offset + suc limit) else none)
unfolding next_of build_pagination_row
next_of-row total limit offset = ground arith

module _ {ℓ} {A : Type ℓ} where
  drop-nil : (n : ℕ) → drop {A = A} n [] ≡ []
  drop-nil zero = refl
  drop-nil (suc n) = refl

  drop-drop : (m n : ℕ) (xs : List A) → drop m (drop n xs) ≡ drop (n + m) xs
  drop-drop m zero xs = ap (λ k. drop k xs) (omega arith)
  drop-drop m (suc n) [] = drop-nil m ∙ sym (drop-nil (suc n + m))
  drop-drop m (suc n) (x ∷ xs) =
      let same : suc (n + m) ≡ suc n + m = omega arith in
      drop-drop m n xs ∙ ap (λ k. drop k (x ∷ xs)) same

  no_rest : (xs : List A) → length xs ≡ 0 → xs ≡ []
  no_rest [] h = refl
  no_rest (x ∷ xs) h = absurd (omega (arith, h))

  -- The page of an offset that is in range.
  shown_at :
      (items : List A) (limit : ℤ) (offset : ℕ)
      → (offset < length items) ⊎ (offset ≡ 0)
      → paginate items limit (pos offset) ≡ (
        take (at_least_one limit) (drop offset items),
        record { total = length items; limit = at_least_one limit; offset = offset },
      )
  unfolding paginate
  shown_at items limit offset h =
      let same : clamp (length items) (pos offset) ≡ offset = ground (arith, h) in
      ap
        (λ o. (
          take (at_least_one limit) (drop o items),
          record { total = length items; limit = at_least_one limit; offset = o },
        ))
        same

  walk-step :
      (items : List A) (limit : ℤ) (fuel offset m : ℕ) (more : Bool)
      → (offset < length items) ⊎ (offset ≡ 0)
      → at_least_one limit ≡ suc m
      → ltb (offset + suc m) (length items) ≡ more
      → walk items limit (suc fuel) offset
        ≡ take (suc m) (drop offset items)
          ∷ go_on
              (if more then some (offset + suc m) else none)
              (λ (o : ℕ). walk items limit fuel o)
  unfolding walk
  walk-step items limit fuel offset m more h e b =
      let rest = λ (o : ℕ). walk items limit fuel o in
      ap (λ x. x.0 ∷ go_on (next_of (build_pagination_row x.1)) rest)
        (shown_at items limit offset h)
      ∙ ap
          (λ n.
            take n (drop offset items)
            ∷ go_on
                (next_of (
                  build_pagination_row
                    (record { total = length items; limit = n; offset = offset })))
                rest)
          e
      ∙ ap (λ o. take (suc m) (drop offset items) ∷ go_on o rest)
          (next_of-row (length items) m offset)
      ∙ ap
          (λ c.
            take (suc m) (drop offset items)
            ∷ go_on (if c then some (offset + suc m) else none) rest)
          b

  walks :
      (items : List A) (limit : ℤ) (fuel offset m : ℕ)
      → (offset < length items) ⊎ (offset ≡ 0)
      → at_least_one limit ≡ suc m
      → length items < offset + fuel
      → joined (walk items limit fuel offset) ≡ drop offset items
  unfolding joined
  walks items limit zero offset m h e n = absurd (ground (arith, h, n))
  walks items limit (suc fuel) offset m h e n =
      elim (Bool-cases (ltb (offset + suc m) (length items))) [
        | inl more ↦
            ap joined (walk-step items limit fuel offset m true h e more)
            ∙ ap (λ xs. take (suc m) (drop offset items) ++ xs)
                (walks items limit fuel (offset + suc m) m (inl (ground (arith, more))) e
                    (omega (arith, n))
                  ∙ sym (drop-drop (suc m) offset items))
            ∙ take-append-drop (suc m) (drop offset items)
        | inr last ↦
            let over : drop (suc m) (drop offset items) ≡ [] =
              no_rest (drop (suc m) (drop offset items)) (
                length-drop (suc m) (drop offset items)
                ∙ ground (arith, last, length-drop offset items)) in
            ap joined (walk-step items limit fuel offset m false h e last)
            ∙ ap (λ xs. take (suc m) (drop offset items) ++ xs) (sym over)
            ∙ take-append-drop (suc m) (drop offset items)
      ]

limit_pred : (limit : ℤ) → (m : ℕ) × (at_least_one limit ≡ suc m)
limit_pred (pos zero) = (0, refl)
limit_pred (pos (suc n)) = (n, refl)
limit_pred (negsuc n) = (0, refl)

module _ {ℓ} {A : Type ℓ} (limit : ℤ) where
  Fit : List A → Type 0
  Fit page = length page ≤ at_least_one limit

  go_on-Fit :
      (o : Option ℕ) (rest : ℕ → List (List A))
      → ((n : ℕ) → All Fit (rest n))
      → All Fit (go_on o rest)
  go_on-Fit none rest h = tt
  go_on-Fit (some n) rest h = h n

  walk-Fit : (items : List A) (fuel offset : ℕ) → All Fit (walk items limit fuel offset)
  unfolding walk paginate Fit
  walk-Fit items zero offset = tt
  walk-Fit items (suc fuel) offset = (
    omega
        (arith, length-take (at_least_one limit) (drop (clamp (length items) (pos offset)) items)),
    go_on-Fit (next_of (build_pagination_row (paginate items limit (pos offset)).1))
        (λ (o : ℕ). walk items limit fuel o) (λ o. walk-Fit items fuel o),
  )

-- Whatever limit is asked for, the pages that Next leads through from the first one on are the
-- whole list in its order, each item once; no page is longer than the limit, taken as 1 where it
-- is less, and one step more than there are items is enough.
pub walk_complete {ℓ} :
    {A : Type ℓ} (items : List A) (limit : ℤ)
    → (joined (walk items limit (suc (length items)) 0) ≡ items)
      × All (λ page. length page ≤ at_least_one limit) (walk items limit (suc (length items)) 0)
unfolding Fit
walk_complete items limit =
    let (m, e) = limit_pred limit in
    (
      walks items limit (suc (length items)) 0 m (inr refl) e (omega arith),
      walk-Fit limit items (suc (length items)) 0,
    )
