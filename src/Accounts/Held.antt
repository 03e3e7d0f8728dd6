-- ===== src/Accounts/Held.antt =====
-- The accounts that a user holds, in the order in which they are listed.
use mathlib.Core.Option
use mathlib.Core.Path.{subst}
use algo_trading_broker.Prelude.{
  ℕ, ◌≡◌, refl, sym, ap, ◌∙◌, Bool, true, false, not, ◌&&◌, ◌||◌, none, some, List, [], ◌∷◌, arith,
  Option-cases, Bool-cases, keep, ◌==◌, nat_eq, option_eq, inl, inr,
}
use algo_trading_broker.Prelude.Finds.{
  any, head?, any-keep, any-never, any-holds, no_any-keep, any-head?, any-head_none, any-same,
}
use algo_trading_broker.Accounts.{Account, Registry, linked, held_by, by_activity, place}
use algo_trading_broker.Accounts.Operations.{first_other}

pub any-place :
    (p : Account → Bool) (a : Account) (bs : List Account) → any p (place a bs) ≡ (p a || any p bs)
unfolding any place
any-place p a [] = refl
any-place p a (b ∷ bs) = ground (arith, any-place p a bs)

pub any-by_activity : (p : Account → Bool) (xs : List Account) → any p (by_activity xs) ≡ any p xs
unfolding any by_activity
any-by_activity p [] = refl
any-by_activity p (a ∷ xs) =
    any-place p a (by_activity xs) ∙ ap (λ b. p a || b) (any-by_activity p xs)

abbrev pub is_foreign : ℕ → Registry → Account → Bool
is_foreign u r a = not (linked a.id u r.links)

held_by-own : (u : ℕ) (r : Registry) → any (is_foreign u r) (held_by u r) ≡ false
unfolding held_by
held_by-own u r =
    any-by_activity (is_foreign u r) (keep (λ b. linked b.id u r.links) r.accounts)
    ∙ any-keep (is_foreign u r) (λ b. linked b.id u r.links) r.accounts
    ∙ any-never (λ b. linked b.id u r.links && is_foreign u r b) (λ b. ground arith) r.accounts

own_head :
    (u : ℕ) (r : Registry) (xs : List Account) (a : Account)
    → any (is_foreign u r) xs ≡ false
    → head? xs ≡ some a
    → linked a.id u r.links ≡ true
own_head u r xs a n h = elim (Bool-cases (linked a.id u r.links)) [
  | inl e ↦ e
  | inr e ↦ cc (any-head? (is_foreign u r) xs a h (ap not e), n)
]

pub held_by-linked :
    (u : ℕ) (r : Registry) (a : Account)
    → head? (held_by u r) ≡ some a
    → linked a.id u r.links ≡ true
held_by-linked u r a h = own_head u r (held_by u r) a (held_by-own u r) h

-- Some account of the user exists.
abbrev pub holds_any : ℕ → Registry → Bool
holds_any u r = any (λ a. linked a.id u r.links) r.accounts

held_by-any :
    (u : ℕ) (r : Registry) → any (λ a. linked a.id u r.links) (held_by u r) ≡ holds_any u r
unfolding held_by
held_by-any u r =
    let test = λ (b : Account). linked b.id u r.links in
    any-by_activity test (keep test r.accounts)
    ∙ any-keep test test r.accounts
    ∙ any-same (λ b. test b && test b) test (λ b. ground arith) r.accounts

pub held_by-none : (u : ℕ) (r : Registry) → head? (held_by u r) ≡ none → holds_any u r ≡ false
held_by-none u r h =
    sym (held_by-any u r) ∙ any-head_none (λ b. linked b.id u r.links) (held_by u r) h

pub held_by-some :
    (u : ℕ) (r : Registry) (a : Account) → head? (held_by u r) ≡ some a → holds_any u r ≡ true
held_by-some u r a h =
    sym (held_by-any u r)
    ∙ any-head? (λ b. linked b.id u r.links) (held_by u r) a h (held_by-linked u r a h)

-- The account that an unlinking turns to is another one of the user's.
pub first_other-linked :
    (a u i : ℕ) (r : Registry) → first_other a u r ≡ some i → linked i u r.links ≡ true
unfolding first_other
first_other-linked a u i r h =
    let others = keep (λ b. not (b.id == a)) (held_by u r) in
    elim (Option-cases (head? others)) [
      | inl e ↦ cc (sym (ap (Option.map (λ (c : Account). c.id)) e) ∙ h)
      | inr (b, e) ↦
          let own =
            own_head u r others b
              (no_any-keep (is_foreign u r) (λ b. not (b.id == a)) (held_by u r) (held_by-own u r))
              e in
          let same : some b.id ≡ some i = sym (ap (Option.map (λ (c : Account). c.id)) e) ∙ h in
          let same_id : b.id ≡ i = cc in subst (λ j. linked j u r.links ≡ true) same_id own
    ]

abbrev pub is_own : ℕ → ℕ → Registry → Account → Bool
is_own i u r a = a.id == i && linked a.id u r.links

-- The first account of the list is found again by its id.
pub held_by-found :
    (u : ℕ) (r : Registry) (a : Account)
    → head? (held_by u r) ≡ some a
    → any (is_own a.id u r) r.accounts ≡ true
unfolding held_by
held_by-found u r a h =
    let kept = λ (b : Account). linked b.id u r.links && is_own a.id u r b in
    any-holds kept (is_own a.id u r) (λ b k. ground (arith, k)) r.accounts
      (sym (any-keep (is_own a.id u r) (λ b. linked b.id u r.links) r.accounts)
        ∙ sym (any-by_activity (is_own a.id u r) (keep (λ b. linked b.id u r.links) r.accounts))
        ∙ any-head? (is_own a.id u r) (held_by u r) a h (ground (arith, held_by-linked u r a h)))
