-- ===== src/Accounts/Rotation.antt =====
-- What a rotation of an account's token takes away, and for how long.
use algo_trading_broker.Prelude.{
  ap, ℕ, ◌≡◌, ◌≢◌, refl, ◌∙◌, Bool, false, not, ◌&&◌, none, some, List, [], ◌∷◌, map, arith,
  Bool-cases, ◌==◌, nat_eq, string_eq, option_eq, inl, inr, String,
}
use algo_trading_broker.Prelude.Finds.{any, find}
use algo_trading_broker.Accounts.{
  Account, LinkToken, Registry, linked, active_of, token_taken, is_valid, find_valid,
}
use algo_trading_broker.Accounts.Operations.{link_telegram, revoke, reset_access, rotate_link_token}
use algo_trading_broker.Accounts.Calls.{Call, apply_all}
use algo_trading_broker.Accounts.Lookups.{active_of-unpoint, linked-reset, taken-revoke}
use algo_trading_broker.Accounts.Pointers.{IsRegistry}
use algo_trading_broker.Accounts.Tokens.{
  is_live, Spent, owner, Spent-append_one, owner-revoked, taken-owner, apply_all-Spent,
}

not_live :
    (t now : ℕ) (ks : List LinkToken) → any (is_live t) ks ≡ false → find_valid t now ks ≡ none
unfolding find_valid any find is_valid
not_live t now [] h = refl
not_live t now (k ∷ ks) h = ground (arith, not_live t now ks, h)

link-refused :
    (up : Bool) (t u now : ℕ) (r : Registry)
    → find_valid t now r.tokens ≡ none
    → link_telegram up t u now r ≡ (none, r)
unfolding link_telegram
link-refused up t u now r h = rw (h, link_telegram) refl

rotated :
    (up : Bool) (name : String) (n now : ℕ) (r : Registry) (a : Account)
    → find (λ b. b.account_id == name) r.accounts ≡ some a
    → (rotate_link_token up name n now r).0 ≡ some n
    → ((rotate_link_token up name n now r).1 ≡ reset_access a.id n now r)
      × (token_taken n r.tokens ≡ false)
unfolding rotate_link_token
rotated up name n now r a e h = elim (Bool-cases (up && not (token_taken n r.tokens))) [
  | inl f ↦ (rw (e, f, rotate_link_token) refl, ground (arith, f))
  | inr f ↦ absurd (cc (rw (e, f, rotate_link_token) at h))
]

-- After a rotation that answered a token, no user is linked to the account and no session points
-- at it, while the links to every other account are as before.
pub rotate-resets :
    (up : Bool) (name : String) (n now : ℕ) (r : Registry) (a : Account)
    → find (λ b. b.account_id == name) r.accounts ≡ some a
    → (rotate_link_token up name n now r).0 ≡ some n
    → (u : ℕ)
    → (linked a.id u (rotate_link_token up name n now r).1.links ≡ false)
      × (active_of u (rotate_link_token up name n now r).1.sessions ≢ some a.id)
      × ((b : ℕ)
          → b ≢ a.id
          → linked b u (rotate_link_token up name n now r).1.links ≡ linked b u r.links)
unfolding reset_access
rotate-resets up name n now r a e h u =
    let done = (rotated up name n now r a e h).0 in
    rw done (
      linked-reset a.id u a.id r.links ∙ ground arith,
      λ p. ground (arith, active_of-unpoint a.id u r.sessions, p),
      λ b d. linked-reset b u a.id r.links ∙ ground (arith, d),
    )

-- In a registry that keeps its invariant, a token of the account that a rotation is of lets nobody
-- link from then on: whatever calls follow, an attempt with it answers nothing and changes nothing.
pub rotate-ends_token :
    (up : Bool) (name : String) (n now : ℕ) (r : Registry) (a : Account) (t : ℕ)
    → IsRegistry r
    → find (λ b. b.account_id == name) r.accounts ≡ some a
    → (rotate_link_token up name n now r).0 ≡ some n
    → owner t r.tokens ≡ some a.id
    → (cs : List Call) (again : Bool) (u later : ℕ)
    → link_telegram again t u later (apply_all cs (rotate_link_token up name n now r).1)
      ≡ (none, apply_all cs (rotate_link_token up name n now r).1)
unfolding reset_access
rotate-ends_token up name n now r a t ok e h o cs again u later =
    let (done, free) = rotated up name n now r a e h in
    let start : Spent t (rotate_link_token up name n now r).1.tokens = rw done (
      Spent-append_one t a.id n (map (revoke a.id now) r.tokens)
        (taken-revoke n a.id now r.tokens ∙ free)
        (
          taken-revoke t a.id now r.tokens ∙ taken-owner t a.id r.tokens o,
          owner-revoked t a.id now r.tokens ok.one_token o,
        )) in
    let s = apply_all cs (rotate_link_token up name n now r).1 in
    link-refused again t u later s (
      not_live t later s.tokens
        (apply_all-Spent t cs (rotate_link_token up name n now r).1 start).1)

pub rotate-accounts :
    (up : Bool) (name : String) (n now : ℕ) (r : Registry) (a : Account)
    → find (λ b. b.account_id == name) r.accounts ≡ some a
    → (rotate_link_token up name n now r).0 ≡ some n
    → (rotate_link_token up name n now r).1.accounts ≡ r.accounts
unfolding reset_access
rotate-accounts up name n now r a e h = ap (λ s. s.accounts) (rotated up name n now r a e h).0
