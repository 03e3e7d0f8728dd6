-- ===== src/Accounts/Pointers.antt =====
-- The invariant of the registry over any sequence of calls.
use mathlib.Core.Path.{subst}
use algo_trading_broker.Prelude.{
  ℕ, ◌≡◌, refl, sym, ◌∙◌, Bool, true, false, not, Option, some, List, map, arith, Bool-cases, keep,
  ◌==◌, nat_eq, option_eq, inl, inr,
}
use algo_trading_broker.Prelude.Finds.{any, Apart, Apart-append_one, Apart-update_first}
use algo_trading_broker.Accounts.{
  Account, BotLink, LinkToken, BotSession, Registry, at_link, linked, of_user, active_of, point_at,
  repoint, point_session,
}
use algo_trading_broker.Accounts.Operations.{add_link, new_link, unpoint}
use algo_trading_broker.Accounts.Lookups.{
  active_of-repoint, active_of-repoint_other, active_of-point, active_of-unpoint, linked-reset,
}

abbrev pub same_account : Account → Account → Bool
same_account a b = a.id == b.id

abbrev pub same_token : LinkToken → LinkToken → Bool
same_token k l = k.token == l.token

abbrev pub same_link : BotLink → BotLink → Bool
same_link k l = at_link l.account l.user k

abbrev pub same_session : BotSession → BotSession → Bool
same_session s t = s.user == t.user

-- Every selection is of an account that its user is linked to.
abbrev pub Pointed : List BotLink → List BotSession → Type 0
Pointed links sessions = (a u : ℕ) → active_of u sessions ≡ some a → linked a u links ≡ true

pub record IsRegistry (r : Registry) : Type 0 where
  pub one_account : Apart same_account r.accounts
  pub one_token : Apart same_token r.tokens
  pub one_link : Apart same_link r.links
  pub one_session : Apart same_session r.sessions
  pub pointers : Pointed r.links r.sessions

pub Apart-point :
    (u : ℕ) (p : Option ℕ) (ss : List BotSession)
    → Apart same_session ss
    → Apart same_session (point_session u p ss)
unfolding point_session
Apart-point u p ss d = elim (Bool-cases (any (of_user u) ss)) [
  | inl e ↦
      rw e
        (Apart-update_first same_session (point_at p) (λ x y. refl) (λ x y. refl) (of_user u) ss d)
  | inr e ↦ rw e (Apart-append_one same_session ss (record { user = u; active = p }) e d)
]

pub Apart-add :
    (a u : ℕ) (ls : List BotLink) → Apart same_link ls → Apart same_link (add_link a u ls)
Apart-add a u ls d = elim (Bool-cases (linked a u ls)) [
  | inl e ↦ rw e d
  | inr e ↦ rw e (Apart-append_one same_link ls (new_link a u) e d)
]

-- A selection of a linked account.
pub Pointed-point :
    (i u : ℕ) (links : List BotLink) (ss : List BotSession)
    → linked i u links ≡ true
    → Pointed links ss
    → Pointed links (point_session u (some i) ss)
Pointed-point i u links ss h p a v e = elim (Bool-cases (u == v)) [
  | inl f ↦
      let w : u ≡ v = ground (arith, f) in
      let i' : i ≡ a = ground (arith, e, f, active_of-point u v (some i) ss) in
      subst (λ x. linked a x links ≡ true) w (subst (λ x. linked x u links ≡ true) i' h)
  | inr f ↦ p a v (ground (arith, e, f, active_of-point u v (some i) ss))
]

pub Pointed-repoint :
    (u : ℕ) (p : Option ℕ) (links : List BotLink) (ss : List BotSession)
    → ((i : ℕ) → p ≡ some i → linked i u links ≡ true)
    → ((a v : ℕ) → (u == v) ≡ false → active_of v ss ≡ some a → linked a v links ≡ true)
    → Pointed links (repoint u p ss)
Pointed-repoint u p links ss h k a v e = elim (Bool-cases (u == v)) [
  | inl f ↦
      let w : u ≡ v = ground (arith, f) in
      let e' = subst (λ x. active_of x (repoint u p ss) ≡ some a) (sym w) e in
      subst (λ x. linked a x links ≡ true) w (h a (ground (arith, e', active_of-repoint u p ss)))
  | inr f ↦ k a v f (sym (active_of-repoint_other u v p ss f) ∙ e)
]

pub Pointed-more :
    (links more : List BotLink) (ss : List BotSession)
    → ((a u : ℕ) → linked a u links ≡ true → linked a u more ≡ true)
    → Pointed links ss
    → Pointed more ss
Pointed-more links more ss h p a u e = h a u (p a u e)

pub Pointed-unpoint :
    (i : ℕ) (links : List BotLink) (ss : List BotSession)
    → Pointed links ss
    → Pointed (keep (λ l. not (l.account == i)) links) (map (unpoint i) ss)
Pointed-unpoint i links ss p a u e =
    let old : active_of u ss ≡ some a = ground (arith, e, active_of-unpoint i u ss) in
    let other : (i == a) ≡ false = ground (arith, e, old, active_of-unpoint i u ss) in
    linked-reset a u i links ∙ ground (arith, p a u old, other)
