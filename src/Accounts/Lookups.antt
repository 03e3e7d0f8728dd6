-- ===== src/Accounts/Lookups.antt =====
-- What the updates of the tables do to the links and the selections of the users.
use algo_trading_broker.Prelude.{
  ℕ, ◌≡◌, refl, ap, ◌∙◌, true, false, not, ◌&&◌, ◌||◌, Option, none, some, List, [], ◌∷◌, ◌++◌, map,
  arith, Bool-cases, if◌then◌else◌, keep, ◌==◌, nat_eq, option_eq, inl, inr,
}
use algo_trading_broker.Prelude.Finds.{any, find, update_first, any-append}
use algo_trading_broker.Accounts.{
  LinkToken, token_taken, BotLink, BotSession, at_link, linked, of_user, active_of, repoint,
  point_session,
}
use algo_trading_broker.Accounts.Operations.{add_link, drop_link, new_link, unpoint, revoke}

pub active_of-repoint :
    (u : ℕ) (p : Option ℕ) (ss : List BotSession)
    → active_of u (repoint u p ss) ≡ (if any (of_user u) ss then p else none)
unfolding active_of find any update_first
active_of-repoint u p [] = refl
active_of-repoint u p (s ∷ ss) = ground (arith, active_of-repoint u p ss)

pub active_of-repoint_other :
    (u v : ℕ) (p : Option ℕ) (ss : List BotSession)
    → (u == v) ≡ false
    → active_of v (repoint u p ss) ≡ active_of v ss
unfolding active_of find update_first
active_of-repoint_other u v p [] h = refl
active_of-repoint_other u v p (s ∷ ss) h = ground (arith, active_of-repoint_other u v p ss h, h)

active_of-append_one :
    (u v : ℕ) (p : Option ℕ) (ss : List BotSession)
    → any (of_user u) ss ≡ false
    → active_of v (ss ++ record { user = u; active = p } ∷ [])
      ≡ (if u == v then p else active_of v ss)
unfolding active_of find any
active_of-append_one u v p [] h = ground arith
active_of-append_one u v p (s ∷ ss) h = ground (arith, active_of-append_one u v p ss, h)

pub active_of-point :
    (u v : ℕ) (p : Option ℕ) (ss : List BotSession)
    → active_of v (point_session u p ss) ≡ (if u == v then p else active_of v ss)
unfolding point_session
active_of-point u v p ss = ground (
  arith,
  active_of-append_one u v p ss,
  active_of-repoint u p ss,
  active_of-repoint_other u v p ss,
)

pub active_of-unpoint :
    (a v : ℕ) (ss : List BotSession)
    → active_of v (map (unpoint a) ss) ≡ (if active_of v ss == some a then none else active_of v ss)
unfolding active_of find
active_of-unpoint a v [] = refl
active_of-unpoint a v (s ∷ ss) = ground (arith, active_of-unpoint a v ss)

linked-at :
    (a u b v : ℕ) (ls : List BotLink)
    → at_link a u (new_link b v) ≡ true
    → linked b v ls ≡ linked a u ls
linked-at a u b v ls h =
    ap (λ x. linked x v ls) (ground (arith, h)) ∙ ap (λ y. linked a y ls) (ground (arith, h))

pub linked-add :
    (a u b v : ℕ) (ls : List BotLink)
    → linked a u (add_link b v ls) ≡ (linked a u ls || at_link a u (new_link b v))
unfolding any
linked-add a u b v ls = elim (Bool-cases (linked b v ls)) [
  | inl e ↦ rw e (ground (arith, e, linked-at a u b v ls))
  | inr e ↦ rw e (ground (arith, any-append (at_link a u) ls (new_link b v ∷ [])))
]

pub linked-drop :
    (a u b v : ℕ) (ls : List BotLink)
    → linked a u (drop_link b v ls) ≡ (linked a u ls && not (b == a && v == u))
unfolding any keep
linked-drop a u b v [] = refl
linked-drop a u b v (l ∷ ls) = ground (arith, linked-drop a u b v ls)

pub linked-reset :
    (a u i : ℕ) (ls : List BotLink)
    → linked a u (keep (λ l. not (l.account == i)) ls) ≡ (linked a u ls && not (i == a))
unfolding any keep
linked-reset a u i [] = refl
linked-reset a u i (l ∷ ls) = ground (arith, linked-reset a u i ls)

pub taken-revoke :
    (t a now : ℕ) (ks : List LinkToken) → token_taken t (map (revoke a now) ks) ≡ token_taken t ks
unfolding any
taken-revoke t a now [] = refl
taken-revoke t a now (k ∷ ks) = ground (arith, taken-revoke t a now ks)
