-- ===== src/Trade/Queries.antt =====
-- broker/db/repository/trade.py, `get_for_telegram_user` and `count_by_account`: which trades a user
-- may see, and how many an account id has. A user sees a trade through an account that it may belong
-- to and that is linked to them. The cards that are posted and the list by a bare account id, which do
-- not ask for a link, are not part of this.
use algo_trading_broker.Prelude.{
  ℕ, ◌≡◌, ◌≢◌, sym, ap, ◌∙◌, String, Bool, true, false, not, ◌&&◌, Option, none, some, List, length,
  keep, if◌then◌else◌, ◌==◌, nat_eq, string_eq, option_eq, arith, Bool-cases, inl, inr,
}
use algo_trading_broker.Prelude.Finds.{any, find, any-holds, find-holds}
use algo_trading_broker.Accounts.{market_eq, Account, Registry, linked}
use algo_trading_broker.Accounts.Operations.{rotate_link_token}
use algo_trading_broker.Accounts.Rotation.{rotate-accounts, rotate-resets}
use algo_trading_broker.Trade.Events.{TradeRow}

-- The join of a trade with an account. In SQL a missing gateway equals nothing.
unfoldable pub owns : Account → TradeRow → Bool
owns a t =
    a.account_id == t.account_id
    && (some a.market == t.market
        && (elim a.gateway [ none ↦ true | some g ↦ t.gateway == some g ]))

abbrev pub sees : ℕ → Registry → TradeRow → Bool
sees u r t = any (λ a. owns a t && linked a.id u r.links) r.accounts

unfoldable pub get_for_telegram_user : Bool → ℕ → ℕ → Registry → List TradeRow → Option TradeRow
get_for_telegram_user up i u r trades =
    if up then find (λ t. t.id == i && sees u r t) trades else none

unfoldable pub count_by_account : Bool → String → List TradeRow → ℕ
count_by_account up account_id trades =
    if up then length (keep (λ t. t.account_id == account_id) trades) else 0

seen :
    (up : Bool) (i u : ℕ) (r : Registry) (trades : List TradeRow) (t : TradeRow)
    → get_for_telegram_user up i u r trades ≡ some t
    → sees u r t ≡ true
unfolding get_for_telegram_user
seen true i u r trades t h = ground (arith, find-holds (λ x. x.id == i && sees u r x) trades t h)
seen false i u r trades t h = cc

other_owner :
    (a b : Account) (t : TradeRow) (u : ℕ) (r : Registry)
    → (owns b t && linked b.id u r.links) ≡ true
    → linked a.id u r.links ≡ false
    → (owns b t && not (b.id == a.id)) ≡ true
other_owner a b t u r k gone = elim (Bool-cases (b.id == a.id)) [
  | inl e ↦
      let same : b.id ≡ a.id = ground (arith, e) in
      let here : linked b.id u r.links ≡ false = ap (λ i. linked i u r.links) same ∙ gone in
      absurd (ground (arith, k, here))
  | inr e ↦ ground (arith, k, e)
]

-- After a rotation that answered a token, the lookup of a trade for a Telegram user answers nobody
-- with a trade that belongs to the rotated account and to no other one, whoever was linked to it
-- before.
pub rotate-hides :
    (up : Bool) (name : String) (n now : ℕ) (r : Registry) (a : Account) (t : TradeRow)
    → find (λ b. b.account_id == name) r.accounts ≡ some a
    → (rotate_link_token up name n now r).0 ≡ some n
    → any (λ b. owns b t && not (b.id == a.id)) r.accounts ≡ false
    → (up' : Bool) (i u : ℕ) (trades : List TradeRow)
    → get_for_telegram_user up' i u (rotate_link_token up name n now r).1 trades ≢ some t
rotate-hides up name n now r a t e h only up' i u trades shown =
    let after = (rotate_link_token up name n now r).1 in
    let gone = (rotate-resets up name n now r a e h u).0 in
    let found : any (λ b. owns b t && linked b.id u after.links) r.accounts ≡ true =
      ap (λ l. any (λ b. owns b t && linked b.id u after.links) l)
        (sym (rotate-accounts up name n now r a e h))
      ∙ seen up' i u after trades t shown in
    let other : any (λ b. owns b t && not (b.id == a.id)) r.accounts ≡ true =
      any-holds (λ b. owns b t && linked b.id u after.links) (λ b. owns b t && not (b.id == a.id))
        (λ b k. other_owner a b t u after k gone) r.accounts found in
    cc (other, only)
