-- ===== src/Trade/Written.antt =====
-- What one call of the upsert leaves of the row of its trade.
use mathlib.Core.Option
use algo_trading_broker.Prelude.{
  ℕ, String, ◌≡◌, ◌≢◌, refl, sym, ap, ◌∙◌, Bool, true, false, not, ◌&&◌, Option, none, some, List,
  [], ◌∷◌, ◌++◌, is_some, if◌then◌else◌, ◌==◌, nat_eq, string_eq, option_eq, arith, Bool-cases, inl,
  inr, beq_refl,
}
use algo_trading_broker.Prelude.Texts.{upper}
use algo_trading_broker.Prelude.Finds.{
  any, find, update_first, find-update_hit, find-append_one, is_some-find,
}
use algo_trading_broker.Accounts.{Market, market_eq, Account}
use algo_trading_broker.Trade.{
  TradeStatus, to_trade_status, is_open, is_downgrade, Standing, standing_after, advance,
}
use algo_trading_broker.Trade.Events.{PositionEvent, TradeRow, Book, given}
use algo_trading_broker.Trade.Rows.{
  is_trade, is_trade_of, trade_clash, assign, new_trade, is_action, upsert_trade_at, upsert_account,
  raised, stored, commit, upsert_known,
}

abbrev pub standing : TradeRow → Standing
standing t = record { status = t.status; is_running = t.is_running }

-- What an event makes of a trade that may not be there yet.
unfoldable pub track : Option Standing → String → Option Standing
track none s = Option.map (λ t. record { status = t; is_running = is_open s }) (to_trade_status s)
track (some row) s = some (advance row s)

is_trade-given :
    (a r : String) (m : Market) (g : Option String) (t u : TradeRow)
    → u.account_id ≡ t.account_id
    → u.ref_id ≡ t.ref_id
    → u.market ≡ some m
    → u.gateway ≡ given g t.gateway
    → is_trade (a, r, m, g) t ≡ true
    → is_trade (a, r, m, g) u ≡ true
unfolding is_trade
is_trade-given a r m none t u ha hr hm hg h = rw (ha, hr, hm, hg) (ground (arith, h, beq_refl m))
is_trade-given a r m (some g) t u ha hr hm hg h =
    rw (ha, hr, hm, hg) (ground (arith, h, beq_refl m, beq_refl g))

is_trade_of-assign :
    (ev : PositionEvent) (st : TradeStatus) (t : TradeRow)
    → is_trade_of ev t ≡ true
    → is_trade_of ev (assign ev st t) ≡ true
is_trade_of-assign ev st t h =
    is_trade-given ev.account_id ev.ref_source_id ev.market ev.gateway t (assign ev st t) refl refl
      refl refl h

is_trade-new :
    (a r : String) (m : Market) (g : Option String) (u : TradeRow)
    → u.account_id ≡ a
    → u.ref_id ≡ some r
    → u.market ≡ some m
    → u.gateway ≡ g
    → is_trade (a, r, m, g) u ≡ true
unfolding is_trade
is_trade-new a r m none u ha hr hm hg =
    rw (ha, hr, hm, hg) (ground (arith, beq_refl m, beq_refl a, beq_refl r))
is_trade-new a r m (some g) u ha hr hm hg =
    rw (ha, hr, hm, hg) (ground (arith, beq_refl m, beq_refl g, beq_refl a, beq_refl r))

is_trade_of-new :
    (ev : PositionEvent) (st : TradeStatus) (i : ℕ) → is_trade_of ev (new_trade ev st i) ≡ true
is_trade_of-new ev st i =
    is_trade-new ev.account_id ev.ref_source_id ev.market ev.gateway (new_trade ev st i) refl refl
      refl refl

pub find-new :
    (ev : PositionEvent) (st : TradeStatus) (i : ℕ) (trades : List TradeRow)
    → find (is_trade_of ev) trades ≡ none
    → find (is_trade_of ev) (trades ++ new_trade ev st i ∷ []) ≡ some (new_trade ev st i)
find-new ev st i trades f =
    find-append_one (is_trade_of ev) trades (new_trade ev st i)
    ∙ ground
        (arith, sym (is_some-find (is_trade_of ev) trades) ∙ ap is_some f, is_trade_of-new ev st i)

pub find-assigned :
    (ev : PositionEvent) (st : TradeStatus) (trades : List TradeRow) (row : TradeRow)
    → find (is_trade_of ev) trades ≡ some row
    → find (is_trade_of ev) (update_first (is_trade_of ev) (assign ev st) trades)
      ≡ some (assign ev st row)
find-assigned ev st trades row f =
    find-update_hit (is_trade_of ev) (assign ev st) (is_trade_of-assign ev st) trades
    ∙ ap (Option.map (assign ev st)) f

advance-known :
    (row : Standing) (s : String) (st : TradeStatus)
    → to_trade_status s ≡ some st
    → advance row s
      ≡ (if is_downgrade st row.status then row else record { status = st; is_running = is_open s })
unfolding advance
advance-known row s st h = ap (standing_after row s) h

-- What the write leaves: a new row, the row as it was, or the row with the assignments.
pub data Written (ev : PositionEvent) (st : TradeStatus) (i : ℕ) (trades : List TradeRow)
    (x : TradeRow × List TradeRow) : Option TradeRow → Type 0 where
  inserted :
      x ≡ (new_trade ev st i, trades ++ new_trade ev st i ∷ []) → Written ev st i trades x none
  kept :
      {row : TradeRow}
      → is_downgrade st row.status ≡ true
      → x ≡ (row, trades)
      → Written ev st i trades x (some row)
  assigned :
      {row : TradeRow}
      → is_downgrade st row.status ≡ false
      → x ≡ (assign ev st row, update_first (is_trade_of ev) (assign ev st) trades)
      → Written ev st i trades x (some row)

the_value : {A : Type 0} (x y : A) → some x ≡ some y → y ≡ x
the_value x y h = cc

pub upsert_trade-Written :
    (ev : PositionEvent) (st : TradeStatus) (i : ℕ) (trades : List TradeRow)
    (found : Option TradeRow) (x : TradeRow × List TradeRow)
    → upsert_trade_at ev st i trades found ≡ some x
    → Written ev st i trades x found
upsert_trade-Written ev st i trades none x h =
    elim (Bool-cases (is_action (upper ev.action) && not (any (λ t. t.id == i) trades))) [
      | inl e ↦
          inserted (the_value (new_trade ev st i, trades ++ new_trade ev st i ∷ []) x (rw e at h))
      | inr e ↦ absurd (cc (rw e at h))
    ]
upsert_trade-Written ev st i trades (some row) x h =
    elim (Bool-cases (is_downgrade st row.status)) [
      | inl e ↦ kept e (the_value (row, trades) x (rw e at h))
      | inr e ↦ elim (Bool-cases (trade_clash ev row trades)) [
        | inl c ↦ absurd (cc (rw (e, c) at h))
        | inr c ↦ assigned e (
            the_value (assign ev st row, update_first (is_trade_of ev) (assign ev st) trades) x
              (rw (e, c) at h))
      ]
    ]

upsert_trade-track :
    (ev : PositionEvent) (st : TradeStatus) (i : ℕ) (trades : List TradeRow)
    (found : Option TradeRow) (x : TradeRow × List TradeRow)
    → find (is_trade_of ev) trades ≡ found
    → to_trade_status ev.status ≡ some st
    → Written ev st i trades x found
    → Option.map standing (find (is_trade_of ev) x.1) ≡ track (Option.map standing found) ev.status
unfolding track
upsert_trade-track ev st i trades none x f s (inserted h) =
    ap (λ y. Option.map standing (find (is_trade_of ev) y.1)) h
    ∙ ap (Option.map standing) (find-new ev st i trades f)
    ∙ sym (ap (Option.map (λ t. record { status = t; is_running = is_open ev.status })) s)
upsert_trade-track ev st i trades (some row) x f s (kept d h) =
    ap (λ y. Option.map standing (find (is_trade_of ev) y.1)) h
    ∙ ap (Option.map standing) f
    ∙ ap some (sym (advance-known (standing row) ev.status st s ∙ rw d refl))
upsert_trade-track ev st i trades (some row) x f s (assigned d h) =
    ap (λ y. Option.map standing (find (is_trade_of ev) y.1)) h
    ∙ ap (Option.map standing) (find-assigned ev st trades row f)
    ∙ ap some (sym (advance-known (standing row) ev.status st s ∙ rw d refl))

-- What a call leaves: it raises and keeps both tables, or both writes are there.
pub commit-cases :
    (up : Bool) (b : Book) (accounts : Option (List Account))
    (x : Option (TradeRow × List TradeRow))
    → ((commit up b accounts x).0 ≢ raised)
    → (l : List Account) × (y : TradeRow × List TradeRow) × (accounts ≡ some l)
      × (x ≡ some y)
      × (commit up b accounts x ≡ (stored y.0, record { trades = y.1; accounts = l }))
commit-cases true b (some l) (some y) h = (l, y, refl, refl, refl)
commit-cases true b (some l) none h = absurd (h refl)
commit-cases true b none x h = absurd (h refl)
commit-cases false b accounts x h = absurd (h refl)

track-unknown : (row : Option Standing) (s : String) → to_trade_status s ≡ none → track row s ≡ row
unfolding track advance
track-unknown none s h = ap (Option.map (λ t. record { status = t; is_running = is_open s })) h
track-unknown (some row) s h = ap some (ap (standing_after row s) h)

-- A call about a trade that does not raise takes the trade where the lifecycle takes it.
pub upsert_known-track :
    (up : Bool) (ev : PositionEvent) (i j now : ℕ) (b : Book) (status : Option TradeStatus)
    → to_trade_status ev.status ≡ status
    → (upsert_known up ev i j now b status).0 ≢ raised
    → Option.map standing (find (is_trade_of ev) (upsert_known up ev i j now b status).1.trades)
      ≡ track (Option.map standing (find (is_trade_of ev) b.trades)) ev.status
unfolding track
upsert_known-track up ev i j now b none s h =
    sym (track-unknown (Option.map standing (find (is_trade_of ev) b.trades)) ev.status s)
upsert_known-track up ev i j now b (some st) s h =
    let (l, y, ha, hx, done) =
      commit-cases up b (upsert_account ev i now b.accounts)
        (upsert_trade_at ev st j b.trades (find (is_trade_of ev) b.trades)) h in
    ap (λ c. Option.map standing (find (is_trade_of ev) c.1.trades)) done
    ∙ upsert_trade-track ev st j b.trades (find (is_trade_of ev) b.trades) y refl s
        (upsert_trade-Written ev st j b.trades (find (is_trade_of ev) b.trades) y hx)
