-- ===== src/CycleLock/Fairness.antt =====
-- Dispatches of one cycle get inside in the order in which they arrive.
use mathlib.Core.Path.{subst}
use algo_trading_broker.Prelude.{
  ℕ, zero, suc, ◌≡◌, refl, sym, ap, ◌∙◌, true, false, some, List, [], ◌∷◌, ◌++◌, nat_eq, arith,
  length, get_elem?,
}
use algo_trading_broker.CycleLock.{Lock, Locks, give_up, wake_at, wake, happen, finishes, wakes}
use algo_trading_broker.CycleLock.Use.{Held, Busy, InUse, IsSerial, set_object-same}
use algo_trading_broker.CycleLock.Exclusion.{happen-IsSerial}
use algo_trading_broker.CycleLock.Rounds.{
  finish_first, wake_entry, turn, arrive_all, rounds, Queue, Waits, arrive_all-Waits, finish_only,
  give_up-stays,
}

in_use : (o : ℕ) (s : Locks) → s.entry ≡ some o → IsSerial s → Busy (s.objects o) o s.inside
in_use o s e ok = (subst (λ y. InUse y s.objects s.inside) e ok).1

finish_first-Queue :
    (o w : ℕ) (ws : List ℕ) (s : Locks) (ps : List (ℕ × ℕ))
    → s.inside ≡ ps
    → Queue o (w ∷ ws) s
    → Queue o (w ∷ ws) (finish_first s ps) × ((finish_first s ps).inside ≡ [])
unfolding finish_first happen give_up
finish_first-Queue o w ws s [] h q = (q, h)
finish_first-Queue o w ws s (p ∷ []) h q =
    let busy = in_use o s q.entry q.serial in
    let at_lock : p.1 ≡ o = (subst (Held (s.objects o).locked o) h busy.held).1 in
    let same = finish_only p.0 o s (h ∙ ap (λ i. (p.0, i) ∷ []) at_lock) in
    let l : Lock = record {
      locked = false;
      waiters = (s.objects o).waiters;
      users = (s.objects o).users;
    } in
    let (e, k) = give_up-stays o w l ws s q.waiters (omega (arith, busy.counted, ap length h)) in
    (
      record {
        serial = happen-IsSerial (finishes p.0) s q.serial;
        entry = ap (λ t. t.entry) same ∙ e ∙ q.entry;
        waiters = ap (λ t. (t.objects o).waiters) same ∙ k;
      },
      ap (λ t. t.inside) same,
    )
finish_first-Queue o w ws s (p ∷ r ∷ ps) h q =
    let busy = in_use o s q.entry q.serial in cc (subst (Held (s.objects o).locked o) h busy.held)

wake_at-takes :
    (o w : ℕ) (ws : List ℕ) (s : Locks)
    → (s.objects o).locked ≡ false
    → ((wake_at o s (w ∷ ws)).entry ≡ s.entry)
      × (((wake_at o s (w ∷ ws)).objects o).waiters ≡ ws)
      × ((wake_at o s (w ∷ ws)).inside ≡ s.inside ++ (w, o) ∷ [])
wake_at-takes o w ws s h = rw h (
  refl,
  ap (λ k. k.waiters)
      (set_object-same o (record { locked = true; waiters = ws; users = (s.objects o).users })
        s.objects),
  refl,
)

wake-Queue :
    (o w : ℕ) (ws : List ℕ) (s : Locks)
    → Queue o (w ∷ ws) s
    → s.inside ≡ []
    → Queue o ws (wake o s) × ((wake o s).inside ≡ (w, o) ∷ [])
unfolding wake happen
wake-Queue o w ws s q h =
    let busy = in_use o s q.entry q.serial in
    let free : (s.objects o).locked ≡ false = subst (Held (s.objects o).locked o) h busy.held in
    let same : wake o s ≡ wake_at o s (w ∷ ws) = ap (wake_at o s) q.waiters in
    let (e, k, i) = wake_at-takes o w ws s free in
    (
      record {
        serial = happen-IsSerial (wakes o) s q.serial;
        entry = ap (λ t. t.entry) same ∙ e ∙ q.entry;
        waiters = ap (λ t. (t.objects o).waiters) same ∙ k;
      },
      ap (λ t. t.inside) same ∙ i ∙ ap (λ ps. ps ++ (w, o) ∷ []) h,
    )

pub turn-Queue :
    (o w : ℕ) (ws : List ℕ) (s : Locks)
    → Queue o (w ∷ ws) s
    → Queue o ws (turn s) × ((turn s).inside ≡ (w, o) ∷ [])
unfolding wake_entry
turn-Queue o w ws s q =
    let (mid, out) = finish_first-Queue o w ws s s.inside refl q in
    let t = finish_first s s.inside in
    subst (λ x. Queue o ws (wake_entry t x) × ((wake_entry t x).inside ≡ (w, o) ∷ []))
      (sym mid.entry) (wake-Queue o w ws t mid out)

turn-first :
    (o d : ℕ) (s : Locks) (ws : List ℕ)
    → (s.objects o).waiters ≡ ws
    → Waits o 0 d s
    → (turn s).inside ≡ (d, o) ∷ []
turn-first o d s [] h q = cc (ap (λ ws. get_elem? ws 0) h, q.place)
turn-first o d s (w ∷ ws) h q =
    let same : some w ≡ some d = sym (ap (λ xs. get_elem? xs 0) h) ∙ q.place in
    let same_id : w ≡ d = cc in
    (turn-Queue o w ws s (record { serial = q.serial; entry = q.entry; waiters = h })).1
    ∙ ap (λ x. (x, o) ∷ []) same_id

turn-Waits :
    (o k d : ℕ) (s : Locks) (ws : List ℕ)
    → (s.objects o).waiters ≡ ws
    → Waits o (suc k) d s
    → Waits o k d (turn s)
turn-Waits o k d s [] h q = cc (ap (λ ws. get_elem? ws (suc k)) h, q.place)
turn-Waits o k d s (w ∷ ws) h q =
    let next =
      (turn-Queue o w ws s (record { serial = q.serial; entry = q.entry; waiters = h })).0 in
    record {
      serial = next.serial;
      entry = next.entry;
      place =
          ap (λ xs. get_elem? xs k) next.waiters
          ∙ sym (ap (λ xs. get_elem? xs (suc k)) h)
          ∙ q.place;
    }

-- A dispatch that waits behind `k` others is the one inside after `k + 1` rounds, in each of
-- which any others arrive, then whoever is inside ends and the first that waits runs on.
pub rounds-served :
    (o k d : ℕ) (s : Locks) (news : List (List ℕ))
    → Waits o k d s
    → length news ≡ suc k
    → (rounds news s).inside ≡ (d, o) ∷ []
unfolding rounds
rounds-served o k d s [] q n = absurd (omega (arith, n))
rounds-served o zero d s (ns ∷ []) q n =
    let t = arrive_all ns s in
    turn-first o d t (t.objects o).waiters refl (arrive_all-Waits ns o 0 d s q)
rounds-served o zero d s (ns ∷ ms ∷ news) q n = absurd (omega (arith, n))
rounds-served o (suc k) d s (ns ∷ news) q n =
    let t = arrive_all ns s in
    rounds-served o k d (turn t) news
      (turn-Waits o k d t (t.objects o).waiters refl (arrive_all-Waits ns o (suc k) d s q))
      (omega (arith, n))
