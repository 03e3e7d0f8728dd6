-- ===== src/CycleLock/Draining.antt =====
-- The entry of a cycle goes when nobody uses its lock any more.
use mathlib.Core.Path.{subst}
use algo_trading_broker.Prelude.{
  ℕ, zero, suc, ◌-◌, ◌≡◌, refl, sym, ap, ◌∙◌, true, false, none, some, List, [], ◌∷◌, ◌++◌, map,
  ◌==◌, nat_eq, arith, length,
}
use algo_trading_broker.CycleLock.{Lock, Locks, give_up}
use algo_trading_broker.CycleLock.Use.{Held, InUse, IsSerial}
use algo_trading_broker.CycleLock.Rounds.{
  finish_first, wake_entry, turn, arrive_all, rounds, Queue, finish_only,
}
use algo_trading_broker.CycleLock.Fairness.{turn-Queue}

-- So many rounds in which nobody arrives.
abbrev pub quiet : ℕ → List (List ℕ)
quiet zero = []
quiet (suc n) = [] ∷ quiet n

-- Nobody uses the lock, and its entry is gone.
abbrev pub IsFree : Locks → Type 0
IsFree s = (s.entry ≡ none) × (s.inside ≡ [])

give_up-last : (o : ℕ) (l : Lock) (s : Locks) → l.users ≡ 1 → IsFree (give_up o l [] s)
unfolding give_up
give_up-last o l s n =
    let gone : (l.users - 1 == 0) ≡ true = ground (arith, n) in rw gone (refl, refl)

finish_first-last :
    (o : ℕ) (s : Locks) (ps : List (ℕ × ℕ))
    → s.inside ≡ ps
    → Queue o [] s
    → IsFree (finish_first s ps)
unfolding finish_first
finish_first-last o s [] h q =
    let (idle, busy, n) = subst (λ y. InUse y s.objects s.inside) q.entry q.serial in
    absurd (omega (arith, busy.counted, n, ap length h, ap length q.waiters))
finish_first-last o s (p ∷ []) h q =
    let (idle, busy, n) = subst (λ y. InUse y s.objects s.inside) q.entry q.serial in
    let at_lock : p.1 ≡ o = (subst (Held (s.objects o).locked o) h busy.held).1 in
    let same = finish_only p.0 o s (h ∙ ap (λ i. (p.0, i) ∷ []) at_lock) in
    subst IsFree (sym same) (
      give_up-last o
        (record { locked = false; waiters = (s.objects o).waiters; users = (s.objects o).users }) s
        (omega (arith, busy.counted, ap length h, ap length q.waiters)))
finish_first-last o s (p ∷ r ∷ ps) h q =
    let (idle, busy, n) = subst (λ y. InUse y s.objects s.inside) q.entry q.serial in
    cc (subst (Held (s.objects o).locked o) h busy.held)

turn-last : (o : ℕ) (s : Locks) → Queue o [] s → IsFree (turn s)
unfolding wake_entry
turn-last o s q =
    let t = finish_first s s.inside in
    let gone = finish_first-last o s s.inside refl q in
    subst (λ x. IsFree (wake_entry t x)) (sym gone.0) gone

drained :
    (o : ℕ) (s : Locks) (ws : List ℕ) → Queue o ws s → IsFree (rounds (quiet (suc (length ws))) s)
unfolding rounds arrive_all
drained o s [] q = turn-last o s q
drained o s (w ∷ ws) q = drained o (turn s) ws (turn-Queue o w ws s q).0

-- The dispatches that are inside after each of so many rounds in which nobody arrives.
abbrev pub served : ℕ → Locks → List ℕ
served zero s = []
served (suc n) s = let t = rounds (quiet 1) s in map (λ p. p.0) t.inside ++ served n t

served-waiters : (o : ℕ) (s : Locks) (ws : List ℕ) → Queue o ws s → served (length ws) s ≡ ws
unfolding rounds arrive_all
served-waiters o s [] q = refl
served-waiters o s (w ∷ ws) q =
    let (next, inside) = turn-Queue o w ws s q in
    ap (λ ps. map (λ p. p.0) ps ++ served (length ws) (turn s)) inside
    ∙ ap (λ ds. w ∷ ds) (served-waiters o (turn s) ws next)

-- When nobody else arrives, every dispatch of a cycle that uses the lock gets its turn: those that
-- wait are inside one after the other, in their order, after a round each, and after one round more
-- nobody is inside and the entry of the cycle is gone.
pub rounds-drained :
    (o : ℕ) (s : Locks)
    → IsSerial s
    → s.entry ≡ some o
    → (served (length (s.objects o).waiters) s ≡ (s.objects o).waiters)
      × IsFree (rounds (quiet (suc (length (s.objects o).waiters))) s)
rounds-drained o s ok e =
    let q : Queue o (s.objects o).waiters s = record { serial = ok; entry = e; waiters = refl } in
    (served-waiters o s (s.objects o).waiters q, drained o s (s.objects o).waiters q)
