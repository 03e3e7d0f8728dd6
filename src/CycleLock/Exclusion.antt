-- ===== src/CycleLock/Exclusion.antt =====
-- Two dispatches of one cycle are never inside at once.
use mathlib.Core.Path.{subst}
use algo_trading_broker.Prelude.{
  ℕ, suc, ◌+◌, ◌-◌, ◌≤◌, ◌≡◌, ◌≢◌, inl, inr, refl, sym, ap, ◌∙◌, Bool, true, false, Option, none,
  some, List, [], ◌∷◌, ◌++◌, keep, ◌==◌, nat_eq, arith, length, Bool-cases,
}
use algo_trading_broker.Prelude.Finds.{any, find}
use algo_trading_broker.CycleLock.{
  Locks, no_locks, arrive, finish_at, wake_at, is_other, finish, wake, drop_first, cancel,
  LockEvent, arrives, finishes, wakes, cancelled, happen, happen_all,
}
use algo_trading_broker.CycleLock.Use.{
  Held, InUse, IsSerial, Held-one, used-IsSerial, Busy-take, none_counted, give_up-IsSerial,
  arrive_at-IsSerial,
}

none_found : (d : ℕ) (p : ℕ × ℕ) → find (λ q. q.0 == d) [] ≢ some p
unfolding find
none_found d p h = cc

Held-keep :
    (d o : ℕ) (b : Bool) (p : ℕ × ℕ) (inside : List (ℕ × ℕ))
    → Held b o inside
    → find (λ q. q.0 == d) inside ≡ some p
    → (p.1 ≡ o) × (keep (is_other d) inside ≡ []) × (length inside ≡ 1)
unfolding find keep
Held-keep d o b p [] h e = cc
Held-keep d o b p (q ∷ []) h e = ground (arith, h, e)
Held-keep d o b p (q ∷ r ∷ qs) h e = cc

finish_at-IsSerial :
    (d : ℕ) (s : Locks) (x : Option ℕ) (found : Option (ℕ × ℕ))
    → s.entry ≡ x
    → InUse x s.objects s.inside
    → find (λ q. q.0 == d) s.inside ≡ found
    → IsSerial (finish_at d s found)
finish_at-IsSerial d s x none e ok f = subst (λ y. InUse y s.objects s.inside) (sym e) ok
finish_at-IsSerial d s none (some p) e (idle, out) f =
    absurd (none_found d p (ap (λ ps. find (λ q. q.0 == d) ps) (sym out) ∙ f))
finish_at-IsSerial d s (some o) (some p) e (idle, busy, n) f =
    let (same, rest, one) = Held-keep d o (s.objects o).locked p s.inside busy.held f in
    subst (λ i. IsSerial (finish_at d s (some (p.0, i)))) (sym same)
      (give_up-IsSerial o
        (record { locked = false; waiters = (s.objects o).waiters; users = (s.objects o).users })
        (keep (is_other d) s.inside) s e idle (subst (Held false o) (sym rest) refl)
        (subst (λ ps. (s.objects o).users - 1 ≡ length (s.objects o).waiters + length ps) (sym rest)
          (omega (arith, busy.counted, one))))

wake_used :
    (o : ℕ) (s : Locks) (d : ℕ) (ds : List ℕ)
    → s.entry ≡ some o
    → InUse (some o) s.objects s.inside
    → (s.objects o).waiters ≡ d ∷ ds
    → IsSerial (wake_at o s (d ∷ ds))
wake_used o s d ds e (idle, busy, n) w = elim (Bool-cases (s.objects o).locked) [
  | inl g ↦ rw g (subst (λ y. InUse y s.objects s.inside) (sym e) (idle, busy, n))
  | inr g ↦
      let none_in = none_counted o (s.objects o).locked [] s.inside busy.held g refl in
      rw (g, e)
        (used-IsSerial o (record { locked = true; waiters = ds; users = (s.objects o).users }) s
          (s.inside ++ (d, o) ∷ []) idle
          (Busy-take (s.objects o) d o (s.objects o).users ds s.inside busy.held g
            (omega (arith, busy.counted, none_in, ap length w)))
          n)
]

wake_at-IsSerial :
    (o : ℕ) (s : Locks) (x : Option ℕ) (ws : List ℕ)
    → s.entry ≡ x
    → InUse x s.objects s.inside
    → (s.objects o).waiters ≡ ws
    → IsSerial (wake_at o s ws)
wake_at-IsSerial o s x [] e ok w = subst (λ y. InUse y s.objects s.inside) (sym e) ok
wake_at-IsSerial o s none (d ∷ ds) e (idle, out) w = absurd (cc (ap (λ l. l.waiters) (idle o), w))
wake_at-IsSerial o s (some i) (d ∷ ds) e (idle, busy, n) w = elim (Bool-cases (i == o)) [
  | inl f ↦
      let same : i ≡ o = ground (arith, f) in
      wake_used o s d ds (e ∙ ap some same)
        (subst (λ j. InUse (some j) s.objects s.inside) same (idle, busy, n)) w
  | inr f ↦ absurd (cc (ap (λ l. l.waiters) (idle o f), w))
]

length-drop_first :
    (d : ℕ) (ws : List ℕ) → any (λ w. w == d) ws ≡ true → suc (length (drop_first d ws)) ≡ length ws
unfolding any drop_first
length-drop_first d [] h = cc
length-drop_first d (w ∷ ws) h = ground (arith, length-drop_first d ws, h)

waits_at :
    (d o : ℕ) (s : Locks) (x : Option ℕ)
    → InUse x s.objects s.inside
    → any (λ w. w == d) (s.objects o).waiters ≡ true
    → x ≡ some o
unfolding any
waits_at d o s none (idle, out) h = absurd (cc (ap (λ l. any (λ w. w == d) l.waiters) (idle o), h))
waits_at d o s (some i) (idle, busy, n) h = elim (Bool-cases (i == o)) [
  | inl f ↦ ap some (ground (arith, f))
  | inr f ↦ absurd (cc (ap (λ l. any (λ w. w == d) l.waiters) (idle o f), h))
]

cancel-IsSerial : (d o : ℕ) (s : Locks) → IsSerial s → IsSerial (cancel d o s)
unfolding cancel
cancel-IsSerial d o s ok = elim (Bool-cases (any (λ w. w == d) (s.objects o).waiters)) [
  | inl f ↦
      let e = waits_at d o s s.entry ok f in
      let (idle, busy, n) = subst (λ y. InUse y s.objects s.inside) e ok in
      let l = s.objects o in
      rw f (
        give_up-IsSerial o
          (record { locked = l.locked; waiters = drop_first d l.waiters; users = l.users }) s.inside
          s e idle busy.held (omega (arith, busy.counted, length-drop_first d l.waiters f)))
  | inr f ↦ rw f ok
]

pub happen-IsSerial : (e : LockEvent) (s : Locks) → IsSerial s → IsSerial (happen e s)
unfolding happen arrive finish wake
happen-IsSerial (arrives d) s ok = arrive_at-IsSerial d s s.entry refl ok
happen-IsSerial (finishes d) s ok =
    finish_at-IsSerial d s s.entry (find (λ q. q.0 == d) s.inside) refl ok refl
happen-IsSerial (wakes o) s ok = wake_at-IsSerial o s s.entry (s.objects o).waiters refl ok refl
happen-IsSerial (cancelled d o) s ok = cancel-IsSerial d o s ok

pub happen_all-IsSerial :
    (es : List LockEvent) (s : Locks) → IsSerial s → IsSerial (happen_all es s)
unfolding happen_all
happen_all-IsSerial [] s ok = ok
happen_all-IsSerial (e ∷ es) s ok = happen_all-IsSerial es (happen e s) (happen-IsSerial e s ok)

one_inside :
    (s : Locks) (x : Option ℕ)
    → InUse x s.objects s.inside
    → (length s.inside ≤ 1) × (x ≡ none → s.inside ≡ [])
one_inside s none (idle, out) = (omega (arith, ap length out), λ h. out)
one_inside s (some o) (idle, busy, n) =
    (Held-one (s.objects o).locked o s.inside busy.held, λ h. absurd cc)

-- Whatever order the dispatches of one cycle arrive, run on, end and are cancelled in, there is
-- never more than one of them inside, and none when the dictionary has no entry.
pub happen_all-one_inside :
    (es : List LockEvent)
    → (length (happen_all es no_locks).inside ≤ 1)
      × ((happen_all es no_locks).entry ≡ none → (happen_all es no_locks).inside ≡ [])
happen_all-one_inside es =
    one_inside (happen_all es no_locks) (happen_all es no_locks).entry
      (happen_all-IsSerial es no_locks ((λ o. refl), refl))
