-- ===== src/CycleLock/Rounds.antt =====
-- Rounds of dispatches that arrive, end and run on, and the queue of a lock in them.
use algo_trading_broker.Prelude.{
  ℕ, zero, suc, ◌-◌, ◌≡◌, refl, ap, ◌∙◌, false, not, ◌&&◌, Option, none, some, List, [], ◌∷◌, ◌++◌,
  keep, ◌==◌, nat_eq, arith, length, get_elem?,
}
use algo_trading_broker.Prelude.Finds.{find}
use algo_trading_broker.CycleLock.{
  Lock, Locks, nobody, enter, arrive_at, arrive, give_up, is_other, finish_at, finish, wake, happen,
  arrives,
}
use algo_trading_broker.CycleLock.Use.{IsSerial, set_object-same}
use algo_trading_broker.CycleLock.Exclusion.{happen-IsSerial}

-- Whoever is inside ends, and the first that waits runs on.
unfoldable pub finish_first : Locks → List (ℕ × ℕ) → Locks
finish_first s [] = s
finish_first s (p ∷ ps) = finish p.0 s

unfoldable pub wake_entry : Locks → Option ℕ → Locks
wake_entry s none = s
wake_entry s (some o) = wake o s

abbrev pub turn : Locks → Locks
turn s = let t = finish_first s s.inside in wake_entry t t.entry

unfoldable pub arrive_all : List ℕ → Locks → Locks
arrive_all [] s = s
arrive_all (d ∷ ds) s = arrive_all ds (arrive d s)

-- In each round some dispatches arrive, and then a turn is taken.
unfoldable pub rounds : List (List ℕ) → Locks → Locks
rounds [] s = s
rounds (ds ∷ rest) s = rounds rest (turn (arrive_all ds s))

-- The lock `o` is the one of the entry, and these wait for it.
pub record Queue (o : ℕ) (ws : List ℕ) (s : Locks) : Type 0 where
  pub serial : IsSerial s
  pub entry : s.entry ≡ some o
  pub waiters : (s.objects o).waiters ≡ ws

-- The dispatch `d` waits for that lock behind `k` others.
pub record Waits (o k d : ℕ) (s : Locks) : Type 0 where
  pub serial : IsSerial s
  pub entry : s.entry ≡ some o
  pub place : get_elem? (s.objects o).waiters k ≡ some d

enter-queues :
    (d o : ℕ) (s : Locks)
    → nobody (s.objects o).waiters ≡ false
    → ((enter d o s).entry ≡ s.entry)
      × (((enter d o s).objects o).waiters ≡ (s.objects o).waiters ++ d ∷ [])
unfolding enter
enter-queues d o s h =
    let l = s.objects o in
    let waits : (not l.locked && nobody l.waiters) ≡ false = ground (arith, h) in
    rw waits (
      refl,
      ap (λ k. k.waiters)
          (set_object-same o
            (record { locked = l.locked; waiters = l.waiters ++ d ∷ []; users = suc l.users })
            s.objects),
    )

arrive-at_entry : (d o : ℕ) (s : Locks) → s.entry ≡ some o → arrive d s ≡ enter d o s
unfolding arrive
arrive-at_entry d o s e = ap (arrive_at d s) e

get_elem?-append :
    (xs ys : List ℕ) (k d : ℕ) → get_elem? xs k ≡ some d → get_elem? (xs ++ ys) k ≡ some d
get_elem?-append [] ys k d h = cc
get_elem?-append (x ∷ xs) ys zero d h = h
get_elem?-append (x ∷ xs) ys (suc k) d h = get_elem?-append xs ys k d h

get_elem?-nonempty : (xs : List ℕ) (k d : ℕ) → get_elem? xs k ≡ some d → nobody xs ≡ false
get_elem?-nonempty [] k d h = cc
get_elem?-nonempty (x ∷ xs) k d h = refl

arrive-Waits : (n o k d : ℕ) (s : Locks) → Waits o k d s → Waits o k d (arrive n s)
unfolding happen
arrive-Waits n o k d s q =
    let (e, more) = enter-queues n o s (get_elem?-nonempty (s.objects o).waiters k d q.place) in
    let same = arrive-at_entry n o s q.entry in
    record {
      serial = happen-IsSerial (arrives n) s q.serial;
      entry = ap (λ t. t.entry) same ∙ e ∙ q.entry;
      place =
          ap (λ t. get_elem? (t.objects o).waiters k) same
          ∙ ap (λ ws. get_elem? ws k) more
          ∙ get_elem?-append (s.objects o).waiters (n ∷ []) k d q.place;
    }

pub arrive_all-Waits :
    (ns : List ℕ) (o k d : ℕ) (s : Locks) → Waits o k d s → Waits o k d (arrive_all ns s)
unfolding arrive_all
arrive_all-Waits [] o k d s q = q
arrive_all-Waits (n ∷ ns) o k d s q =
    arrive_all-Waits ns o k d (arrive n s) (arrive-Waits n o k d s q)

-- The end of the only one inside.
pub finish_only :
    (d o : ℕ) (s : Locks)
    → s.inside ≡ (d, o) ∷ []
    → finish d s
      ≡ give_up o
          (record { locked = false; waiters = (s.objects o).waiters; users = (s.objects o).users })
          []
          s
unfolding finish find keep
finish_only d o s h =
    let found : find (λ q. q.0 == d) s.inside ≡ some (d, o) =
      ap (λ ps. find (λ q. q.0 == d) ps) h ∙ ground arith in
    let left : keep (is_other d) s.inside ≡ [] = ap (keep (is_other d)) h ∙ ground arith in
    ap (finish_at d s) found
    ∙ ap
        (λ ps.
          give_up o
            (record {
              locked = false;
              waiters = (s.objects o).waiters;
              users = (s.objects o).users;
            })
            ps s)
        left

pub give_up-stays :
    (o w : ℕ) (l : Lock) (ws : List ℕ) (s : Locks)
    → l.waiters ≡ w ∷ ws
    → l.users ≡ suc (length l.waiters)
    → ((give_up o l [] s).entry ≡ s.entry) × (((give_up o l [] s).objects o).waiters ≡ w ∷ ws)
unfolding give_up
give_up-stays o w l ws s h n =
    let more : (l.users - 1 == 0) ≡ false = ground (arith, n, ap length h) in
    rw more (
      refl,
      ap (λ k. k.waiters)
            (set_object-same o
              (record { locked = l.locked; waiters = l.waiters; users = l.users - 1 }) s.objects)
          ∙ h,
    )
