-- ===== src/CycleLock.antt =====
-- broker/services/broadcast_service.py, `_CycleLock` and `BroadcastDispatcher.dispatch`: the entry of
-- one cycle in the dictionary of locks, the lock objects that dispatches hold on to, and who is
-- inside `_dispatch_locked`. A dispatch is a number. Each event is what one task does between two
-- awaits, so that the events of different tasks come in any order. As `asyncio.Lock` has it, a
-- lock is taken at once only when nobody waits for it, a release leaves it unlocked, and the first
-- that waits takes it when its task runs.
pub mod Use
pub mod Exclusion
pub mod Rounds
pub mod Fairness
pub mod Draining
use algo_trading_broker.Prelude.{
  ℕ, suc, ◌+◌, ◌-◌, Bool, true, false, not, ◌&&◌, ◌||◌, Option, none, some, List, [], ◌∷◌, ◌++◌,
  if◌then◌else◌, keep, ◌==◌, nat_eq,
}
use algo_trading_broker.Prelude.Finds.{any, find}

pub record Lock : Type 0 where
  pub locked : Bool
  pub waiters : List ℕ
  pub users : ℕ

abbrev pub new_lock : Lock
new_lock = record { locked = false; waiters = []; users = 0 }

-- The objects by their number, of which `made` is the next one.
pub record Locks : Type 0 where
  pub entry : Option ℕ
  pub objects : ℕ → Lock
  pub made : ℕ
  pub inside : List (ℕ × ℕ)

abbrev pub no_locks : Locks
no_locks = record { entry = none; objects = λ o. new_lock; made = 0; inside = [] }

unfoldable pub set_object : ℕ → Lock → (ℕ → Lock) → ℕ → Lock
set_object o l objects i = if o == i then l else objects i

abbrev pub nobody : List ℕ → Bool
nobody [] = true
nobody (d ∷ ds) = false

-- `entry.users += 1`, then the first part of `async with entry.lock`.
unfoldable pub enter : ℕ → ℕ → Locks → Locks
enter d o s =
    let l = s.objects o in
    if not l.locked && nobody l.waiters
    then record {
      entry = s.entry;
      objects =
          set_object o (record { locked = true; waiters = []; users = suc l.users }) s.objects;
      made = s.made;
      inside = s.inside ++ (d, o) ∷ [];
    }
    else record {
      entry = s.entry;
      objects =
          set_object o
            (record { locked = l.locked; waiters = l.waiters ++ d ∷ []; users = suc l.users })
            s.objects;
      made = s.made;
      inside = s.inside;
    }

-- `self._locks[key] = _CycleLock()`.
abbrev pub make_entry : Locks → Locks
make_entry s = record {
  entry = some s.made;
  objects = set_object s.made new_lock s.objects;
  made = suc s.made;
  inside = s.inside;
}

abbrev pub arrive_at : ℕ → Locks → Option ℕ → Locks
arrive_at d s none = enter d s.made (make_entry s)
arrive_at d s (some o) = enter d o s

unfoldable pub arrive : ℕ → Locks → Locks
arrive d s = arrive_at d s s.entry

-- The `finally` block, after the lock became `l`.
unfoldable pub give_up : ℕ → Lock → List (ℕ × ℕ) → Locks → Locks
give_up o l inside s = record {
  entry = if l.users - 1 == 0 then none else s.entry;
  objects =
      set_object o (record { locked = l.locked; waiters = l.waiters; users = l.users - 1 })
        s.objects;
  made = s.made;
  inside = inside;
}

abbrev pub is_other : ℕ → ℕ × ℕ → Bool
is_other d p = not (p.0 == d)

abbrev pub finish_at : ℕ → Locks → Option (ℕ × ℕ) → Locks
finish_at d s none = s
finish_at d s (some p) =
    let l = s.objects p.1 in
    give_up p.1 (record { locked = false; waiters = l.waiters; users = l.users })
      (keep (is_other d) s.inside) s

-- The end of `_dispatch_locked`, by return or by exception.
unfoldable pub finish : ℕ → Locks → Locks
finish d s = finish_at d s (find (λ p. p.0 == d) s.inside)

-- The task of the first that waits runs on, if the lock is free.
abbrev pub wake_at : ℕ → Locks → List ℕ → Locks
wake_at o s [] = s
wake_at o s (d ∷ ds) = if (s.objects o).locked then s else record {
  entry = s.entry;
  objects =
      set_object o (record { locked = true; waiters = ds; users = (s.objects o).users }) s.objects;
  made = s.made;
  inside = s.inside ++ (d, o) ∷ [];
}

unfoldable pub wake : ℕ → Locks → Locks
wake o s = wake_at o s (s.objects o).waiters

unfoldable pub drop_first : ℕ → List ℕ → List ℕ
drop_first d [] = []
drop_first d (w ∷ ws) = let rest = drop_first d ws in if w == d then ws else w ∷ rest

-- A task that waits for the lock is cancelled.
unfoldable pub cancel : ℕ → ℕ → Locks → Locks
cancel d o s =
    let l = s.objects o in
    if any (λ w. w == d) l.waiters
    then give_up o (record { locked = l.locked; waiters = drop_first d l.waiters; users = l.users })
        s.inside s
    else s

pub data LockEvent : Type 0 where
  arrives finishes : ℕ → LockEvent
  wakes : ℕ → LockEvent
  cancelled : ℕ → ℕ → LockEvent

unfoldable pub happen : LockEvent → Locks → Locks
happen (arrives d) s = arrive d s
happen (finishes d) s = finish d s
happen (wakes o) s = wake o s
happen (cancelled d o) s = cancel d o s

unfoldable pub happen_all : List LockEvent → Locks → Locks
happen_all [] s = s
happen_all (e ∷ es) s = happen_all es (happen e s)
