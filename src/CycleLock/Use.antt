-- ===== src/CycleLock/Use.antt =====
-- The one lock in use: that of the entry, held exactly by the one that is inside.
use mathlib.Core.Path.{subst}
use algo_trading_broker.Prelude.{
  ℕ, suc, ◌+◌, ◌-◌, ◌≤◌, ◌<◌, ◌≡◌, inl, inr, refl, sym, ap, ◌∙◌, Bool, true, false, not, ◌&&◌,
  Option, none, some, List, [], ◌∷◌, ◌++◌, ◌==◌, nat_eq, arith, length, length-append, Bool-cases,
  beq_refl,
}
use algo_trading_broker.CycleLock.{
  Lock, new_lock, Locks, set_object, nobody, enter, make_entry, arrive_at, give_up,
}

-- The lock is held exactly by the one that is inside.
abbrev pub Held : Bool → ℕ → List (ℕ × ℕ) → Type 0
Held locked o [] = locked ≡ false
Held locked o (p ∷ []) = (locked ≡ true) × (p.1 ≡ o)
Held locked o (p ∷ q ∷ ps) = false ≡ true

pub record Busy (l : Lock) (o : ℕ) (inside : List (ℕ × ℕ)) : Type 0 where
  pub counted : l.users ≡ length l.waiters + length inside
  pub held : Held l.locked o inside

-- The lock of the entry is the only one in use, and it is in use.
abbrev pub InUse : Option ℕ → (ℕ → Lock) → List (ℕ × ℕ) → Type 0
InUse none objects inside = ((o : ℕ) → objects o ≡ new_lock) × (inside ≡ [])
InUse (some o) objects inside =
    ((i : ℕ) → (o == i) ≡ false → objects i ≡ new_lock)
    × Busy (objects o) o inside
    × (0 < (objects o).users)

abbrev pub IsSerial : Locks → Type 0
IsSerial s = InUse s.entry s.objects s.inside

pub Held-one : (b : Bool) (o : ℕ) (inside : List (ℕ × ℕ)) → Held b o inside → length inside ≤ 1
Held-one b o [] h = omega arith
Held-one b o (p ∷ []) h = omega arith
Held-one b o (p ∷ q ∷ ps) h = cc

pub set_object-same : (o : ℕ) (l : Lock) (objects : ℕ → Lock) → set_object o l objects o ≡ l
unfolding set_object
set_object-same o l objects = rw (beq_refl o) refl

set_object-idle :
    (o : ℕ) (l : Lock) (objects : ℕ → Lock)
    → ((i : ℕ) → (o == i) ≡ false → objects i ≡ new_lock)
    → (i : ℕ) → (o == i) ≡ false
    → set_object o l objects i ≡ new_lock
unfolding set_object
set_object-idle o l objects h i n = rw n (h i n)

-- What becomes of the lock in use makes the state.
pub used-IsSerial :
    (o : ℕ) (l : Lock) (s : Locks) (inside : List (ℕ × ℕ))
    → ((i : ℕ) → (o == i) ≡ false → s.objects i ≡ new_lock)
    → Busy l o inside
    → 0 < l.users
    → InUse (some o) (set_object o l s.objects) inside
used-IsSerial o l s inside h b n = (
  set_object-idle o l s.objects h,
  subst (λ k. Busy k o inside) (sym (set_object-same o l s.objects)) b,
  subst (λ k. 0 < k.users) (sym (set_object-same o l s.objects)) n,
)

pub Busy-take :
    (l : Lock) (d o users : ℕ) (ws : List ℕ) (inside : List (ℕ × ℕ))
    → Held l.locked o inside
    → l.locked ≡ false
    → users ≡ suc (length ws)
    → Busy (record { locked = true; waiters = ws; users = users }) o (inside ++ (d, o) ∷ [])
Busy-take l d o users ws [] h f n = record { counted = omega (arith, n); held = (refl, refl) }
Busy-take l d o users ws (p ∷ []) h f n = cc
Busy-take l d o users ws (p ∷ q ∷ ps) h f n = cc

pub none_counted :
    (o : ℕ) (b : Bool) (ws : List ℕ) (inside : List (ℕ × ℕ))
    → Held b o inside
    → b ≡ false
    → nobody ws ≡ true
    → length ws + length inside ≡ 0
none_counted o b [] [] h f e = refl
none_counted o b [] (p ∷ []) h f e = cc
none_counted o b [] (p ∷ q ∷ ps) h f e = cc
none_counted o b (w ∷ ws) inside h f e = cc

enter-IsSerial :
    (d o : ℕ) (s : Locks)
    → s.entry ≡ some o
    → ((i : ℕ) → (o == i) ≡ false → s.objects i ≡ new_lock)
    → Busy (s.objects o) o s.inside
    → IsSerial (enter d o s)
unfolding enter
enter-IsSerial d o s e h b =
    let l = s.objects o in
    elim (Bool-cases (not l.locked && nobody l.waiters)) [
      | inl f ↦
          rw (f, e)
            (used-IsSerial o (record { locked = true; waiters = []; users = suc l.users }) s
              (s.inside ++ (d, o) ∷ []) h
              (Busy-take l d o (suc l.users) [] s.inside b.held (ground (arith, f)) (
                ap suc (
                  b.counted
                  ∙ none_counted o l.locked l.waiters s.inside b.held (ground (arith, f))
                      (ground (arith, f)))))
              (omega arith))
      | inr f ↦
          rw (f, e)
            (used-IsSerial o
              (record { locked = l.locked; waiters = l.waiters ++ d ∷ []; users = suc l.users }) s
              s.inside h
              (record {
                counted = omega (arith, b.counted, length-append l.waiters (d ∷ []));
                held = b.held;
              })
              (omega arith))
    ]

all_idle :
    (o : ℕ) (l : Lock) (objects : ℕ → Lock)
    → l ≡ new_lock
    → ((i : ℕ) → (o == i) ≡ false → objects i ≡ new_lock)
    → (i : ℕ) → set_object o l objects i ≡ new_lock
unfolding set_object
all_idle o l objects f h i = elim (Bool-cases (o == i)) [ inl e ↦ rw e f | inr e ↦ rw e (h i e) ]

-- Nobody uses the lock.
unused :
    (o : ℕ) (b : Bool) (ws : List ℕ) (inside : List (ℕ × ℕ))
    → Held b o inside
    → 0 ≡ length ws + length inside
    → (record { locked = b; waiters = ws; users = 0 } ≡ new_lock) × (inside ≡ [])
unused o b [] [] h n = (cc, refl)
unused o b [] (p ∷ ps) h n = absurd (omega arith)
unused o b (w ∷ ws) inside h n = absurd (omega arith)

pub give_up-IsSerial :
    (o : ℕ) (l : Lock) (inside : List (ℕ × ℕ)) (s : Locks)
    → s.entry ≡ some o
    → ((i : ℕ) → (o == i) ≡ false → s.objects i ≡ new_lock)
    → Held l.locked o inside
    → l.users - 1 ≡ length l.waiters + length inside
    → IsSerial (give_up o l inside s)
unfolding give_up
give_up-IsSerial o l inside s e h b n =
    let after : Lock = record { locked = l.locked; waiters = l.waiters; users = l.users - 1 } in
    elim (Bool-cases (l.users - 1 == 0)) [
      | inl f ↦
          let zero_users : l.users - 1 ≡ 0 = ground (arith, f) in
          let (free, out) = unused o l.locked l.waiters inside b (sym zero_users ∙ n) in
          let same : after ≡ new_lock =
            ap (λ k. record { locked = l.locked; waiters = l.waiters; users = k }) zero_users
            ∙ free in
          rw f (all_idle o after s.objects same h, out)
      | inr f ↦
          rw (f, e)
            (used-IsSerial o after s inside h (record { counted = n; held = b })
              (ground (arith, f)))
    ]

pub arrive_at-IsSerial :
    (d : ℕ) (s : Locks) (x : Option ℕ)
    → s.entry ≡ x
    → InUse x s.objects s.inside
    → IsSerial (arrive_at d s x)
arrive_at-IsSerial d s none e (idle, out) =
    let t = make_entry s in
    let fresh : t.objects s.made ≡ new_lock = set_object-same s.made new_lock s.objects in
    enter-IsSerial d s.made t refl (set_object-idle s.made new_lock s.objects (λ i n. idle i)) (
      subst (λ l. Busy l s.made s.inside) (sym fresh)
        (subst (λ ps. Busy new_lock s.made ps) (sym out) (record { counted = refl; held = refl })))
arrive_at-IsSerial d s (some o) e (idle, busy, n) = enter-IsSerial d o s e idle busy
