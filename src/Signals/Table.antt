-- ===== src/Signals/Table.antt =====
-- The invariant of the table, and the look-ups and updates that it is about.
use mathlib.Core.Path.{subst}
use mathlib.Core.Option
use algo_trading_broker.Prelude.{
  ℕ, ◌<◌, ◌≡◌, refl, sym, ap, ◌∙◌, ◌≢◌, ◌⊎◌, inl, inr, String, false, none, some, [], ◌∷◌, ◌++◌,
  arith, is_some, Option-cases, Bool-cases, if◌then◌else◌, ◌==◌, nat_eq, option_eq, string_eq,
  option_beq_iff,
}
use algo_trading_broker.Core.{SignalStatus}
use algo_trading_broker.Signals.{Signal, Table, find_row, find_key, update_row, key_taken}

-- An assignment that leaves the identity of a row alone.
pub record Plain (f : Signal → Signal) : Type 0 where
  pub same_id : (r : Signal) → (f r).id ≡ r.id
  pub same_key : (r : Signal) → (f r).delivery_key ≡ r.delivery_key

pub find_row-id : (i : ℕ) (rows : Table) (r : Signal) → find_row i rows ≡ some r → r.id ≡ i
unfolding find_row
find_row-id i [] r h = cc
find_row-id i (s ∷ rows) r h = ground (arith, find_row-id i rows r)

pub find_row-update :
    (i j : ℕ) (f : Signal → Signal)
    → Plain f
    → (rows : Table)
    → find_row j (update_row i f rows)
      ≡ (if i == j then Option.map f (find_row j rows) else find_row j rows)
unfolding find_row update_row
find_row-update i j f p [] = ground arith
find_row-update i j f p (r ∷ rows) = ground (arith, find_row-update i j f p rows, p.same_id r)

pub find_row-append_one :
    (j : ℕ) (rows : Table) (r : Signal)
    → find_row j (rows ++ r ∷ [])
      ≡ (if is_some (find_row j rows) then find_row j rows else if r.id == j then some r else none)
unfolding find_row
find_row-append_one j [] r = ground arith
find_row-append_one j (s ∷ rows) r = ground (arith, find_row-append_one j rows r)

pub find_key-none :
    (k : String) (rows : Table) (i : ℕ) (r : Signal)
    → find_key k rows ≡ none
    → find_row i rows ≡ some r
    → r.delivery_key ≢ some k
unfolding find_key find_row
find_key-none k [] i r h e = cc
find_key-none k (s ∷ rows) i r h e =
    ground (arith, find_key-none k rows i r, option_beq_iff s.delivery_key (some k))

-- No id stands on two rows.
abbrev pub Distinct : Table → Type 0
Distinct [] = Unit
Distinct (r ∷ rows) = (find_row r.id rows ≡ none) × Distinct rows

Distinct-update :
    (i : ℕ) (f : Signal → Signal)
    → Plain f
    → (rows : Table) → Distinct rows
    → Distinct (update_row i f rows)
unfolding update_row
Distinct-update i f p [] d = tt
Distinct-update i f p (r ∷ rows) d = elim (Bool-cases (r.id == i)) [
  | inl e ↦ rw (e, p.same_id r) d
  | inr e ↦
      rw e (ground (arith, find_row-update i r.id f p rows, d.0), Distinct-update i f p rows d.1)
]

pub find_row-cons :
    (s : Signal) (rows : Table) (i : ℕ)
    → find_row i (s ∷ rows) ≡ none
    → ((s.id == i) ≡ false) × (find_row i rows ≡ none)
unfolding find_row
find_row-cons s rows i h = ground arith

Distinct-append_one :
    (rows : Table) (r : Signal)
    → find_row r.id rows ≡ none
    → Distinct rows
    → Distinct (rows ++ r ∷ [])
Distinct-append_one [] r n d = (unfold find_row in refl, tt)
Distinct-append_one (s ∷ rows) r n d = (
  ground (arith, find_row-append_one s.id rows r, find_row-cons s rows r.id n, d.0),
  Distinct-append_one rows r (find_row-cons s rows r.id n).1 d.1,
)

pub find_key-some :
    (k : String) (rows : Table) (r : Signal)
    → Distinct rows
    → find_key k rows ≡ some r
    → (find_row r.id rows ≡ some r) × (r.delivery_key ≡ some k)
unfolding find_key find_row
find_key-some k [] r d h = cc
find_key-some k (s ∷ rows) r d h = ground (
  arith,
  find_key-some k rows r d.1,
  d.0,
  find_row-id s.id rows r,
  option_beq_iff s.delivery_key (some k),
)

-- What holds of every row: a failed one has no attempt left, a queued one has.
pub record IsCoherent (r : Signal) : Type 0 where
  pub failed_spent : r.status ≡ SignalStatus.failed → r.attempts ≡ 0
  pub failed_stamped : r.status ≡ SignalStatus.failed → r.last_attempt ≢ none
  pub queued_left : r.status ≡ SignalStatus.queued → 0 < r.attempts

-- The invariant of the table: ids and delivery keys name one row each, and the rows are coherent.
pub record IsTable (rows : Table) : Type 0 where
  pub distinct : Distinct rows
  pub keys :
      (i j : ℕ) (r s : Signal) (k : String)
      → find_row i rows ≡ some r
      → find_row j rows ≡ some s
      → r.delivery_key ≡ some k
      → s.delivery_key ≡ some k
      → i ≡ j
  pub coherent : (i : ℕ) (r : Signal) → find_row i rows ≡ some r → IsCoherent r

-- The row that an update leaves at `j` came from a row there, by `f` or unchanged.
pub find_row-update_inv :
    (i j : ℕ) (f : Signal → Signal)
    → Plain f
    → (rows : Table) (r : Signal) → find_row j (update_row i f rows) ≡ some r
    → (s : Signal) × (find_row j rows ≡ some s) × ((r ≡ s) ⊎ ((i ≡ j) × (r ≡ f s)))
find_row-update_inv i j f p rows r h = elim (Option-cases (find_row j rows)) [
  | inl e ↦ ground (arith, find_row-update i j f p rows)
  | inr (s, e) ↦ (s, e, ground (arith, find_row-update i j f p rows))
]

updated_key :
    (i j : ℕ) (f : Signal → Signal) (r s : Signal)
    → Plain f
    → (r ≡ s) ⊎ ((i ≡ j) × (r ≡ f s))
    → s.delivery_key ≡ r.delivery_key
updated_key i j f r s p (inl e) = cc
updated_key i j f r s p (inr (h, e)) = cc (p.same_key s)

pub IsTable-update :
    (i : ℕ) (f : Signal → Signal)
    → Plain f
    → ((r : Signal) → IsCoherent r → IsCoherent (f r))
    → (rows : Table) → IsTable rows
    → IsTable (update_row i f rows)
IsTable-update i f p keep_row rows t = record {
  distinct = Distinct-update i f p rows t.distinct;
  keys = λ a b r s k ha hb ka kb.
      let (r', fr, er) = find_row-update_inv i a f p rows r ha in
      let (s', fs, es) = find_row-update_inv i b f p rows s hb in
      t.keys a b r' s' k fr fs (updated_key i a f r r' p er ∙ ka)
        (updated_key i b f s s' p es ∙ kb);
  coherent = λ a r ha.
      let (r', fr, er) = find_row-update_inv i a f p rows r ha in
      elim er [
        | inl e ↦ subst IsCoherent (sym e) (t.coherent a r' fr)
        | inr (h, e) ↦ subst IsCoherent (sym e) (keep_row r' (t.coherent a r' fr))
      ];
}

key_taken-none :
    (k : String) (rows : Table) → key_taken (some k) rows ≡ false → find_key k rows ≡ none
key_taken-none k rows h = ground arith

-- The row at `j` after an insert is an old one, or the new one.
pub find_row-append_inv :
    (j : ℕ) (rows : Table) (new r : Signal)
    → find_row j (rows ++ new ∷ []) ≡ some r
    → (find_row j rows ≡ some r) ⊎ ((new.id ≡ j) × (r ≡ new))
find_row-append_inv j rows new r h = ground (arith, find_row-append_one j rows new)

clash :
    (k : String) (rows : Table) (new r : Signal) (i : ℕ)
    → key_taken new.delivery_key rows ≡ false
    → find_row i rows ≡ some r
    → r.delivery_key ≡ some k
    → new.delivery_key ≢ some k
clash k rows new r i free h e n =
    find_key-none k rows i r (key_taken-none k rows (ap (λ o. key_taken o rows) (sym n) ∙ free)) h e

pub IsTable-append_one :
    (rows : Table) (new : Signal)
    → find_row new.id rows ≡ none
    → key_taken new.delivery_key rows ≡ false
    → IsCoherent new
    → IsTable rows
    → IsTable (rows ++ new ∷ [])
IsTable-append_one rows new fresh free ok t = record {
  distinct = Distinct-append_one rows new fresh t.distinct;
  keys = λ a b r s k ha hb ka kb. elim (find_row-append_inv a rows new r ha) [
    | inl fr ↦ elim (find_row-append_inv b rows new s hb) [
      | inl fs ↦ t.keys a b r s k fr fs ka kb
      | inr (h, e) ↦
          absurd (clash k rows new r a free fr ka (ap (λ x. x.delivery_key) (sym e) ∙ kb))
    ]
    | inr (g, d) ↦ elim (find_row-append_inv b rows new s hb) [
      | inl fs ↦ absurd (clash k rows new s b free fs kb (ap (λ x. x.delivery_key) (sym d) ∙ ka))
      | inr (h, e) ↦ sym g ∙ h
    ]
  ];
  coherent = λ a r ha. elim (find_row-append_inv a rows new r ha) [
    | inl fr ↦ t.coherent a r fr
    | inr (g, d) ↦ subst IsCoherent (sym d) ok
  ];
}
