-- ===== src/Server/Store/Retention.antt =====
-- How old the records are that `insert` leaves.
use brewster.Common.{◌<◌, ltb→lt, ap}
use brewster.Common.{
  ℕ, ◌-◌, ◌≤◌, ◌≡◌, refl, ◌⊎◌, inl, inr, true, false, ◌&&◌, List, [], ◌∷◌, ◌++◌, arith, ltb,
  Bool-cases,
}
use brewster.Common.Float.{Float}
use brewster.Server.Packet.{Packet}
use brewster.Server.Store.{persisted, Record, Store, prune, insert, should_store, back}
use brewster.Common.{All}
use brewster.Common.{some}
use brewster.Common.{none}

-- Records in the order of their times, all of them from `lo` to `hi`.
abbrev pub InOrder : {F : Type 0} → ℕ → ℕ → List (Record F) → Type 0
InOrder lo hi [] = lo ≤ hi
InOrder lo hi (r ∷ rs) = (lo ≤ r.received_at) × InOrder r.received_at hi rs

InOrder-push :
    {F : Type 0} (lo hi now : ℕ) (pkt : Packet F) (rs : List (Record F))
    → InOrder lo hi rs
    → hi ≤ now
    → InOrder lo now (rs ++ (record { received_at = now; packet = pkt } ∷ []))
InOrder-push lo hi now pkt [] h later = (omega arith, omega arith)
InOrder-push lo hi now pkt (r ∷ rs) (h, hs) later =
    (h, InOrder-push r.received_at hi now pkt rs hs later)

-- Pruning raises the lower bound to the cutoff.
InOrder-prune :
    {F : Type 0} (lo hi cutoff : ℕ) (rs : List (Record F))
    → InOrder lo hi rs
    → cutoff ≤ hi
    → InOrder cutoff hi (prune cutoff rs)
unfolding prune
InOrder-prune lo hi cutoff [] h le = le
InOrder-prune lo hi cutoff (r ∷ rs) (h, hs) le = elim (Bool-cases (ltb r.received_at cutoff)) [
  | inl b ↦ rw b (InOrder-prune r.received_at hi cutoff rs hs le)
  | inr b ↦ rw b (ground arith, hs)
]

-- What pruning drops stands in front, and is older than the cutoff.
pub prune-Dropped :
    {F : Type 0} (cutoff : ℕ) (rs : List (Record F))
    → (old : List (Record F)) × (rs ≡ old ++ prune cutoff rs)
      × All (λ r. r.received_at < cutoff) old
unfolding prune
prune-Dropped cutoff [] = ([], refl, record {})
prune-Dropped cutoff (r ∷ rs) =
    let (old, e, h) = prune-Dropped cutoff rs in
    elim (Bool-cases (ltb r.received_at cutoff)) [
      | inl b ↦ (r ∷ old, rw b (ap (λ xs. r ∷ xs) e), (ltb→lt r.received_at cutoff b, h))
      | inr b ↦ ([], rw b refl, record {})
    ]

-- A record that is not older than the cutoff stays at the end.
prune-snoc :
    {F : Type 0} (cutoff : ℕ) (rs : List (Record F)) (r : Record F)
    → cutoff ≤ r.received_at
    → prune cutoff (rs ++ (r ∷ [])) ≡ prune cutoff rs ++ (r ∷ [])
unfolding prune
prune-snoc cutoff [] r h = let e : ltb r.received_at cutoff ≡ false = ground arith in rw e refl
prune-snoc cutoff (x ∷ rs) r h = elim (Bool-cases (ltb x.received_at cutoff)) [
  | inl b ↦ rw b (prune-snoc cutoff rs r h)
  | inr b ↦ rw b refl
]

abbrev pub record_at : {F : Type 0} → ℕ → Packet F → Record F
record_at now pkt = record { received_at = now; packet = pkt }

-- What is left of the records of `g` stands in front of the new one; the rest has gone out of the
-- retention time.
abbrev pub Pushed : {F : Type 0} → ℕ → Packet F → Store F → List (Record F) → Type 0
Pushed {F = F} now pkt g rs =
    (old kept : List (Record F)) × (g.records ≡ old ++ kept)
    × (rs ≡ kept ++ (record_at now pkt ∷ []))
    × All (λ r. r.received_at < now - g.retention) old
    × InOrder (now - g.retention) now rs

-- On a clock that does not go back, a packet is stored where it says that it collects and the
-- uptime has moved on: it becomes the last record, its line is returned, and of the earlier
-- records those that are older than the retention time are dropped from the front, so that all
-- records lie in the retention time and in the order of their times. A packet that is not stored
-- leaves the records as they were, and no line is returned.
pub insert-InOrder :
    (f : Float) (lo hi now : ℕ) (pkt : Packet f.F) (g : Store f.F)
    → InOrder lo hi g.records
    → hi ≤ now
    → (((pkt.collecting && should_store pkt (back g.records)) ≡ true)
        × Pushed now pkt g (insert f now pkt g).0.records
        × ((insert f now pkt g).1 ≡ some (persisted f now pkt)))
      ⊎ (((pkt.collecting && should_store pkt (back g.records)) ≡ false)
          × ((insert f now pkt g).0.records ≡ g.records)
          × ((insert f now pkt g).1 ≡ none))
unfolding insert
insert-InOrder f lo hi now pkt g h later =
    let cutoff = now - g.retention in
    let (old, e, gone) = prune-Dropped cutoff g.records in
    elim (Bool-cases (pkt.collecting && should_store pkt (back g.records))) [
      | inl b ↦ inl (
        b,
        simp b (
          old,
          prune cutoff g.records,
          e,
          prune-snoc cutoff g.records (record_at now pkt) (omega arith),
          gone,
          InOrder-prune lo now cutoff _ (InOrder-push lo hi now pkt g.records h later)
              (omega arith),
        ),
        simp b refl,
      )
      | inr b ↦ inr (b, simp b refl, simp b refl)
    ]
