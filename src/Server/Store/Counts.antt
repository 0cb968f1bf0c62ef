-- ===== src/Server/Store/Counts.antt =====
-- What `insert` counts.
use brewster.Common.{
  ℕ, ◌+◌, ◌-◌, ◌%◌, ◌≤◌, ◌<◌, ◌≡◌, refl, ap, ◌∙◌, inl, inr, ◌&&◌, some, List, [], ◌∷◌, arith,
  Bool-cases,
}
use brewster.Common.Words.{IsU32}
use brewster.Common.Float.{Float}
use brewster.Server.Packet.{Packet}
use brewster.Server.Store.{Store, insert, gap_after, u64_modulus}
use brewster.Server.Store.{should_store}
use brewster.Server.Store.{back}

-- Packets that are inserted one after another, each at its time.
pub insert_all : (f : Float) → List (ℕ × Packet f.F) → Store f.F → Store f.F
insert_all f [] g = g
insert_all f ((now, pkt) ∷ pkts) g = insert_all f pkts (insert f now pkt g).0

-- Sequence numbers that go up from `l`, by less than half of their range each.
abbrev pub Climbs : {F : Type 0} → ℕ → List (ℕ × Packet F) → Type 0
Climbs l [] = Unit
Climbs l ((now, pkt) ∷ pkts) =
    (l < pkt.seq) × (pkt.seq ≤ l + 0x80000000) × IsU32 pkt.seq × Climbs pkt.seq pkts

abbrev pub last_of : {F : Type 0} → ℕ → List (ℕ × Packet F) → ℕ
last_of l [] = l
last_of l ((now, pkt) ∷ pkts) = last_of pkt.seq pkts

-- The counters do not look at the records.
insert-counts :
    (f : Float) (now : ℕ) (pkt : Packet f.F) (g : Store f.F)
    → ((insert f now pkt g).0.packets_received ≡ (g.packets_received + 1) % u64_modulus)
      × ((insert f now pkt g).0.packets_dropped
          ≡ (g.packets_dropped + gap_after g.last_seq pkt.seq) % u64_modulus)
      × ((insert f now pkt g).0.last_seq ≡ some pkt.seq)
unfolding insert
insert-counts f now pkt g =
    elim (Bool-cases (pkt.collecting && should_store pkt (back g.records))) [
      | inl e ↦ simp e (refl, refl, refl)
      | inr e ↦ simp e (refl, refl, refl)
    ]

gap_after_lem :
    (l seq : ℕ) → l < seq → seq ≤ l + 0x80000000 → IsU32 seq → gap_after (some l) seq ≡ seq - l - 1
gap_after_lem l seq lo hi small = ground arith

-- Over packets whose numbers go up, none is left uncounted: the packets received and the packets
-- taken for dropped together are as many as the numbers passed, whichever numbers are missing,
-- as long as the counters have room for them.
pub insert_all-counts :
    (f : Float) (pkts : List (ℕ × Packet f.F)) (l : ℕ) (g : Store f.F)
    → g.last_seq ≡ some l
    → Climbs l pkts
    → IsU32 l
    → g.packets_received + g.packets_dropped + 4294967296 ≤ u64_modulus + l
    → ((insert_all f pkts g).packets_received + (insert_all f pkts g).packets_dropped + l
        ≡ g.packets_received + g.packets_dropped + last_of l pkts)
      × ((insert_all f pkts g).last_seq ≡ some (last_of l pkts))
unfolding insert_all
insert_all-counts f [] l g e h small room = (refl, e)
insert_all-counts f ((now, pkt) ∷ pkts) l g e (lo, hi, u32, h) small room =
    let (received, dropped, last) = insert-counts f now pkt g in
    let gap = ap (λ o. gap_after o pkt.seq) e ∙ gap_after_lem l pkt.seq lo hi u32 in
    let (total, final) =
      insert_all-counts f pkts pkt.seq (insert f now pkt g).0 last h u32 (omega arith) in
    (omega arith, final)
