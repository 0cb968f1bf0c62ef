-- ===== src/Server/Store/Restored.antt =====
-- What `restore` and `current_records` make of the lines of the file.
use brewster.Common.{
  ℕ, ◌-◌, ◌*◌, ◌/◌, ◌≡◌, refl, inl, inr, true, false, Option, none, some, List, [], ◌∷◌, map, arith,
  ltb, if◌then◌else◌, Bool-cases, All,
}
use brewster.Common.Float.{Float}
use brewster.Server.Store.{
  Store, PersistedRecord, ns_per_s, persisted, packet_of, restored, restore, current_records,
  nan_to_null, or_nan,
}

module _ (f : Float) where
  open f use {F}

  -- A temperature of a line is a number, or absent.
  abbrev pub IsReading : Option F → Type 0
  IsReading none = Unit
  IsReading (some v) = f.is_nan v ≡ false

  abbrev pub IsLine : PersistedRecord F → Type 0
  IsLine r = IsReading r.temp0 × IsReading r.temp1 × IsReading r.temp2

  -- The lines whose time is not before the cutoff.
  abbrev pub in_retention : ℕ → List (PersistedRecord F) → List (PersistedRecord F)
  in_retention cutoff [] = []
  in_retention cutoff (r ∷ rs) =
      let rest = in_retention cutoff rs in if ltb (r.t * ns_per_s) cutoff then rest else r ∷ rest

  nan_to_null-or_nan :
      f.is_nan f.nan ≡ true → (t : Option F) → IsReading t → nan_to_null f (or_nan f t) ≡ t
  nan_to_null-or_nan nan_lem none h = rw nan_lem refl
  nan_to_null-or_nan nan_lem (some v) h = rw h refl

  persisted-packet_of :
      f.is_nan f.nan ≡ true
      → (r : PersistedRecord F) → IsLine r
      → persisted f (r.t * ns_per_s) (packet_of f r) ≡ r
  persisted-packet_of nan_lem r (h0, h1, h2) =
      let seconds : r.t * ns_per_s / ns_per_s ≡ r.t = omega arith in
      rw
        (
          seconds,
          nan_to_null-or_nan nan_lem r.temp0 h0,
          nan_to_null-or_nan nan_lem r.temp1 h1,
          nan_to_null-or_nan nan_lem r.temp2 h2,
        )
        refl

  restored-in_retention :
      f.is_nan f.nan ≡ true
      → (cutoff : ℕ) (rs : List (PersistedRecord F)) → All IsLine rs
      → map (λ r. persisted f r.received_at r.packet) (restored f cutoff rs)
        ≡ in_retention cutoff rs
  unfolding restored
  restored-in_retention nan_lem cutoff [] h = refl
  restored-in_retention nan_lem cutoff (r ∷ rs) (hr, h) =
      elim (Bool-cases (ltb (r.t * ns_per_s) cutoff)) [
        | inl e ↦ rw e (restored-in_retention nan_lem cutoff rs h)
        | inr e ↦
            rw (e, persisted-packet_of nan_lem r hr, restored-in_retention nan_lem cutoff rs h) refl
      ]

-- Into an empty store, the lines of the file that are in retention are loaded, in order, and
-- `current_records` writes them back unchanged: loading a file and compacting it drops the
-- outdated lines only. Of the floats, NaN is a NaN, and the temperatures of the lines are not.
pub current_records-restore :
    (f : Float) (now : ℕ) (rs : List (PersistedRecord f.F)) (g : Store f.F)
    → f.is_nan f.nan ≡ true
    → All (IsLine f) rs
    → g.records ≡ []
    → current_records f (restore f now rs g).0 ≡ in_retention f (now - g.retention) rs
unfolding current_records restore
current_records-restore f now rs g nan_lem h empty =
    rw empty (restored-in_retention f nan_lem (now - g.retention) rs h)
