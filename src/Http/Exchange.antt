-- ===== src/Http/Exchange.antt =====
-- src/firmware/network/http.rs: an exchange ends on every path, and a refused request changes
-- nothing that lasts.
use brewster.Storage.Clear.Erased.{clear_history_persistent-ends}
use brewster.Common.{◌+◌, ◌*◌, ◌<◌}
use brewster.Common.{
  ℕ, ◌≡◌, refl, ◌∙◌, ◌⊎◌, inl, inr, Bool, true, false, not, Option, none, some, List, [], ◌∷◌,
  if◌then◌else◌, Bool-cases, is_some,
}
use brewster.Common.Bits.{same}
use brewster.Common.Float.{Float}
use brewster.Http.{
  ParsedRequest, get_status, get_history, get_sensor_scan, get_config, get_metrics,
  post_temperature, post_collection, post_history_clear, post_probe_name, post_config, bad_request,
  not_found, parse_request,
}
use brewster.Storage.Probe.Names.{set_temp_probe_name_lem}
use brewster.Http.Serve.{
  out_of_range, persist_failed, temperature_ok_json, ResponseBody, marked, ended, Device, Response,
  serve, http_exchange, answered, cleared, saved, named, in_range, refusal, bad_request_line,
}
use brewster.Shared.Bytes.{starts_with}
use brewster.Status.{Status}
use brewster.Status.Led.{http_exchange_begin, http_exchange_mark_error, http_exchange_end}
use brewster.Storage.{Flash, Storage, StorageError}
use brewster.Storage.Clear.{clear_history_persistent}
use brewster.Storage.Flags.{set_features_persistent}
use brewster.Storage.Target.{set_target_temp_c_persistent}
use brewster.Storage.Probe.{set_temp_probe_name}
use brewster.Http.Serve.{ResponseBody}

module _ (fl : Flash) (f : Float) where
  open f use {F}

  -- An answer of the class 4xx.
  abbrev pub refused : Response F → Bool
  refused r = starts_with (b'4' ∷ []) r.status_line

  -- What lasts behind the exchange is as it was.
  abbrev pub Unchanged : Device fl.Dev → Device fl.Dev → Type 0
  Unchanged d d' =
      (d'.storage ≡ d.storage)
      × (d'.telemetry ≡ d.telemetry)
      × (d'.status.collection_enabled ≡ d.status.collection_enabled)

  -- A served request: the exchange is still running, and a refusal changes nothing.
  abbrev Served : Device fl.Dev → Option (Response F × Device fl.Dev) → Type 0
  Served d o =
      (r : Response F) × (d' : Device fl.Dev) × (o ≡ some (r, d'))
      × ((refused r ≡ false) ⊎ Unchanged d d')

  saved-Served :
      (d : Device fl.Dev) (o : Option (StorageError fl.Error)) (body : ResponseBody F)
      (name : List ℕ)
      → refused (saved fl f o body name) ≡ false
  unfolding starts_with
  saved-Served d none body name = refl
  saved-Served d (some e) body name = refl

  probe-kept :
      (name : List ℕ) (s : Storage fl.Dev)
      → (refused (named fl f (set_temp_probe_name name s).0 (set_temp_probe_name name s).1) ≡ false)
        ⊎ ((set_temp_probe_name name s).1 ≡ s)
  unfolding starts_with
  probe-kept name s = elim (set_temp_probe_name_lem name s) [
    | inl kept ↦ inr kept.1
    | inr kept ↦ inl (rw (kept.0) refl)
  ]

  cleared-Served :
      (d : Device fl.Dev) (o : Option (Option (StorageError fl.Error) × Storage fl.Dev))
      → is_some o ≡ true
      → Served d (cleared fl f o d)
  unfolding starts_with
  cleared-Served d none h = absurd (cc)
  cleared-Served d (some (none, s)) h = (_, _, refl, inl refl)
  cleared-Served d (some (some e, s)) h = (_, _, refl, inl refl)

  temperature-Served :
      (b : Bool) (d : Device fl.Dev) (t : F)
      (saving : Option (StorageError fl.Error) × Storage fl.Dev) (name persist : List ℕ)
      → Served d (
          some (
            if not b then (refusal fl f bad_request_line name, d) else (
              saved fl f saving.0 (temperature_ok_json t) persist,
              record d { storage = saving.1 },
            )))
  temperature-Served true d t saving name persist = (_, _, refl, inl (saved-Served d saving.0 _ _))
  temperature-Served false d t saving name persist = (_, _, refl, inr (refl, refl, refl))

  serve-Served :
      (req : ParsedRequest F) (d : Device fl.Dev)
      → is_some (clear_history_persistent fl d.storage) ≡ true
      → Served d (serve fl f req d)
  unfolding serve starts_with
  serve-Served get_status d h = (_, _, refl, inl refl)
  serve-Served (get_history n) d h = (_, _, refl, inl refl)
  serve-Served get_sensor_scan d h = (_, _, refl, inl refl)
  serve-Served get_metrics d h = (_, _, refl, inr (refl, refl, refl))
  serve-Served get_config d h = (_, _, refl, inl refl)
  serve-Served (post_config a b) d h =
      (_, _, refl, inl (saved-Served d (set_features_persistent fl a b d.storage).0 _ _))
  serve-Served (post_temperature t) d h =
      temperature-Served (in_range fl f t) d t (set_target_temp_c_persistent fl f t d.storage)
        out_of_range persist_failed
  serve-Served (post_probe_name name) d h = elim (probe-kept name d.storage) [
    | inl e ↦ (_, _, refl, inl e)
    | inr e ↦ (_, _, refl, inr (e, refl, refl))
  ]
  serve-Served (post_collection on) d h = (_, _, refl, inl refl)
  serve-Served post_history_clear d h = cleared-Served d (clear_history_persistent fl d.storage) h
  serve-Served bad_request d h = (_, _, refl, inr (refl, refl, refl))
  serve-Served not_found d h = (_, _, refl, inr (refl, refl, refl))

  mark-collection :
      (s : Status) → (http_exchange_mark_error s).collection_enabled ≡ s.collection_enabled
  unfolding http_exchange_mark_error
  mark-collection s = elim (Bool-cases s.http_exchange_active) [
    | inl e ↦ rw e refl
    | inr e ↦ rw e refl
  ]

  marked-Unchanged : (d : Device fl.Dev) → Unchanged d (marked fl f d)
  marked-Unchanged d = (refl, refl, mark-collection d.status)

  ended-Unchanged : (d : Device fl.Dev) → Unchanged d (ended fl f d)
  unfolding http_exchange_end
  ended-Unchanged d = (refl, refl, refl)

  Unchanged-then : (a b c : Device fl.Dev) → Unchanged a b → Unchanged b c → Unchanged a c
  Unchanged-then a b c (p1, p2, p3) (q1, q2, q3) = (q1 ∙ p1, q2 ∙ p2, q3 ∙ p3)

  first_mark : (b : Bool) (d : Device fl.Dev) → Unchanged d (if not b then marked fl f d else d)
  first_mark true d = (refl, refl, refl)
  first_mark false d = marked-Unchanged d

  second_mark :
      (b : Bool) (d : Device fl.Dev) → Unchanged d (ended fl f (if b then d else marked fl f d))
  second_mark true d = ended-Unchanged d
  second_mark false d =
      Unchanged-then d (marked fl f d) (ended fl f (marked fl f d)) (marked-Unchanged d)
        (ended-Unchanged (marked fl f d))

  answered-Unchanged :
      (written : Bool) (r : Response F) (d : Device fl.Dev)
      → Unchanged d (answered fl f written (r, d)).1
  answered-Unchanged written r d =
      let ok = starts_with (b'2' ∷ b'0' ∷ b'0' ∷ []) r.status_line in
      let d1 : Device fl.Dev = if not ok then marked fl f d else d in
      Unchanged-then d d1 (ended fl f (if written then d1 else marked fl f d1)) (first_mark ok d)
        (second_mark written d1)

  abbrev begun : ℕ → ℕ → Device fl.Dev → Device fl.Dev
  begun tick_hz now_ticks d = record d { status = http_exchange_begin tick_hz now_ticks d.status }

  begin-Unchanged :
      (tick_hz now_ticks : ℕ) (d : Device fl.Dev) → Unchanged d (begun tick_hz now_ticks d)
  unfolding http_exchange_begin
  begin-Unchanged tick_hz now_ticks d = (refl, refl, refl)

  nothing_read :
      (tick_hz now_ticks : ℕ) (d : Device fl.Dev)
      → Unchanged d (ended fl f (marked fl f (begun tick_hz now_ticks d)))
  nothing_read tick_hz now_ticks d =
      let d0 = begun tick_hz now_ticks d in
      Unchanged-then d d0 (ended fl f (marked fl f d0)) (begin-Unchanged tick_hz now_ticks d)
        (second_mark false d0)

  -- The exchange is over and not marked as failed, and it had a response that is no refusal, or nothing that
  -- lasts has changed.
  abbrev pub Over : Device fl.Dev → Option (Option (Response F) × Device fl.Dev) → Type 0
  Over d o =
      (a : Option (Response F)) × (d' : Device fl.Dev) × (o ≡ some (a, d'))
      × (d'.status.http_exchange_active ≡ false)
      × (d'.status.http_exchange_error ≡ false)
      × (((r : Response F) × (a ≡ some r) × (refused r ≡ false)) ⊎ Unchanged d d')

  module _ (parse_f32 : List ℕ → Option F) (prometheus_built : Bool) where
    -- Where the ring of the history ends, with a sector behind it, below 2^32, an exchange ends on
    -- every path: with no bytes, with any request and with an answer that could or could not be
    -- written. It is then marked neither as running nor as failed, and it gave a response of another
    -- class than 4xx, or the storage, the telemetry and the collection switch are as they were.
    pub http_exchange-Over :
        (tick_hz now_ticks : ℕ) (received : Option (List ℕ)) (written : Bool) (d : Device fl.Dev)
        → d.storage.history_base_offset + 16 * d.storage.history_capacity + 4096 < 4294967296
        → Over d
            (http_exchange fl f parse_f32 prometheus_built tick_hz now_ticks received written d)
    unfolding http_exchange http_exchange_end
    http_exchange-Over tick_hz now_ticks none written d h = (
      none,
      ended fl f (marked fl f (begun tick_hz now_ticks d)),
      refl,
      refl,
      refl,
      inr (nothing_read tick_hz now_ticks d),
    )
    http_exchange-Over tick_hz now_ticks (some []) written d h = (
      none,
      ended fl f (marked fl f (begun tick_hz now_ticks d)),
      refl,
      refl,
      refl,
      inr (nothing_read tick_hz now_ticks d),
    )
    http_exchange-Over tick_hz now_ticks (some (b ∷ bs)) written d h =
        let d0 = begun tick_hz now_ticks d in
        let (r, d1, e, kept) =
          serve-Served (parse_request parse_f32 prometheus_built (b ∷ bs)) d0
            (clear_history_persistent-ends fl d.storage h) in
        let d2 = (answered fl f written (r, d1)).1 in
        (
          some r,
          d2,
          rw e refl,
          refl,
          refl,
          elim kept [
            | inl other ↦ inl (r, refl, other)
            | inr same ↦ inr (
                Unchanged-then d d0 d2 (begin-Unchanged tick_hz now_ticks d)
                  (Unchanged-then d0 d1 d2 same (answered-Unchanged written r d1)))
          ],
        )
