-- ===== src/Telemetry/Sending.antt =====
-- The one-shot notice that the history was cleared.
use brewster.Telemetry.Received.{build_packet-notice}
use brewster.Server.Packet.{has_bit}
use brewster.Common.{get_or}
use mathlib.Core.Path.{subst}
use brewster.Common.{
  zero, suc, ◌+◌, ◌%◌, ◌≤◌, sym, ap, ◌∙◌, Option, [], ◌∷◌, replicate, length, arith,
}
use brewster.Common.{
  ℕ, ◌≡◌, refl, ◌⊎◌, inl, inr, Bool, false, none, some, List, Bool-cases, Option-cases,
}
use brewster.Common.Words.{wrapping_add32}
use brewster.Common.Float.{Float}
use brewster.Config.{Config}
use brewster.Storage.{Flash, Storage}
use brewster.Status.{Status}
use brewster.Telemetry.{Telemetry, server_addr, build_packet, telemetry_round}

-- What a round of the task meets: the clock, the socket and the storage.
pub record Round (Dev : Type 0) : Type 0 where
  pub now_ticks : ℕ
  pub send_to : List ℕ → List ℕ × ℕ → Bool
  pub storage : Storage Dev

-- The flags of `n` packets of which only the first may have the notice.
abbrev pub first_only : Bool → ℕ → List Bool
first_only b zero = []
first_only b (suc n) = b ∷ replicate n false

module _ (fl : Flash) (f : Float) (c : Config f) (tick_hz : ℕ) where
  abbrev pub after_round : Round fl.Dev → Telemetry × Status → Telemetry × Status
  after_round r k = telemetry_round fl f c tick_hz r.now_ticks r.send_to r.storage k

  -- The rounds one after the other.
  pub rounds : List (Round fl.Dev) → Telemetry × Status → Telemetry × Status
  rounds [] k = k
  rounds (r ∷ rs) k = rounds rs (after_round r k)

  abbrev pub put_flag : {A : Type 0} → Option A → Bool → List Bool → List Bool
  put_flag none b bs = bs
  put_flag (some addr) b bs = b ∷ bs

  -- Bit 3 of the flags byte of the packets that the rounds build: history-clear.
  pub notices : List (Round fl.Dev) → Telemetry × Status → List Bool
  notices [] (t, s) = []
  notices (r ∷ rs) (t, s) =
      put_flag (server_addr c tick_hz r.now_ticks t)
        (has_bit (get_or (build_packet fl f c tick_hz r.now_ticks s r.storage t).0 42 0) 8)
        (notices rs (after_round r (t, s)))

  round-cases :
      (r : Round fl.Dev) (t : Telemetry) (s : Status)
      → let t' = (after_round r (t, s)).0 in
        ((server_addr c tick_hz r.now_ticks t ≡ none) × (after_round r (t, s) ≡ (t, s)))
        ⊎ ((addr : List ℕ × ℕ) × (server_addr c tick_hz r.now_ticks t ≡ some addr)
            × (t'.history_clear_pending ≡ false)
            × (t'.udp_seq ≡ wrapping_add32 t.udp_seq 1)
            × ((t'.telemetry_sent + t'.telemetry_failed) % 4294967296
                ≡ (t.telemetry_sent + t.telemetry_failed + 1) % 4294967296))
  unfolding telemetry_round build_packet
  round-cases r t s = elim (Option-cases (server_addr c tick_hz r.now_ticks t)) [
    | inl e ↦ simp (e, telemetry_round) (inl (refl, refl))
    | inr (addr, e) ↦
        elim (Bool-cases
          (r.send_to (build_packet fl f c tick_hz r.now_ticks s r.storage t).0 addr)) [
            | inl p ↦
                simp (e, p, telemetry_round, build_packet)
                  (inr (addr, refl, refl, refl, omega arith))
            | inr p ↦
                simp (e, p, telemetry_round, build_packet)
                  (inr (addr, refl, refl, refl, omega arith))
          ]
  ]

  -- No round builds a packet, or one does and the others follow it.
  abbrev Summary : List Bool → Telemetry × Status → Telemetry × Status → Type 0
  Summary flags k k' =
      (flags ≡ first_only k.0.history_clear_pending (length flags))
      × (k'.0.udp_seq % 4294967296 ≡ (k.0.udp_seq + length flags) % 4294967296)
      × ((k'.0.telemetry_sent + k'.0.telemetry_failed) % 4294967296
          ≡ (k.0.telemetry_sent + k.0.telemetry_failed + length flags) % 4294967296)
      × (((length flags ≡ 0) × (k' ≡ k))
          ⊎ ((1 ≤ length flags) × (k'.0.history_clear_pending ≡ false)))

  first_only-none : (n : ℕ) → first_only false n ≡ replicate n false
  first_only-none zero = refl
  first_only-none (suc n) = refl

  Summary-sent :
      (flags : List Bool) (b : Bool) (k k1 k' : Telemetry × Status)
      → k.0.history_clear_pending ≡ b
      → k1.0.history_clear_pending ≡ false
      → k1.0.udp_seq ≡ wrapping_add32 k.0.udp_seq 1
      → (k1.0.telemetry_sent + k1.0.telemetry_failed) % 4294967296
        ≡ (k.0.telemetry_sent + k.0.telemetry_failed + 1) % 4294967296
      → Summary flags k1 k'
      → Summary (b ∷ flags) k k'
  Summary-sent flags b k k1 k' eb off seq count (h1, h2, h3, h4) = (
    ap (λ bs. b ∷ bs)
          (h1 ∙ ap (λ p. first_only p (length flags)) off ∙ first_only-none (length flags))
        ∙ ap (λ p. p ∷ replicate (length flags) false) (sym eb),
    omega (arith, h2, seq),
    omega (arith, h3, count),
    inr (
      omega arith,
      elim h4 [ inl (z, e) ↦ ap (λ x. x.0.history_clear_pending) e ∙ off | inr (z, e) ↦ e ],
    ),
  )

  -- Over any sequence of rounds, whatever the sockets answer: rounds in which no server is known
  -- change nothing. Of the packets that the other rounds build, the first has the history-clear
  -- flag that was pending and all later ones have it clear, also where the first could not be sent.
  -- The sequence number goes up by the number of packets built, and so do the sent and the failed
  -- together, modulo 2^32.
  pub rounds-notices :
      (rs : List (Round fl.Dev)) (t : Telemetry) (s : Status)
      → let flags = notices rs (t, s) in
        let k' = rounds rs (t, s) in
        (flags ≡ first_only t.history_clear_pending (length flags))
        × (k'.0.udp_seq % 4294967296 ≡ (t.udp_seq + length flags) % 4294967296)
        × ((k'.0.telemetry_sent + k'.0.telemetry_failed) % 4294967296
            ≡ (t.telemetry_sent + t.telemetry_failed + length flags) % 4294967296)
        × (((length flags ≡ 0) × (k' ≡ (t, s)))
            ⊎ ((1 ≤ length flags) × (k'.0.history_clear_pending ≡ false)))
  unfolding rounds notices
  rounds-notices [] t s = (refl, omega arith, omega arith, inl (refl, refl))
  rounds-notices (r ∷ rs) t s =
      let k1 = after_round r (t, s) in
      elim (round-cases r t s) [
        | inl (e, same) ↦ rw e (
            subst (λ k. Summary (notices rs k) (t, s) (rounds rs k)) (sym same)
              (rounds-notices rs t s))
        | inr (addr, e, off, seq, count) ↦
            let sent = build_packet-notice fl f c tick_hz r.now_ticks s r.storage t in
            rw e (
              Summary-sent (notices rs k1) _ (t, s) k1 (rounds rs k1) (sym sent) off seq count
                (rounds-notices rs k1.0 k1.1))
      ]
