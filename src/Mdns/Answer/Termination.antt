-- ===== src/Mdns/Answer/Termination.antt =====
-- The loop of `dns_name_matches_host_local` ends on every packet.
use brewster.Common.{
  ℕ, zero, suc, ◌+◌, ◌-◌, ◌*◌, ◌<◌, min, ◌≡◌, refl, inl, inr, Bool, true, Option, List, arith, ltb,
  ltb→lt, Bool-cases, is_some, length, get_or,
}
use brewster.Mdns.Answer.{NameWalk, match_loop, match_step, name_start, name_fuel, jump, take_label}
use brewster.Mdns.Service.{pointer_at}
use native.Mathlib.Numerals.{unary_clauses}

-- The passes that may be left: each pointer buys one walk to the end of the packet.
abbrev passes_left : ℕ → NameWalk → ℕ
passes_left n s = (16 - s.depth) * (n + 1) + (n - s.cursor)

pointer_cost : (d n : ℕ) → d < 16 → (16 - d) * (n + 1) ≡ (n + 1) + (16 - min 255 (suc d)) * (n + 1)
pointer_cost d n h =
    let e : 16 - d ≡ suc (16 - min 255 (suc d)) = omega arith in
    rw e (simp unary_clauses (omega arith))

jump-fewer :
    (n fuel ptr : ℕ) (s : NameWalk)
    → s.depth < 16
    → s.cursor < n
    → ptr < n
    → passes_left n s < suc fuel
    → passes_left n (jump ptr s) < fuel
jump-fewer n fuel ptr s shallow inside target h = omega (arith, pointer_cost s.depth n shallow)

-- A pass ends the loop or leaves fewer passes.
match_step-ends :
    (fuel : ℕ) (packet hostname : List ℕ) (s : NameWalk)
    (continue : NameWalk → Option (Option (Bool × ℕ)))
    → s.depth < 16
    → passes_left (length packet) s < suc fuel
    → ((t : NameWalk) → passes_left (length packet) t < fuel → is_some (continue t) ≡ true)
    → is_some (match_step packet hostname s continue) ≡ true
match_step-ends fuel packet hostname s continue shallow h again =
    let n = length packet in
    let ptr = pointer_at packet s.cursor in
    let len = get_or packet s.cursor 0 in
    ground (
      arith,
      again (jump ptr s),
      again (take_label packet hostname len s),
      jump-fewer n fuel ptr s shallow,
    )

match_loop-ends :
    (fuel : ℕ) (packet hostname : List ℕ) (s : NameWalk)
    → passes_left (length packet) s < fuel
    → is_some (match_loop fuel packet hostname s) ≡ true
unfolding match_loop
match_loop-ends zero packet hostname s h = absurd (omega arith)
match_loop-ends (suc fuel) packet hostname s h = elim (Bool-cases (ltb s.depth 16)) [
  | inl e ↦ rw e (
      match_step-ends fuel packet hostname s (match_loop fuel packet hostname) (ltb→lt _ _ e) h
        (match_loop-ends fuel packet hostname))
  | inr e ↦ rw e refl
]

-- The loop over a name ends, whatever the packet holds, pointers that point back included: the
-- fuel that is given is enough from every offset.
pub dns_name_matches_host_local-ends :
    (packet hostname : List ℕ) (start : ℕ)
    → is_some (match_loop (name_fuel packet) packet hostname (name_start start)) ≡ true
dns_name_matches_host_local-ends packet hostname start =
    match_loop-ends (name_fuel packet) packet hostname (name_start start) (omega arith)
