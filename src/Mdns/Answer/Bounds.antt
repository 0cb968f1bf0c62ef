-- ===== src/Mdns/Answer/Bounds.antt =====
-- Where `dns_name_matches_host_local` says that a name ends.
use brewster.Common.{
  ℕ, zero, suc, ◌+◌, ◌≤◌, ◌<◌, ◌≡◌, ap, ◌∙◌, inl, inr, Bool, true, false, not, Option, none, some,
  List, arith, ltb, leb, ◌==◌, Bool-cases, Option-cases, length, get_or,
}
use Prim.Native.Nat.{bit_and}
use brewster.Mdns.Service.{pointer_at}
use brewster.Mdns.Answer.{
  NameWalk, match_loop, match_step, name_start, name_fuel, jump, take_label,
  dns_name_matches_host_local, name_end,
}
use mathlib.Core.Path.{subst}

-- Behind the first pointer, or not yet known.
record Within (n start : ℕ) (s : NameWalk) : Type 0 where
  known : s.jumped ≡ true → (start < s.next) × (s.next ≤ n)
  ahead : s.jumped ≡ false → start ≤ s.cursor

abbrev Ends : ℕ → ℕ → Option (Option (Bool × ℕ)) → Type 0
Ends n start r = (m : Bool) (next : ℕ) → r ≡ some (some (m, next)) → (start < next) × (next ≤ n)

jump-Within :
    (n start ptr : ℕ) (s : NameWalk)
    → s.cursor + 1 < n
    → Within n start s
    → Within n start (jump ptr s)
jump-Within n start ptr s inside w =
    let known = w.known in
    let ahead = w.ahead in
    record {
      known = λ e. elim (Bool-cases s.jumped) [
        | inl j ↦ rw j (known j)
        | inr j ↦ let a = ahead j in rw j (omega arith, omega arith)
      ];
      ahead = λ e. absurd cc;
    }

take_label-Within :
    (n start len : ℕ) (packet hostname : List ℕ) (s : NameWalk)
    → Within n start s
    → Within n start (take_label packet hostname len s)
take_label-Within n start len packet hostname s w =
    let known = w.known in
    let ahead = w.ahead in record { known = known; ahead = λ j. let a = ahead j in omega arith }

name_end-Within :
    (n start : ℕ) (s : NameWalk)
    → s.cursor < n
    → Within n start s
    → (start < (name_end s).1) × ((name_end s).1 ≤ n)
name_end-Within n start s inside w =
    let known = w.known in
    let ahead = w.ahead in
    elim (Bool-cases s.jumped) [
      | inl j ↦ rw j (known j)
      | inr j ↦ let a = ahead j in rw j (omega arith, omega arith)
    ]

abbrev end_of : Option (Option (Bool × ℕ)) → ℕ
end_of none = 0
end_of (some none) = 0
end_of (some (some (m, next))) = next

match_step-Ends :
    (packet hostname : List ℕ) (start : ℕ) (s : NameWalk)
    (continue : NameWalk → Option (Option (Bool × ℕ)))
    → Within (length packet) start s
    → ((t : NameWalk) → Within (length packet) start t → Ends (length packet) start (continue t))
    → Ends (length packet) start (match_step packet hostname s continue)
match_step-Ends packet hostname start s continue w again m next e =
    let n = length packet in
    let ptr = pointer_at packet s.cursor in
    let len = get_or packet s.cursor 0 in
    elim (Bool-cases (leb n s.cursor)) [
      | inl b1 ↦ let bad = (rw b1 at e) in absurd cc
      | inr b1 ↦ elim (Bool-cases (bit_and len 0xC0 == 0xC0)) [
        | inl b2 ↦ elim (Bool-cases (leb n (s.cursor + 1))) [
          | inl b3 ↦ let bad = (rw (b1, b2, b3) at e) in absurd cc
          | inr b3 ↦ elim (Bool-cases (leb n ptr)) [
            | inl b4 ↦ let bad = (rw (b1, b2, b3, b4) at e) in absurd cc
            | inr b4 ↦
                again (jump ptr s) (jump-Within n start ptr s (ground arith) w) m next
                  (rw (b1, b2, b3, b4) at e)
          ]
        ]
        | inr b2 ↦ elim (Bool-cases (not (bit_and len 0xC0 == 0))) [
          | inl b3 ↦ let bad = (rw (b1, b2, b3) at e) in absurd cc
          | inr b3 ↦ elim (Bool-cases (len == 0)) [
            | inl b4 ↦
                let same = (rw (b1, b2, b3, b4) at e) in
                subst (λ k. (start < k) × (k ≤ n)) (ap end_of same)
                  (name_end-Within n start s (ground arith) w)
            | inr b4 ↦ elim (Bool-cases (ltb n (s.cursor + suc len))) [
              | inl b5 ↦ let bad = (rw (b1, b2, b3, b4, b5) at e) in absurd cc
              | inr b5 ↦
                  again (take_label packet hostname len s)
                    (take_label-Within n start len packet hostname s w) m next
                    (rw (b1, b2, b3, b4, b5) at e)
            ]
          ]
        ]
      ]
    ]

match_loop-Ends :
    (fuel : ℕ) (packet hostname : List ℕ) (start : ℕ) (s : NameWalk)
    → Within (length packet) start s
    → Ends (length packet) start (match_loop fuel packet hostname s)
unfolding match_loop
match_loop-Ends zero packet hostname start s w m next e = cc
match_loop-Ends (suc fuel) packet hostname start s w m next e = elim (Bool-cases (ltb s.depth 16)) [
  | inl b ↦
      match_step-Ends packet hostname start s (match_loop fuel packet hostname) w
        (match_loop-Ends fuel packet hostname start) m next (rw b at e)
  | inr b ↦ let impossible = (rw b at e) in absurd cc
]

-- The index behind a name, which the caller reads the type and the class at, lies behind the
-- name's first byte and no farther than the packet's end.
pub dns_name_matches_host_local-next :
    (packet hostname : List ℕ) (start next : ℕ) (m : Bool)
    → dns_name_matches_host_local packet start hostname ≡ some (m, next)
    → (start < next) × (next ≤ length packet)
unfolding dns_name_matches_host_local
dns_name_matches_host_local-next packet hostname start next m e =
    elim (Option-cases (match_loop (name_fuel packet) packet hostname (name_start start))) [
      | inl h ↦ let impossible = (rw h at e) in absurd cc
      | inr (r, h) ↦
          match_loop-Ends (name_fuel packet) packet hostname start (name_start start)
            (record { known = λ j. absurd cc; ahead = λ j. omega arith }) m next
            (h ∙ ap some (rw h at e))
    ]
