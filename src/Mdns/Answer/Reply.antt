-- ===== src/Mdns/Answer/Reply.antt =====
-- The answer to a query for the device's own name.
use brewster.Common.{
  ℕ, suc, ◌+◌, ◌-◌, ◌≤◌, ◌≡◌, refl, ap, ◌∙◌, Bool, true, false, Option, some, List, [], ◌∷◌, ◌++◌,
  append-nil, append_assoc, arith, ltb, leb, ◌==◌, length, drop, slice, copy_at, length-append,
  length-drop,
}
use brewster.Dns.{IsLabel, between, copy_at-append}
use brewster.Dns.Drop.{From, From-append, drop-drop}
use brewster.Mdns.Service.Names.{byte_at, label_bits, slice-From, whole-From}
use brewster.Mdns.Answer.{
  NameWalk, match_loop, match_step, name_start, name_fuel, take_label, name_end,
  dns_name_matches_host_local, put_all, local_label, bytes_eq_ascii_ignore_case,
}

-- The pieces behind one another.
abbrev pub concat : List (List ℕ) → List ℕ
concat [] = []
concat (bytes ∷ pieces) = bytes ++ concat pieces

pub put_all-concat :
    (pieces : List (List ℕ)) (w rest : List ℕ)
    → length (concat pieces) ≤ length rest
    → put_all pieces (between w rest)
      ≡ between (w ++ concat pieces) (drop (length (concat pieces)) rest)
unfolding put_all
put_all-concat [] w rest h = rw (append-nil w) refl
put_all-concat (bytes ∷ pieces) w rest h =
    let n = length-append bytes (concat pieces) in
    let one : record { buf = copy_at (w ++ rest) (length w) bytes; i = length w + length bytes }
        ≡ between (w ++ bytes) (drop (length bytes) rest) =
      ground (arith, length-append w bytes, copy_at-append bytes w rest (omega (arith, n))) in
    ap (put_all pieces) one
    ∙ put_all-concat pieces (w ++ bytes) (drop (length bytes) rest)
        (omega (arith, length-drop (length bytes) rest))
    ∙ simp (drop-drop, append_assoc w bytes (concat pieces), n) refl

bytes_eq_ascii_ignore_case_refl : (bs : List ℕ) → bytes_eq_ascii_ignore_case bs bs ≡ true
unfolding bytes_eq_ascii_ignore_case
bytes_eq_ascii_ignore_case_refl [] = refl
bytes_eq_ascii_ignore_case_refl (b ∷ bs) = ground (arith, bytes_eq_ascii_ignore_case_refl bs)

match_step-end :
    (packet hostname : List ℕ) (s : NameWalk) (rest : List ℕ)
    (continue : NameWalk → Option (Option (Bool × ℕ)))
    → From packet s.cursor (0 ∷ rest)
    → match_step packet hostname s continue ≡ some (some (name_end s))
match_step-end packet hostname s rest continue h =
    let e = byte_at packet s.cursor 0 rest h in
    let n = whole-From packet s.cursor (0 ∷ rest) (omega arith) h in
    let inside : leb (length packet) s.cursor ≡ false = ground (arith, n) in rw (inside, e) refl

match_step-label :
    (packet hostname : List ℕ) (s : NameWalk) (l rest : List ℕ)
    (continue : NameWalk → Option (Option (Bool × ℕ)))
    → IsLabel l
    → From packet s.cursor (length l ∷ l ++ rest)
    → match_step packet hostname s continue ≡ continue (take_label packet hostname (length l) s)
match_step-label packet hostname s l rest continue (lo, hi) h =
    let e = byte_at packet s.cursor (length l) (l ++ rest) h in
    let n = whole-From packet s.cursor (length l ∷ l ++ rest) (omega arith) h in
    let size = length-append l rest in
    let inside : leb (length packet) s.cursor ≡ false = ground (arith, n) in
    let room : ltb (length packet) (s.cursor + suc (length l)) ≡ false = ground (arith, n, size) in
    let longer : (length l == 0) ≡ false = ground arith in
    rw (inside, e, label_bits (length l) hi, longer, room) refl

-- A name of two labels that match, whatever the case of its letters, is recognised.
pub dns_name_matches_host_local-two :
    (packet hostname l l2 rest : List ℕ) (off : ℕ)
    → IsLabel l
    → IsLabel l2
    → bytes_eq_ascii_ignore_case l hostname ≡ true
    → bytes_eq_ascii_ignore_case l2 local_label ≡ true
    → From packet off (length l ∷ l ++ (length l2 ∷ l2 ++ (0 ∷ rest)))
    → dns_name_matches_host_local packet off hostname
      ≡ some (true, off + suc (length l) + suc (length l2) + 1)
unfolding dns_name_matches_host_local match_loop
dns_name_matches_host_local-two packet hostname l l2 rest off hl hl2 e1 e2 at1 =
    let s0 = name_start off in
    let s1 = take_label packet hostname (length l) s0 in
    let s2 = take_label packet hostname (length l2) s1 in
    let tail2 = l2 ++ (0 ∷ rest) in
    let at2 = From-append packet off (length l ∷ l) (length l2 ∷ tail2) at1 in
    let at3 = From-append packet (off + suc (length l)) (length l2 ∷ l2) (0 ∷ rest) at2 in
    let fuel = name_fuel packet - 3 in
    let enough : name_fuel packet ≡ suc (suc (suc fuel)) = omega arith in
    let first = slice_label packet off l (length l2 ∷ tail2) at1 in
    let second = slice_label packet (off + suc (length l)) l2 (0 ∷ rest) at2 in
    rw
      (
        enough,
        match_step-label packet hostname s0 l (length l2 ∷ tail2)
            (match_loop (suc (suc fuel)) packet hostname) hl at1,
        match_step-label packet hostname s1 l2 (0 ∷ rest) (match_loop (suc fuel) packet hostname)
            hl2 at2,
        match_step-end packet hostname s2 rest (match_loop fuel packet hostname) at3,
        first,
        second,
        e1,
        e2,
      )
      refl
  where
    slice_label :
        (packet : List ℕ) (off : ℕ) (l rest : List ℕ)
        → From packet off (length l ∷ l ++ rest)
        → slice packet (off + 1) (off + suc (length l)) ≡ l
    slice_label packet off l rest h =
        let e : off + suc (length l) ≡ off + 1 + length l = omega arith in
        ap (slice packet (off + 1)) e
        ∙ slice-From packet (off + 1) l rest (From-append packet off (length l ∷ []) (l ++ rest) h)
