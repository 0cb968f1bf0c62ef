-- ===== src/Mdns/Service/Names.antt =====
-- The name loops of src/firmware/network/mdns.rs on names without pointers.
use brewster.Common.{
  ℕ, zero, suc, ◌+◌, ◌-◌, ◌≤◌, ◌<◌, ◌/◌, ◌%◌, ◌≡◌, refl, ap, ◌∙◌, true, Option, none, some, List,
  [], ◌∷◌, ◌++◌, append_assoc, arith, ◌==◌, ==_iff, length, get_or, take, drop, slice, All,
  bytes_eq_refl, length-append,
}
use brewster.Common.Bits.{holds_below, holds_below_lem}
use Prim.Native.Nat.{bit_and}
use brewster.Dns.{IsLabel, name_bytes}
use brewster.Dns.Drop.{From, length-From, From-get_or, From-append, take-append}
use brewster.Mdns.Service.{skip_labels, skip_step, has_label}
use brewster.Mdns.Service.{u16_at}
use brewster.Common.{length-drop}
use brewster.Mdns.Service.{from_be16}

label_table : holds_below (λ n. bit_and n 0xC0 == 0) 64 ≡ true
unfolding holds_below
label_table = refl

pub label_bits : (n : ℕ) → n ≤ 63 → bit_and n 0xC0 ≡ 0
label_bits n h =
    (==_iff _ _).0 (holds_below_lem (λ n. bit_and n 0xC0 == 0) 64 n label_table (omega arith))

-- A byte that stands in the packet.
pub byte_at :
    (packet : List ℕ) (off b : ℕ) (s : List ℕ) → From packet off (b ∷ s) → get_or packet off 0 ≡ b
byte_at packet off b s h = ap (λ i. get_or packet i 0) e ∙ From-get_or packet off 0 (b ∷ s) h
  where
    e : off ≡ off + 0
    e = omega arith

skip_step-end :
    (packet : List ℕ) (off : ℕ) (s : List ℕ) (next : ℕ → Option ℕ)
    → From packet off (0 ∷ s)
    → skip_step packet off next ≡ some (off + 1)
skip_step-end packet off s next h =
    ground (arith, byte_at packet off 0 s h, length-From packet off 0 s h)

skip_step-label :
    (packet : List ℕ) (off : ℕ) (l s : List ℕ) (next : ℕ → Option ℕ)
    → IsLabel l
    → From packet off (length l ∷ l ++ s)
    → skip_step packet off next ≡ next (off + suc (length l))
skip_step-label packet off l s next (lo, hi) h =
    let e = byte_at packet off (length l) (l ++ s) h in
    let n = length-From packet off (length l) (l ++ s) h in
    simp e (ground (arith, n, label_bits (length l) hi))

-- A name of at most `left` labels is skipped.
pub skip_labels-name :
    (ls : List (List ℕ)) (left : ℕ) (packet : List ℕ) (off : ℕ) (s : List ℕ)
    → All IsLabel ls
    → length ls ≤ left
    → From packet off (name_bytes ls ++ s)
    → skip_labels left packet off ≡ some (off + length (name_bytes ls))
unfolding skip_labels name_bytes
skip_labels-name [] zero packet off s h few at = skip_step-end packet off s (λ o. none) at
skip_labels-name [] (suc left) packet off s h few at =
    skip_step-end packet off s (skip_labels left packet) at
skip_labels-name (l ∷ ls) zero packet off s (hl, h) few at = absurd (omega arith)
skip_labels-name (l ∷ ls) (suc left) packet off s (hl, h) few at =
    let rest = name_bytes ls ++ s in
    let at_label : From packet off (length l ∷ l ++ rest) =
      at ∙ ap (λ t. length l ∷ t) (append_assoc l (name_bytes ls) s) in
    skip_step-label packet off l rest (skip_labels left packet) hl at_label
    ∙ skip_labels-name ls left packet (off + suc (length l)) s h (omega arith)
        (From-append packet off (length l ∷ l) rest at_label)
    ∙ ap some (omega (arith, length-append l (name_bytes ls)))

-- The bytes of a slice.
pub slice-From :
    (packet : List ℕ) (off : ℕ) (l s : List ℕ)
    → From packet off (l ++ s)
    → slice packet off (off + length l) ≡ l
slice-From packet off l s h =
    ap (λ n. take n (drop off packet)) same_length ∙ ap (take (length l)) h ∙ take-append l s
  where
    same_length : off + length l - off ≡ length l
    same_length = omega arith

-- The first label is found.
pub has_label-first :
    (left : ℕ) (packet : List ℕ) (off : ℕ) (l s : List ℕ)
    → IsLabel l
    → From packet off (length l ∷ l ++ s)
    → has_label (suc left) packet off l ≡ true
unfolding has_label
has_label-first left packet off l s (lo, hi) h =
    let e = byte_at packet off (length l) (l ++ s) h in
    let n = length-From packet off (length l) (l ++ s) h in
    let text =
      slice-From packet (off + 1) l s (From-append packet off (length l ∷ []) (l ++ s) h) in
    simp e (ground (arith, n, text, label_bits (length l) hi, bytes_eq_refl l, length-append l s))

-- A number and the length of what stands in the packet.
pub u16-From :
    (packet : List ℕ) (off k : ℕ) (s : List ℕ)
    → From packet off s
    → u16_at packet (off + k) ≡ from_be16 (get_or s k 0) (get_or s (suc k) 0)
u16-From packet off k s h =
    let e : off + k + 1 ≡ off + suc k = omega arith in
    rw (From-get_or packet off k s h, e, From-get_or packet off (suc k) s h) refl

pub whole-From :
    (packet : List ℕ) (off : ℕ) (s : List ℕ)
    → 1 ≤ length s
    → From packet off s
    → length packet ≡ off + length s
whole-From packet off s some_byte h = omega (arith, length-drop off packet, ap length h)

pub read_u16 : (n : ℕ) → n < 65536 → from_be16 (n / 256 % 256) (n % 256) ≡ n
read_u16 n h = omega arith
