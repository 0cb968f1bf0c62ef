-- ===== src/Dns/Safe.antt =====
-- Operations on a cursor that stay in the buffer.
use brewster.Common.{
  ℕ, ◌+◌, ◌≤◌, ◌≡◌, ap, ◌∙◌, inl, inr, false, Option, none, some, List, arith, ltb, Bool-cases,
  Option-cases, ◌>>=◌, length, copy_at, length-copy_at,
}
use brewster.Dns.{Cursor, write}
use mathlib.Core.Path.{subst}
use brewster.Common.{ap, copy_at, length-copy_at, ◌∙◌}

-- The index in the buffer, and no byte of it lost or added.
pub record Inside (size : ℕ) (c : Cursor) : Type 0 where
  pub in_buffer : c.i ≤ length c.buf
  pub same_size : length c.buf ≡ size

-- What an operation leaves when it does not fail, with the index no farther back.
pub record Advances (op : Cursor → Option Cursor) : Type 0 where
  pub advanced :
      {size : ℕ} (c d : Cursor) → Inside size c → op c ≡ some d → Inside size d × (c.i ≤ d.i)

abbrev pub cursor_or : Cursor → Option Cursor → Cursor
cursor_or c none = c
cursor_or c (some d) = d

pub write-Advances : (bytes : List ℕ) → Advances (write bytes)
write-Advances bytes = record {
  advanced = λ {size} c d inside e.
      let in_buffer = inside.in_buffer in
      let same_size = inside.same_size in
      elim (Bool-cases (ltb (length c.buf) (c.i + length bytes))) [
        | inl b ↦ let bad = (rw b at e) in absurd cc
        | inr b ↦
            subst (λ x. Inside size x × (c.i ≤ x.i)) (ap (cursor_or c) (rw b at e))
              (
                record {
                  in_buffer = omega (arith, length-copy_at c.buf c.i bytes, room b);
                  same_size = length-copy_at c.buf c.i bytes ∙ same_size;
                },
                omega arith,
              )
      ];
}
  where
    room : {a b : ℕ} → ltb a b ≡ false → b ≤ a
    room h = ground arith

-- A block of data, with its length patched in in front of it.
pub patched-Advances :
    {head body : Cursor → Option Cursor}
    → Advances head
    → Advances body
    → (v : Cursor → Cursor → List ℕ)
    → Advances (λ c.
      head c
      >>= (λ s. body s >>= (λ d. some (record { buf = copy_at d.buf c.i (v s d); i = d.i }))))
patched-Advances {head = head} {body = body} hh hb v = record {
  advanced = λ {size} c d inside e. elim (Option-cases (head c)) [
    | inl b ↦ let bad = (rw b at e) in absurd cc
    | inr (s, b) ↦ elim (Option-cases (body s)) [
      | inl b2 ↦ let bad = (rw (b, b2) at e) in absurd cc
      | inr (m, b2) ↦
          let (inside_s, le_s) = hh.advanced c s inside b in
          let (inside_m, le_m) = hb.advanced s m inside_s b2 in
          let in_buffer = inside_m.in_buffer in
          let same_size = inside_m.same_size in
          let same_length = length-copy_at m.buf c.i (v s m) in
          subst (λ x. Inside size x × (c.i ≤ x.i)) (ap (cursor_or c) (rw (b, b2) at e))
            (record { in_buffer = omega arith; same_size = same_length ∙ same_size }, omega arith)
    ]
  ];
}

pub Advances-then :
    {p q : Cursor → Option Cursor} → Advances p → Advances q → Advances (λ c. p c >>= q)
Advances-then {p = p} hp hq = record {
  advanced = λ {size} c d inside e. elim (Option-cases (p c)) [
    | inl b ↦ let bad = (rw b at e) in absurd cc
    | inr (m, b) ↦
        let (inside_m, le_m) = hp.advanced c m inside b in
        let (inside_d, le_d) = hq.advanced m d inside_m (rw b at e) in (inside_d, omega arith)
  ];
}
