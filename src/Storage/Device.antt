-- ===== src/Storage/Device.antt =====
-- A flash device in memory, which satisfies `FlashLaws`: the examples run on it.
use brewster.Common.{
  ℕ, zero, suc, ◌+◌, ◌≤◌, ◌<◌, ◌≡◌, refl, ap, ◌∙◌, ◌⊎◌, ◌&&◌, none, some, List, [], ◌∷◌, arith, ltb,
  leb, ◌==◌, if◌then◌else◌, length, replicate,
}
use brewster.Storage.{Flash, FlashLaws, Entry}

unfoldable pub read_cells : (ℕ → ℕ) → ℕ → ℕ → List ℕ
read_cells c at zero = []
read_cells c at (suc n) = c at ∷ read_cells c (suc at) n

unfoldable pub put : ℕ → List ℕ → (ℕ → ℕ) → ℕ → ℕ
put off [] c i = c i
put off (b ∷ bs) c i = let rest = put (suc off) bs c i in if i == off then b else rest

abbrev fill : ℕ → ℕ → (ℕ → ℕ) → ℕ → ℕ
fill from to c i = if leb from i && ltb i to then 0xFF else c i

-- One partition of the label that the firmware looks for, at 0x9000.
abbrev table : List Entry
table = record { label = 99 ∷ 102 ∷ 103 ∷ []; offset = 0x9000; len = 0x2040 } ∷ []

abbrev pub memory : Flash
memory = record {
  Dev = ℕ → ℕ;
  Error = ℕ;
  read = λ c at n. some (read_cells c at n);
  write = λ c off bytes. (none, put off bytes c);
  erase = λ c from to. (none, fill from to c);
  partition_table = λ c. some table;
}

put_apart :
    (off : ℕ) (bs : List ℕ) (c : ℕ → ℕ) (i : ℕ)
    → (i < off) ⊎ (off + length bs ≤ i)
    → put off bs c i ≡ c i
unfolding put
put_apart off [] c i h = refl
put_apart off (b ∷ bs) c i h = ground (arith, put_apart (suc off) bs c i)

read_cells_cong :
    (c c' : ℕ → ℕ) (at n : ℕ)
    → ((i : ℕ) → at ≤ i → i < at + n → c i ≡ c' i)
    → read_cells c at n ≡ read_cells c' at n
unfolding read_cells
read_cells_cong c c' at zero h = refl
read_cells_cong c c' at (suc n) h = rw (
  h at (omega arith) (omega arith),
  read_cells_cong c c' (suc at) n (λ i lo hi. h i (omega arith) (omega arith)),
)

read_cells-put :
    (off : ℕ) (bs : List ℕ) (c : ℕ → ℕ) → read_cells (put off bs c) off (length bs) ≡ bs
unfolding read_cells put
read_cells-put off [] c = refl
read_cells-put off (b ∷ bs) c =
    let tail : read_cells (put off (b ∷ bs) c) (suc off) (length bs) ≡ bs =
      read_cells_cong (put off (b ∷ bs) c) (put (suc off) bs c) (suc off) (length bs)
        (λ i lo hi. ground arith)
      ∙ read_cells-put (suc off) bs c in
    ground (arith, tail)

read_cells-fill :
    (c : ℕ → ℕ) (from to at n : ℕ)
    → from ≤ at
    → at + n ≤ to
    → read_cells (fill from to c) at n ≡ replicate n 0xFF
unfolding read_cells
read_cells-fill c from to at zero lo hi = refl
read_cells-fill c from to at (suc n) lo hi = ground (arith, read_cells-fill c from to (suc at) n)

pub memory_laws : FlashLaws memory
memory_laws = record {
  read-write = λ d off bytes ok. ap some (read_cells-put off bytes d);
  read-write_apart = λ d off bytes at n h. ap some (
      read_cells_cong (put off bytes d) d at n (λ i lo hi. put_apart off bytes d i (ground arith)));
  read-erase = λ d from to at n ok lo hi. ap some (read_cells-fill d from to at n lo hi);
  read-erase_apart = λ d from to at n h.
      ap some (read_cells_cong (fill from to d) d at n (λ i lo hi. ground arith));
  partition_table-write = λ d off bytes far. refl;
}
