-- ===== src/Storage/Probe/Names.antt =====
-- What a stored probe name is.
use brewster.Common.{
  ℕ, ◌≤◌, ◌≡◌, refl, ap, ◌∙◌, ◌≢◌, ◌⊎◌, inl, inr, true, false, none, List, [], ◌∷◌, ◌++◌, arith,
  Bool-cases,
}
use mathlib.Core.List.{reverse, reverse-append, reverse-reverse}
use brewster.Storage.{Storage}
use brewster.Storage.Probe.{
  is_whitespace, trim_start, trim, utf8_len, is_valid_probe_name_char, all_chars,
  set_temp_probe_name, temp_probe_name,
}

trim_start-trim_start : (xs : List ℕ) → trim_start (trim_start xs) ≡ trim_start xs
unfolding trim_start
trim_start-trim_start [] = refl
trim_start-trim_start (c ∷ cs) = elim (Bool-cases (is_whitespace c)) [
  | inl e ↦ rw e (trim_start-trim_start cs)
  | inr e ↦ rw (e, e)
]

-- A last character that is no white space stays.
trim_start-snoc :
    (xs : List ℕ) (c : ℕ)
    → is_whitespace c ≡ false
    → trim_start (xs ++ (c ∷ [])) ≡ trim_start xs ++ (c ∷ [])
unfolding trim_start
trim_start-snoc [] c h = rw h
trim_start-snoc (x ∷ xs) c h = elim (Bool-cases (is_whitespace x)) [
  | inl e ↦ rw e (trim_start-snoc xs c h)
  | inr e ↦ rw e
]

-- The text is empty, or begins with a character that is no white space.
trim_start-cases :
    (xs : List ℕ)
    → (trim_start xs ≡ [])
      ⊎ ((c : ℕ) × (cs : List ℕ) × (trim_start xs ≡ c ∷ cs) × (is_whitespace c ≡ false))
unfolding trim_start
trim_start-cases [] = inl refl
trim_start-cases (c ∷ cs) = elim (Bool-cases (is_whitespace c)) [
  | inl e ↦ rw e (trim_start-cases cs)
  | inr e ↦ rw e (inr (c, cs, refl, e))
]

-- Trimming at both ends, where the text begins with no white space.
trim-cons :
    (c : ℕ) (cs : List ℕ)
    → is_whitespace c ≡ false
    → reverse (trim_start (reverse (c ∷ cs))) ≡ c ∷ reverse (trim_start (reverse cs))
trim-cons c cs h =
    ap (λ xs. reverse (trim_start xs)) (reverse-append (c ∷ []) cs)
    ∙ ap reverse (trim_start-snoc (reverse cs) c h)
    ∙ reverse-append (trim_start (reverse cs)) (c ∷ [])

pub trim-trim : (name : List ℕ) → trim (trim name) ≡ trim name
unfolding trim
trim-trim name = elim (trim_start-cases name) [
  | inl e ↦ rw e (unfold trim_start in refl)
  | inr (c, cs, e, h) ↦
      rw (e, trim-cons c cs h, trim_start_head c (reverse (trim_start (reverse cs))) h)
        (rw (
          trim-cons c (reverse (trim_start (reverse cs))) h,
          reverse-reverse,
          trim_start-trim_start,
        ))
]
  where
    trim_start_head : (c : ℕ) (cs : List ℕ) → is_whitespace c ≡ false → trim_start (c ∷ cs) ≡ c ∷ cs
    trim_start_head c cs h = unfold trim_start in rw h

-- A name that is accepted is stored trimmed, with 1 to 32 bytes, all of allowed characters; it is
-- the name that is then read, and setting that name again changes nothing. A name that is
-- refused leaves the state as it was.
pub set_temp_probe_name_lem :
    {Dev : Type 0} (name : List ℕ) (s : Storage Dev)
    → let (error, t) = set_temp_probe_name name s in
      ((error ≢ none) × (t ≡ s))
      ⊎ ((error ≡ none)
          × (t.temp_probe_name ≡ trim name)
          × (temp_probe_name t ≡ trim name)
          × (1 ≤ utf8_len (trim name))
          × (utf8_len (trim name) ≤ 32)
          × (all_chars is_valid_probe_name_char (trim name) ≡ true)
          × (set_temp_probe_name (temp_probe_name t) t ≡ (none, t)))
unfolding set_temp_probe_name temp_probe_name
set_temp_probe_name_lem name s = ground (arith, trim-trim name)
