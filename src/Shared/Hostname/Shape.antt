-- ===== src/Shared/Hostname/Shape.antt =====
-- The shape of a name for DHCP.
use brewster.Common.{
  ℕ, ◌≤◌, ◌<◌, ◌≡◌, refl, sym, ap, ◌∙◌, inl, inr, Bool, true, false, ◌&&◌, ◌||◌, List, [], ◌∷◌,
  ◌++◌, arith, leb, ◌==◌, ==_iff, Bool-cases, length, get_or, All, length-append,
}
use mathlib.Core.List.{reverse, reverse-append, reverse-reverse}
use brewster.Shared.Hostname.{
  map_byte, hostname_loop, drop_dashes, default_hostname, normalized_dhcp_hostname,
}

-- A lower-case letter, a digit or a dash.
abbrev pub is_host_char : ℕ → Bool
is_host_char c = (leb b'a' c && leb c b'z') || (leb b'0' c && leb c b'9') || c == b'-'

abbrev pub HostChar : ℕ → Type 0
HostChar c = is_host_char c ≡ true

map_byte-HostChar : (byte : ℕ) → HostChar (map_byte byte)
unfolding map_byte
map_byte-HostChar byte = ground arith

All-append : (xs ys : List ℕ) → All HostChar xs → All HostChar ys → All HostChar (xs ++ ys)
All-append [] ys h k = k
All-append (x ∷ xs) ys (p, h) k = (p, All-append xs ys h k)

-- What the loop builds: at most 32 characters that are allowed, the first one no dash.
abbrev Begun : List ℕ → Type 0
Begun out = All HostChar out × (length out ≤ 32) × ((get_or out 0 0 == b'-') ≡ false)

first_append : (xs ys : List ℕ) → 0 < length xs → get_or (xs ++ ys) 0 0 ≡ get_or xs 0 0
first_append [] ys h = absurd (omega arith)
first_append (x ∷ xs) ys h = refl

hostname_loop-Begun : (out input : List ℕ) → Begun out → Begun (hostname_loop out input)
unfolding hostname_loop
hostname_loop-Begun out [] h = h
hostname_loop-Begun out (byte ∷ rest) (h, len, first) = elim (Bool-cases (leb 32 (length out))) [
  | inl p ↦ simp p (h, len, first)
  | inr p ↦ elim (Bool-cases (length out == 0 && map_byte byte == b'-')) [
    | inl q ↦ simp (p, q) (hostname_loop-Begun out rest (h, len, first))
    | inr q ↦
        simp (p, q)
          (hostname_loop-Begun (out ++ (map_byte byte ∷ [])) rest (
            All-append out (map_byte byte ∷ []) h (map_byte-HostChar byte, record {}),
            ground (arith, length-append out (map_byte byte ∷ [])),
            pushed_first out q first,
          ))
  ]
]
  where
    pushed_first :
        (out : List ℕ)
        → (length out == 0 && map_byte byte == b'-') ≡ false
        → (get_or out 0 0 == b'-') ≡ false
        → (get_or (out ++ (map_byte byte ∷ [])) 0 0 == b'-') ≡ false
    pushed_first [] q first = ground arith
    pushed_first (x ∷ xs) q first = first

reverse-cons : (x : ℕ) (xs : List ℕ) → reverse (x ∷ xs) ≡ reverse xs ++ (x ∷ [])
reverse-cons x xs = reverse-append (x ∷ []) xs

length-reverse : (xs : List ℕ) → length (reverse xs) ≡ length xs
length-reverse [] = refl
length-reverse (x ∷ xs) =
    ap length (reverse-cons x xs)
    ∙ omega (arith, length-append (reverse xs) (x ∷ []), length-reverse xs)

All-reverse : (xs : List ℕ) → All HostChar xs → All HostChar (reverse xs)
All-reverse [] h = h
All-reverse (x ∷ xs) (hx, h) =
    rw (reverse-cons x xs) (All-append (reverse xs) (x ∷ []) (All-reverse xs h) (hx, record {}))

All-drop_dashes : (xs : List ℕ) → All HostChar xs → All HostChar (drop_dashes xs)
unfolding drop_dashes
All-drop_dashes [] h = h
All-drop_dashes (x ∷ xs) (hx, h) = elim (Bool-cases (x == b'-')) [
  | inl p ↦ simp p (All-drop_dashes xs h)
  | inr p ↦ simp p (rw p at hx, h)
]

drop_dashes-first : (xs : List ℕ) → (get_or (drop_dashes xs) 0 0 == b'-') ≡ false
unfolding drop_dashes
drop_dashes-first [] = refl
drop_dashes-first (x ∷ xs) = elim (Bool-cases (x == b'-')) [
  | inl p ↦ simp p (drop_dashes-first xs)
  | inr p ↦ rw (p, p)
]

-- What is dropped stands in front.
drop_dashes-suffix : (xs : List ℕ) → (ds : List ℕ) × (xs ≡ ds ++ drop_dashes xs)
unfolding drop_dashes
drop_dashes-suffix [] = ([], refl)
drop_dashes-suffix (x ∷ xs) = elim (Bool-cases (x == b'-')) [
  | inl p ↦ let (ds, e) = drop_dashes-suffix xs in simp p (x ∷ ds, ap (λ ys. x ∷ ys) e)
  | inr p ↦ simp p ([], refl)
]

-- The end of the function: the dashes at the end come off.
trimmed-Begun : (xs : List ℕ) → Begun xs → Begun (reverse (drop_dashes (reverse xs)))
trimmed-Begun xs (h, len, first) =
    let (ds, e) = drop_dashes-suffix (reverse xs) in
    let kept = reverse (drop_dashes (reverse xs)) in
    let whole : xs ≡ kept ++ reverse ds =
      sym (reverse-reverse xs) ∙ ap reverse e ∙ reverse-append ds (drop_dashes (reverse xs)) in
    (
      All-reverse (drop_dashes (reverse xs)) (All-drop_dashes (reverse xs) (All-reverse xs h)),
      omega (arith, len, ap length whole, length-append kept (reverse ds)),
      elim (Bool-cases (length kept == 0)) [
        | inl z ↦ empty_first kept ((==_iff _ _).0 z)
        | inr z ↦ rw (whole, first_append kept (reverse ds) (ground (arith, z))) at first
      ],
    )
  where
    empty_first : (ys : List ℕ) → length ys ≡ 0 → (get_or ys 0 0 == b'-') ≡ false
    empty_first [] e = refl
    empty_first (y ∷ ys) e = absurd (omega (arith, e))

-- Whatever the configured text, the name that goes to DHCP has 1 to 32 characters, all of them
-- lower-case letters, digits and dashes, and no dash at its beginning or its end.
pub normalized_dhcp_hostname_lem :
    (input : List ℕ)
    → let out = normalized_dhcp_hostname input in
      (1 ≤ length out)
      × (length out ≤ 32)
      × All HostChar out
      × ((get_or out 0 0 == b'-') ≡ false)
      × ((get_or (reverse out) 0 0 == b'-') ≡ false)
unfolding normalized_dhcp_hostname
normalized_dhcp_hostname_lem input =
    let built = hostname_loop [] input in
    let (h, len, first) =
      trimmed-Begun built (hostname_loop-Begun [] input (record {}, omega arith, refl)) in
    let out = reverse (drop_dashes (reverse built)) in
    elim (Bool-cases (length out == 0)) [
      | inl p ↦ simp p (omega arith, omega arith, default_lem, refl, refl)
      | inr p ↦ simp p (
        ground (arith, p),
        len,
        h,
        first,
        rw (reverse-reverse (drop_dashes (reverse built))) (drop_dashes-first (reverse built)),
      )
    ]
  where
    default_lem : All HostChar default_hostname
    default_lem = (refl, (refl, (refl, (refl, (refl, (refl, (refl, (refl, record {}))))))))
