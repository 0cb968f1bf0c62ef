-- ===== src/Status/Net/Validity.antt =====
-- The address and the state of the link agree.
use brewster.Common.{
  ℕ, ◌/◌, ◌%◌, ◌≡◌, refl, ap, inl, inr, Option, some, List, [], ◌∷◌, ◌++◌, arith, leb, ◌==◌,
  if◌then◌else◌, ==_iff, Bool-cases, Option-cases, is_some, length, All,
}
use brewster.Common.Words.{IsByte, be_bytes32}
use brewster.Shared.Text.{split, parse_u8, parse_uint-le}
use brewster.Shared.Ipv4.{octets_loop, parse_ipv4_octets}
use brewster.Status.{Status}
use brewster.Status.Net.{
  cidr_loop, mark_ip_invalid, update_ip_from_cidr, ip_octets, ip_of, has_ip, dhcp_pending,
  first_part,
}

pub ip_of-be_bytes32 :
    (a b c d : ℕ)
    → IsByte a
    → IsByte b
    → IsByte c
    → IsByte d
    → be_bytes32 (ip_of (a ∷ b ∷ c ∷ d ∷ [])) ≡ a ∷ b ∷ c ∷ d ∷ []
ip_of-be_bytes32 a b c d ha hb hc hd = rw (first, second, third, fourth)
  where
    n : ℕ
    n = ip_of (a ∷ b ∷ c ∷ d ∷ [])

    first : n / 16777216 % 256 ≡ a
    first = omega arith

    second : n / 65536 % 256 ≡ b
    second = omega arith

    third : n / 256 % 256 ≡ c
    third = omega arith

    fourth : n % 256 ≡ d
    fourth = omega arith

be_bytes32-ip_of : (o : List ℕ) → length o ≡ 4 → All IsByte o → be_bytes32 (ip_of o) ≡ o
be_bytes32-ip_of [] e h = absurd (omega (arith, e))
be_bytes32-ip_of (a ∷ []) e h = absurd (omega (arith, e))
be_bytes32-ip_of (a ∷ b ∷ []) e h = absurd (omega (arith, e))
be_bytes32-ip_of (a ∷ b ∷ c ∷ []) e h = absurd (omega (arith, e))
be_bytes32-ip_of (a ∷ b ∷ c ∷ d ∷ []) e (ha, (hb, (hc, (hd, u)))) =
    ip_of-be_bytes32 a b c d ha hb hc hd
be_bytes32-ip_of (a ∷ b ∷ c ∷ d ∷ x ∷ xs) e h = absurd (omega (arith, e))

All-snoc : (o : List ℕ) (v : ℕ) → All IsByte o → IsByte v → All IsByte (o ++ (v ∷ []))
All-snoc [] v h hv = (hv, h)
All-snoc (x ∷ o) v (hx, h) hv = (hx, All-snoc o v h hv)

-- The address that is shown, with the state of the link that goes with it.
abbrev pub Shows : Status → Option (List ℕ) → Type 0
Shows s address =
    (ip_octets s ≡ address)
    × (s.last_ip_valid ≡ is_some address)
    × (s.last_net_state ≡ (if is_some address then has_ip else dhcp_pending))

cidr_loop-Shows :
    (octets : List ℕ) (parts : List (List ℕ)) (s : Status)
    → All IsByte octets
    → Shows (cidr_loop octets parts s) (octets_loop octets parts)
unfolding cidr_loop octets_loop ip_octets mark_ip_invalid
cidr_loop-Shows octets [] s h = elim (Bool-cases (length octets == 4)) [
  | inl p ↦ simp p (ap some (be_bytes32-ip_of octets ((==_iff _ _).0 p) h), refl, refl)
  | inr p ↦ simp p (refl, refl, refl)
]
cidr_loop-Shows octets (part ∷ parts) s h = elim (Bool-cases (leb 4 (length octets))) [
  | inl p ↦ simp p (refl, refl, refl)
  | inr p ↦ elim (Option-cases (parse_u8 part)) [
    | inl q ↦ simp (p, q) (refl, refl, refl)
    | inr (v, q) ↦
        simp (p, q)
          (cidr_loop-Shows (octets ++ (v ∷ [])) parts s
            (All-snoc octets v h (omega (arith, parse_uint-le 255 part q))))
  ]
]

-- From the text of a CIDR block, the status takes up the address that `parse_ipv4_octets` reads in
-- the part before the slash: it is then shown as valid, with the state "has an address". Where
-- that part is no address, none is shown and the state is "DHCP pending".
pub update_ip_from_cidr-Shows :
    (text : List ℕ) (s : Status)
    → Shows (update_ip_from_cidr text s) (parse_ipv4_octets (first_part (split b'/' text)))
unfolding update_ip_from_cidr parse_ipv4_octets
update_ip_from_cidr-Shows text s =
    cidr_loop-Shows [] (split b'.' (first_part (split b'/' text))) s (record {})
