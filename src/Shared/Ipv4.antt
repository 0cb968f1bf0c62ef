-- ===== src/Shared/Ipv4.antt =====
-- `parse_ipv4_octets` and `ntp_config_peers_from`.
use brewster.Common.{
  ℕ, Bool, false, ◌||◌, Option, none, some, List, [], ◌∷◌, ◌++◌, ltb, leb, ◌==◌, if◌then◌else◌,
  ◌>>=◌, length, bytes_eq,
}
use brewster.Storage.Probe.{trim}
use brewster.Shared.Text.{split, parse_u8}

-- The loop over the parts: the octets so far are its state.
unfoldable pub octets_loop : List ℕ → List (List ℕ) → Option (List ℕ)
octets_loop octets [] = if length octets == 4 then some octets else none
octets_loop octets (part ∷ parts) =
    if leb 4 (length octets)
    then none
    else elim (parse_u8 part) [ none ↦ none | some n ↦ octets_loop (octets ++ (n ∷ [])) parts ]

unfoldable pub parse_ipv4_octets : List ℕ → Option (List ℕ)
parse_ipv4_octets s = octets_loop [] (split b'.' s)

abbrev pub ntp_max_config_servers : ℕ
ntp_max_config_servers = 4

unfoldable pub contains : List (List ℕ) → List ℕ → Bool
contains [] ip = false
contains (p ∷ peers) ip = bytes_eq p ip || contains peers ip

-- The loop over the configured list: `break` where the vector is full.
unfoldable pub peers_loop : List (List ℕ) → List (List ℕ) → List (List ℕ)
peers_loop peers [] = peers
peers_loop peers (raw ∷ raws) = elim (parse_ipv4_octets (trim raw)) [
  | none ↦ peers_loop peers raws
  | some ip ↦
      (let skipped = peers_loop peers raws in
        let pushed = peers_loop (peers ++ (ip ∷ [])) raws in
        if contains peers ip
        then skipped
        else if ltb (length peers) ntp_max_config_servers
        then pushed
        else peers)
]

-- `filter(|s| !s.is_empty())`
unfoldable pub nonempty : Option (List ℕ) → Option (List ℕ)
nonempty none = none
nonempty (some []) = none
nonempty (some (c ∷ cs)) = some (c ∷ cs)

unfoldable pub ntp_config_peers_from : Option (List ℕ) → Option (List ℕ) → List (List ℕ)
ntp_config_peers_from config_list fallback_single =
    let peers : List (List ℕ) = elim (nonempty config_list) [
      | none ↦ []
      | some list ↦ peers_loop [] (split b',' list)
    ] in
    if length peers == 0
    then (elim (nonempty fallback_single >>= parse_ipv4_octets) [
      | none ↦ peers
      | some ip ↦ ip ∷ []
    ])
    else peers
