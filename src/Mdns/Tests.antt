-- ===== src/Mdns/Tests.antt =====
-- The theorems on mDNS packets at concrete inputs.
use brewster.Common.{
  ℕ, ◌≤◌, ◌<◌, ◌≡◌, refl, true, false, none, some, List, [], ◌∷◌, arith, ◌>>=◌, is_some, length,
  take, drop, replicate,
}
use brewster.Dns.{Cursor, name_bytes, between}
use brewster.Mdns.Service.{try_find_brewster_service}
use brewster.Mdns.Service.RoundTrip.{try_find_brewster_service-build_mdns_packet}
use brewster.Mdns.Answer.{
  match_loop, name_fuel, name_start, dns_name_matches_host_local, build_mdns_response, local_label,
}
use brewster.Mdns.Answer.Termination.{dns_name_matches_host_local-ends}
use brewster.Mdns.Answer.Bounds.{dns_name_matches_host_local-next}
use brewster.Mdns.Answer.Query.{build_mdns_response-query, query_bytes, answer_bytes, sent}
use brewster.Mdns.Announcement.{build_mdns_announcement}
use brewster.Mdns.Announcement.Bounds.{build_mdns_announcement-Inside}
use brewster.Dns.Safe.{cursor_or}
use brewster.Mdns.Answer.{bytes_eq_ascii_ignore_case}
use brewster.Mdns.Announcement.{
  append_answers_header, append_services, append_address, append_head, append_rdata,
  append_dns_name, append_u16, append_u32, append_bytes,
}
use brewster.Server.Announce.{build_mdns_packet}
use brewster.Server.Announce.Wire.{announcement, exact_announcement, build_mdns_packet-announcement}

abbrev ip : List ℕ
ip = 10 ∷ 0 ∷ 0 ∷ 7 ∷ []

-- `b"fv-server"` and `b"udp=47890"`
abbrev instance_name : List ℕ
instance_name = 102 ∷ 118 ∷ 45 ∷ 115 ∷ 101 ∷ 114 ∷ 118 ∷ 101 ∷ 114 ∷ []

abbrev txt : List ℕ
txt = 117 ∷ 100 ∷ 112 ∷ 61 ∷ 52 ∷ 55 ∷ 56 ∷ 57 ∷ 48 ∷ []

abbrev out : List ℕ
out = replicate 512 0

room : length (announcement ip 47890 instance_name txt) ≤ length out
unfolding name_bytes
room = omega arith

build_mdns_packet-announcement_example :
    build_mdns_packet ip 47890 instance_name txt out
    ≡ some (
        between
          (exact_announcement ip 47890 instance_name txt)
          (drop (length (exact_announcement ip 47890 instance_name txt)) out))
build_mdns_packet-announcement_example =
    build_mdns_packet-announcement ip 47890 instance_name txt out refl (omega arith, omega arith)
      (omega arith) room

try_find_brewster_service_example :
    build_mdns_packet ip 47890 instance_name txt out
      >>= (λ c. try_find_brewster_service (take c.i c.buf))
    ≡ some (ip, 47890)
try_find_brewster_service_example =
    try_find_brewster_service-build_mdns_packet ip 47890 instance_name txt out refl (omega arith)
      (omega arith, omega arith) (omega arith) room

-- `b"fv"`, and a query for `FV.local` that has a pointer to itself behind it.
abbrev hostname : List ℕ
hostname = 102 ∷ 118 ∷ []

abbrev query : List ℕ
query = query_bytes 1 2 (λ i. 0) (70 ∷ 86 ∷ []) local_label 1 1 (0xC0 ∷ 26 ∷ [])

dns_name_matches_host_local-ends_example :
    is_some (match_loop (name_fuel query) query hostname (name_start 26)) ≡ true
dns_name_matches_host_local-ends_example = dns_name_matches_host_local-ends query hostname 26

found_name : dns_name_matches_host_local query 12 hostname ≡ some (true, 22)
unfolding dns_name_matches_host_local match_loop bytes_eq_ascii_ignore_case
found_name = refl

dns_name_matches_host_local-next_example : (12 < 22) × (22 ≤ length query)
dns_name_matches_host_local-next_example =
    dns_name_matches_host_local-next query hostname 12 22 true found_name

build_mdns_response-query_example :
    sent (build_mdns_response query hostname (some ip) none out)
    ≡ some (
      answer_bytes 1 2 hostname 1 1 ip,
      record { prefer_unicast_response = false; qtype = 1; qclass_raw = 1 },
    )
unfolding bytes_eq_ascii_ignore_case
build_mdns_response-query_example =
    build_mdns_response-query 1 2 (λ i. 0) hostname (70 ∷ 86 ∷ []) local_label (0xC0 ∷ 26 ∷ []) ip
      out none 1 1 (omega arith, omega arith) (omega arith, omega arith) (omega arith, omega arith)
      refl refl (omega arith) (omega arith) refl refl (omega arith)

announced : Cursor
announced =
    cursor_or (record { buf = []; i = 0 }) (build_mdns_announcement hostname (some ip) none out)

announced_lem : build_mdns_announcement hostname (some ip) none out ≡ some announced
unfolding announced build_mdns_announcement append_answers_header append_services append_address
    append_head append_rdata append_dns_name append_u16 append_u32 append_bytes
announced_lem = refl

build_mdns_announcement-Inside_example :
    (announced.i ≤ 512) × (length announced.buf ≡ 512) × (true ≡ true)
build_mdns_announcement-Inside_example =
    build_mdns_announcement-Inside hostname out (some ip) none announced announced_lem
