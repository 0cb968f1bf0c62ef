-- ===== src/Mdns/Announcement/Bounds.antt =====
-- The announcement of the device stays in its buffer.
use brewster.Common.{
  ℕ, ◌-◌, ◌%◌, ◌≤◌, ◌≡◌, refl, ap, inl, inr, Bool, true, false, not, ◌&&◌, ◌||◌, Option, none, some,
  List, [], ◌∷◌, arith, ltb, Bool-cases, ◌>>=◌, is_some, length,
}
use brewster.Common.Words.{be_bytes16, be_bytes32}
use brewster.Dns.{Cursor}
use brewster.Dns.Safe.{cursor_or, Inside, Advances, write-Advances, Advances-then, patched-Advances}
use brewster.Mdns.Announcement.{
  append_bytes, append_u16, append_u32, append_dns_name, append_rdata, append_head,
  append_answers_header, append_services, append_address, build_mdns_announcement, services_labels,
  http_service_labels, http_instance_labels, device_labels, mdns_ttl_secs, http_port,
}
use mathlib.Core.Path.{subst}
use brewster.Common.{ap, ◌≤◌}

append_bytes-Advances : (bytes : List ℕ) → Advances (append_bytes bytes)
unfolding append_bytes
append_bytes-Advances bytes = write-Advances bytes

append_u16-Advances : (v : ℕ) → Advances (append_u16 v)
unfolding append_u16
append_u16-Advances v = append_bytes-Advances (be_bytes16 v)

append_u32-Advances : (v : ℕ) → Advances (append_u32 v)
unfolding append_u32
append_u32-Advances v = append_bytes-Advances (be_bytes32 v)

append_dns_name-Advances : (labels : List (List ℕ)) → Advances (append_dns_name labels)
unfolding append_dns_name
append_dns_name-Advances [] = append_bytes-Advances (0 ∷ [])
append_dns_name-Advances (l ∷ ls) =
    let whole =
      Advances-then
        (Advances-then (append_bytes-Advances (length l % 256 ∷ [])) (append_bytes-Advances l))
        (append_dns_name-Advances ls) in
    record {
      advanced = λ c d inside e. elim (Bool-cases (ltb 63 (length l))) [
        | inl b ↦ let bad = (rw b at e) in absurd cc
        | inr b ↦ whole.advanced c d inside (rw b at e)
      ];
    }

append_head-Advances : (labels : List (List ℕ)) (t c : ℕ) → Advances (append_head labels t c)
unfolding append_head
append_head-Advances labels t c =
    Advances-then
      (Advances-then (Advances-then (append_dns_name-Advances labels) (append_u16-Advances t))
        (append_u16-Advances c))
      (append_u32-Advances mdns_ttl_secs)

append_rdata-Advances :
    {body : Cursor → Option Cursor} → Advances body → Advances (append_rdata body)
unfolding append_rdata
append_rdata-Advances h =
    patched-Advances (append_u16-Advances 0) h (λ s d. be_bytes16 ((d.i - s.i) % 65536))

append_answers_header-Advances : (n : ℕ) → Advances (append_answers_header n)
unfolding append_answers_header
append_answers_header-Advances n =
    Advances-then
      (Advances-then
        (Advances-then
          (Advances-then (Advances-then (append_u16-Advances 0) (append_u16-Advances 0x8400))
            (append_u16-Advances 0))
          (append_u16-Advances n))
        (append_u16-Advances 0))
      (append_u16-Advances 0)

srv_data-Advances :
    (hostname : List ℕ)
    → Advances (λ d.
      append_u16 0 d
      >>= append_u16 0
      >>= append_u16 http_port
      >>= append_dns_name (device_labels hostname))
srv_data-Advances hostname =
    Advances-then
      (Advances-then (Advances-then (append_u16-Advances 0) (append_u16-Advances 0))
        (append_u16-Advances http_port))
      (append_dns_name-Advances (device_labels hostname))

append_services-Advances : (hostname : List ℕ) → Advances (append_services hostname)
unfolding append_services
append_services-Advances hostname =
    Advances-then
      (Advances-then
        (Advances-then
          (Advances-then
            (Advances-then
              (Advances-then
                (Advances-then
                  (Advances-then (append_head-Advances services_labels 12 1)
                    (append_rdata-Advances (append_dns_name-Advances http_service_labels)))
                  (append_head-Advances http_service_labels 12 1))
                (append_rdata-Advances (append_dns_name-Advances (http_instance_labels hostname))))
              (append_head-Advances (http_instance_labels hostname) 33 0x8001))
            (append_rdata-Advances (srv_data-Advances hostname)))
          (append_head-Advances (http_instance_labels hostname) 16 0x8001))
        (append_u16-Advances 1))
      (append_bytes-Advances (0 ∷ []))

append_address-Advances :
    (hostname : List ℕ) (t size : ℕ) (ip : Option (List ℕ))
    → Advances (append_address hostname t size ip)
unfolding append_address
append_address-Advances hostname t size none = record {
  advanced = λ {size = n} c d inside e.
      subst (λ x. Inside n x × (c.i ≤ x.i)) (ap (cursor_or c) e) (inside, omega arith);
}
append_address-Advances hostname t size (some ip) =
    Advances-then
      (Advances-then (append_head-Advances (device_labels hostname) t 0x8001)
        (append_u16-Advances size))
      (append_bytes-Advances ip)

-- An announcement that is built lies in the buffer, which keeps its length, and none is built
-- without an address.
pub build_mdns_announcement-Inside :
    (hostname out : List ℕ) (ipv4 ipv6 : Option (List ℕ)) (c : Cursor)
    → build_mdns_announcement hostname ipv4 ipv6 out ≡ some c
    → (c.i ≤ length out) × (length c.buf ≡ length out) × ((is_some ipv4 || is_some ipv6) ≡ true)
unfolding build_mdns_announcement
build_mdns_announcement-Inside hostname out ipv4 ipv6 c e =
    let whole =
      Advances-then
        (Advances-then
          (Advances-then (append_answers_header-Advances _) (append_services-Advances hostname))
          (append_address-Advances hostname 1 4 ipv4))
        (append_address-Advances hostname 28 16 ipv6) in
    elim (Bool-cases (not (is_some ipv4) && not (is_some ipv6))) [
      | inl b ↦ let bad = (rw b at e) in absurd cc
      | inr b ↦
          let (inside, le) =
            whole.advanced (record { buf = out; i = 0 }) c
              (record { in_buffer = omega arith; same_size = refl }) (rw b at e) in
          let in_buffer = inside.in_buffer in
          let same_size = inside.same_size in
          (omega arith, same_size, either (is_some ipv4) (is_some ipv6) b)
    ]
  where
    either : (a b : Bool) → (not a && not b) ≡ false → (a || b) ≡ true
    either a b h = ground arith
