-- ===== src/Mdns/Service/RoundTrip.antt =====
-- The device finds the server in the announcement that server/src/discovery.rs builds.
use brewster.Common.{
  ℕ, suc, ◌+◌, ◌≤◌, ◌<◌, ◌≡◌, refl, ap, ◌∙◌, false, Option, List, [], ◌∷◌, ◌++◌, append_assoc,
  arith, ltb, leb, length, All, length-append,
}
use brewster.Common.Words.{be_bytes16, from_be16}
use brewster.Dns.{IsLabel, name_bytes}
use brewster.Dns.Drop.{From, From-append}
use brewster.Mdns.Service.{u16_at, walk_records, walk_rdata, take_record, Found}
use brewster.Mdns.Service.Names.{skip_labels-name, slice-From}
use brewster.Server.Announce.Wire.{record_bytes}
use brewster.Dns.Drop.{take-append}
use brewster.Server.Announce.{build_mdns_packet}
use brewster.Server.Announce.Wire.{
  build_mdns_packet-emitted, record_bytes, announcement, ptr_bytes, txt_bytes, srv_bytes, a_bytes,
  txt_data, srv_data, instance-small, srv-small, service-IsLabel, host-IsLabel,
}
use brewster.Mdns.Service.{skip_questions, try_find_brewster_service, nothing_found, brewster_label}
use brewster.Mdns.Service.Names.{has_label-first}
use brewster.Server.Announce.{service_labels, instance_labels, host_labels}
use brewster.Common.{some}
use brewster.Common.{true}
use brewster.Common.{take}
use brewster.Common.{sym}
use brewster.Common.{append-nil}
use brewster.Common.{◌==◌, ◌>>=◌}
use brewster.Common.{drop}
use brewster.Mdns.Service.Names.{u16-From, whole-From}
use brewster.Mdns.Service.Names.{read_u16}

-- The record's data, after its name and the fields.
walk_rdata-fields :
    (packet : List ℕ) (off a t1 t2 c1 c2 : ℕ) (rdata rest : List ℕ) (found : Found)
    (next : ℕ → Found → Option Found)
    → length rdata < 65536
    → From packet a
        (t1 ∷ t2 ∷ c1 ∷ c2 ∷ 0 ∷ 0 ∷ 0 ∷ 120 ∷ be_bytes16 (length rdata) ++ (rdata ++ rest))
    → walk_rdata packet off found a next
      ≡ next (a + 10 + length rdata) (take_record packet off (from_be16 t1 t2) rdata found)
walk_rdata-fields packet off a t1 t2 c1 c2 rdata rest found next small h =
    let fields = t1 ∷ t2 ∷ c1 ∷ c2 ∷ 0 ∷ 0 ∷ 0 ∷ 120 ∷ be_bytes16 (length rdata) in
    let total = whole-From packet a (fields ++ (rdata ++ rest)) (omega arith) h in
    let sum = length-append rdata rest in
    let start : a ≡ a + 0 = omega arith in
    let rtype : u16_at packet a ≡ from_be16 t1 t2 =
      ap (u16_at packet) start ∙ u16-From packet a 0 (fields ++ (rdata ++ rest)) h in
    let rdlen : u16_at packet (a + 8) ≡ length rdata =
      u16-From packet a 8 (fields ++ (rdata ++ rest)) h ∙ read_u16 (length rdata) small in
    let room : ltb (length packet) (a + 10) ≡ false = ground (arith, total) in
    let fits : ltb (length packet) (a + 10 + length rdata) ≡ false = ground (arith, total, sum) in
    rw
      (
        rtype,
        rdlen,
        room,
        fits,
        slice-From packet (a + 10) rdata rest (From-append packet a fields (rdata ++ rest) h),
      )
      refl

-- A record is read, and the walk goes on behind it.
walk_records-record :
    (n : ℕ) (packet : List ℕ) (off : ℕ) (labels : List (List ℕ)) (t1 t2 c1 c2 : ℕ)
    (rdata rest : List ℕ) (found : Found)
    → All IsLabel labels
    → length labels ≤ 16
    → length rdata < 65536
    → From packet off (record_bytes labels (t1 ∷ t2 ∷ c1 ∷ c2 ∷ []) rdata ++ rest)
    → walk_records (suc n) packet off found
      ≡ walk_records n packet
          (off + length (record_bytes labels (t1 ∷ t2 ∷ c1 ∷ c2 ∷ []) rdata))
          (take_record packet off (from_be16 t1 t2) rdata found)
unfolding walk_records
walk_records-record n packet off labels t1 t2 c1 c2 rdata rest found hl few small h =
    let fields = t1 ∷ t2 ∷ c1 ∷ c2 ∷ 0 ∷ 0 ∷ 0 ∷ 120 ∷ be_bytes16 (length rdata) in
    let name = name_bytes labels in
    let at_name : From packet off (name ++ (fields ++ (rdata ++ rest))) =
      h
      ∙ append_assoc name (fields ++ rdata) rest
      ∙ ap (λ t. name ++ t) (append_assoc fields rdata rest) in
    let total =
      whole-From packet off (name ++ (fields ++ (rdata ++ rest)))
        (omega (arith, length-append name (fields ++ (rdata ++ rest)))) at_name in
    let inside : leb (length packet) off ≡ false =
      ground (arith, total, length-append name (fields ++ (rdata ++ rest))) in
    let size : off + length name + 10 + length rdata
        ≡ off + length (record_bytes labels (t1 ∷ t2 ∷ c1 ∷ c2 ∷ []) rdata) =
      omega (arith, length-append name (fields ++ rdata)) in
    rw (inside, skip_labels-name labels 16 packet off (fields ++ (rdata ++ rest)) hl few at_name)
      (walk_rdata-fields packet off (off + length name) t1 t2 c1 c2 rdata rest found
          (walk_records n packet) small
          (From-append packet off name (fields ++ (rdata ++ rest)) at_name)
        ∙ ap (λ o. walk_records n packet o (take_record packet off (from_be16 t1 t2) rdata found))
            size)

-- What each of the four records adds.
take_record-ptr :
    (packet : List ℕ) (rdata fields s : List ℕ)
    → From packet 12 ((name_bytes service_labels ++ fields) ++ s)
    → take_record packet 12 12 rdata nothing_found
      ≡ record nothing_found { has_brewster_ptr = true }
unfolding take_record name_bytes
take_record-ptr packet rdata fields s h =
    rw (has_label-first 16 packet 12 brewster_label _ (omega arith, omega arith) h) refl

take_record-txt :
    (packet : List ℕ) (off : ℕ) (rdata : List ℕ) (found : Found)
    → take_record packet off 16 rdata found ≡ found
unfolding take_record
take_record-txt packet off rdata found = refl

take_record-srv :
    (packet : List ℕ) (off port : ℕ) (name : List ℕ) (found : Found)
    → port < 65536
    → take_record packet off 33 (srv_data name port) found ≡ record found { srv_port = some port }
unfolding take_record
take_record-srv packet off port name found small =
    let long : leb 6 (length (srv_data name port)) ≡ true = ground arith in
    rw (long, read_u16 port small) refl

take_record-a :
    (packet : List ℕ) (off : ℕ) (ip : List ℕ) (found : Found)
    → length ip ≡ 4
    → take_record packet off 1 ip found ≡ record found { a_ip = some ip }
unfolding take_record
take_record-a packet off ip found four =
    let same_bytes : take 4 ip ≡ ip =
      ap (λ n. take n ip) (sym four)
      ∙ ap (take (length ip)) (sym (append-nil ip))
      ∙ take-append ip [] in
    let size : (length ip == 4) ≡ true = ground (arith, four) in rw (size, same_bytes) refl

walk_records-announcement :
    (ip : List ℕ) (port : ℕ) (name txt : List ℕ)
    → length ip ≡ 4
    → port < 65536
    → IsLabel name
    → length txt < 65535
    → walk_records 4 (announcement ip port name txt) 12 nothing_found
      ≡ some (record { has_brewster_ptr = true; srv_port = some port; a_ip = some ip })
walk_records-announcement ip port name txt four small h txt_small =
    let packet = announcement ip port name txt in
    let ptr = ptr_bytes name in
    let text = txt_bytes name txt in
    let srv = srv_bytes name port in
    let a = a_bytes ip name in
    let o2 = 12 + length ptr in
    let o3 = o2 + length text in
    let o4 = o3 + length srv in
    let f1 = record nothing_found { has_brewster_ptr = true } in
    let f2 = record f1 { srv_port = some port } in
    let at1 : From packet 12 (ptr ++ (text ++ (srv ++ (a ++ [])))) =
      append_assoc (ptr ++ text) srv a
      ∙ append_assoc ptr text (srv ++ a)
      ∙ ap (λ t. ptr ++ (text ++ (srv ++ t))) (sym (append-nil a)) in
    let at2 = From-append packet 12 ptr (text ++ (srv ++ (a ++ []))) at1 in
    let at3 = From-append packet o2 text (srv ++ (a ++ [])) at2 in
    let at4 = From-append packet o3 srv (a ++ []) at3 in
    let data1 = name_bytes (instance_labels name) in
    walk_records-record 3 packet 12 service_labels 0 12 0 1 data1 (text ++ (srv ++ (a ++ [])))
      nothing_found service-IsLabel (omega arith) (instance-small name h) at1
    ∙ ap (walk_records 3 packet o2)
        (take_record-ptr packet data1 _ (text ++ (srv ++ (a ++ []))) at1)
    ∙ walk_records-record 2 packet o2 (instance_labels name) 0 16 0x80 1 (txt_data txt)
        (srv ++ (a ++ [])) f1 (h, service-IsLabel) (omega arith) (omega arith) at2
    ∙ ap (walk_records 2 packet o3) (take_record-txt packet o2 (txt_data txt) f1)
    ∙ walk_records-record 1 packet o3 (instance_labels name) 0 33 0x80 1 (srv_data name port)
        (a ++ []) f1 (h, service-IsLabel) (omega arith) (srv-small name port h) at3
    ∙ ap (walk_records 1 packet o4) (take_record-srv packet o3 port name f1 small)
    ∙ walk_records-record 0 packet o4 (host_labels name) 0 1 0x80 1 ip [] f2 (host-IsLabel name h)
        (omega arith) (omega (arith, four)) at4
    ∙ walk_records-none packet (o4 + length a) _
    ∙ ap some (take_record-a packet o4 ip f2 four)
  where
    walk_records-none :
        (packet : List ℕ) (off : ℕ) (found : Found) → walk_records 0 packet off found ≡ some found
    walk_records-none packet off found = unfold walk_records in refl

try_find-announcement :
    (ip : List ℕ) (port : ℕ) (name txt : List ℕ)
    → length ip ≡ 4
    → port < 65536
    → IsLabel name
    → length txt < 65535
    → try_find_brewster_service (announcement ip port name txt) ≡ some (ip, port)
unfolding try_find_brewster_service skip_questions
try_find-announcement ip port name txt four small h txt_small =
    let packet = announcement ip port name txt in
    let long : ltb (length packet) 12 ≡ false = ground arith in
    rw (long, walk_records-announcement ip port name txt four small h txt_small) refl

-- The device finds the server at its address and port in the packet that the server announces
-- them with: for an instance name that is a DNS label, and where the packet fits in the buffer.
pub try_find_brewster_service-build_mdns_packet :
    (ip : List ℕ) (port : ℕ) (name txt out : List ℕ)
    → length ip ≡ 4
    → port < 65536
    → IsLabel name
    → length txt < 65535
    → length (announcement ip port name txt) ≤ length out
    → build_mdns_packet ip port name txt out >>= (λ c. try_find_brewster_service (take c.i c.buf))
      ≡ some (ip, port)
try_find_brewster_service-build_mdns_packet ip port name txt out four small h txt_small room =
    rw
      (
        build_mdns_packet-emitted ip port name txt out four h txt_small room,
        take-append (announcement ip port name txt)
            (drop (length (announcement ip port name txt)) out),
      )
      (try_find-announcement ip port name txt four small h txt_small)
