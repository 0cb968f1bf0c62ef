-- ===== src/Server/Announce/Wire.antt =====
-- The bytes of the server's announcement.
use brewster.Common.{
  ℕ, suc, ◌+◌, ◌-◌, ◌%◌, ◌≤◌, ◌<◌, ◌≡◌, refl, sym, ap, ◌∙◌, Option, some, List, [], ◌∷◌, ◌++◌,
  append_assoc, arith, ◌>>=◌, length, drop, copy_at, All, length-append, length-drop,
}
use brewster.Common.Words.{be_bytes16, be_bytes32}
use brewster.Dns.{
  Cursor, IsLabel, name_bytes, between, Emits, write-Emits, Emits-then, Emits-same, copy_at-append,
}
use brewster.Dns.Drop.{drop-drop}
use brewster.Server.Announce.{
  put_u16, put_u32, put_name, put_rdata, service_labels, instance_labels, host_labels, put_header,
  put_ptr, put_txt, put_srv, put_a, build_mdns_packet,
}

-- A resource record.
abbrev pub record_bytes : List (List ℕ) → List ℕ → List ℕ → List ℕ
record_bytes labels meta rdata =
    name_bytes labels ++ (meta ++ (be_bytes32 120 ++ (be_bytes16 (length rdata) ++ rdata)))

put_name-Emits :
    (labels : List (List ℕ)) → All IsLabel labels → Emits (put_name labels) (name_bytes labels)
unfolding put_name name_bytes
put_name-Emits [] h = write-Emits (0 ∷ [])
put_name-Emits (l ∷ ls) ((lo, hi), h) = Emits-same (simp e refl) (
    Emits-then (Emits-then (write-Emits (length l % 256 ∷ [])) (write-Emits l))
      (put_name-Emits ls h))
  where
    e : length l % 256 ≡ length l
    e = omega arith

put_u16-Emits : (v : ℕ) → Emits (put_u16 v) (be_bytes16 v)
unfolding put_u16
put_u16-Emits v = write-Emits (be_bytes16 v)

put_u32-Emits : (v : ℕ) → Emits (put_u32 v) (be_bytes32 v)
unfolding put_u32
put_u32-Emits v = write-Emits (be_bytes32 v)

-- Two bytes behind `w` are overwritten, in front of `bs`.
overwritten :
    (w bs rest : List ℕ) (v : ℕ)
    → copy_at (((w ++ (0 ∷ 0 ∷ [])) ++ bs) ++ rest) (length w) (be_bytes16 v)
      ≡ (w ++ (be_bytes16 v ++ bs)) ++ rest
overwritten w bs rest v =
    ap (λ xs. copy_at xs (length w) (be_bytes16 v))
      (append_assoc (w ++ (0 ∷ 0 ∷ [])) bs rest ∙ append_assoc w (0 ∷ 0 ∷ []) (bs ++ rest))
    ∙ copy_at-append (be_bytes16 v) w (0 ∷ 0 ∷ (bs ++ rest)) (omega arith)
    ∙ append_assoc w (be_bytes16 v) (bs ++ rest)
    ∙ sym (append_assoc w (be_bytes16 v ++ bs) rest)

-- The placeholder is overwritten with the length of what follows.
put_rdata-Emits :
    {body : Cursor → Option Cursor} {bs : List ℕ}
    → length bs < 65536
    → Emits body bs
    → Emits (put_rdata body) (be_bytes16 (length bs) ++ bs)
unfolding put_rdata
put_rdata-Emits {body = body} {bs = bs} small e = record {
  emitted = λ w rest h.
      let n = length bs in
      let w2 = w ++ (0 ∷ 0 ∷ []) in
      let rest2 = drop n (drop 2 rest) in
      let two : 2 + n ≡ suc (suc n) = omega arith in
      let size = length-append w2 bs in
      let back : (length (w2 ++ bs) - length w2) % 65536 ≡ n = omega (arith, size, small) in
      let same_length : length (w2 ++ bs) ≡ length (w ++ (be_bytes16 n ++ bs)) =
        omega (arith, size, length-append w (be_bytes16 n ++ bs), length-append w (0 ∷ 0 ∷ [])) in
      ap (λ o. o >>= (λ s. body s >>= patch (between w rest) s))
        ((put_u16-Emits 0).emitted w rest (omega arith))
      ∙ ap (λ o. o >>= patch (between w rest) (between w2 (drop 2 rest)))
          (e.emitted w2 (drop 2 rest) (omega (arith, length-drop 2 rest)))
      ∙ ap some (
          ap
            (λ v. record {
              buf = copy_at ((w2 ++ bs) ++ rest2) (length w) (be_bytes16 v);
              i = length (w2 ++ bs);
            })
            back
          ∙ ap
              (λ k. record { buf = copy_at ((w2 ++ bs) ++ rest2) (length w) (be_bytes16 n); i = k })
              same_length
          ∙ ap (λ xs. record { buf = xs; i = length (w ++ (be_bytes16 n ++ bs)) })
              (overwritten w bs rest2 n
                ∙ ap (λ xs. (w ++ (be_bytes16 n ++ bs)) ++ xs)
                    ((drop-drop 2 n rest ∙ ap (λ k. drop k rest) two))));
}
  where
    patch : Cursor → Cursor → Cursor → Option Cursor
    patch c s d =
        some (record { buf = copy_at d.buf c.i (be_bytes16 ((d.i - s.i) % 65536)); i = d.i })

-- The name of a record and the three fields behind it.
abbrev head_bytes : List (List ℕ) → ℕ → ℕ → List ℕ
head_bytes labels rtype rclass =
    ((name_bytes labels ++ be_bytes16 rtype) ++ be_bytes16 rclass) ++ be_bytes32 120

head-Emits :
    (labels : List (List ℕ)) (rtype rclass : ℕ)
    → All IsLabel labels
    → Emits
        (λ c. put_name labels c >>= put_u16 rtype >>= put_u16 rclass >>= put_u32 120)
        (head_bytes labels rtype rclass)
head-Emits labels rtype rclass h =
    Emits-then
      (Emits-then (Emits-then (put_name-Emits labels h) (put_u16-Emits rtype))
        (put_u16-Emits rclass))
      (put_u32-Emits 120)

-- The fields and the data make the record.
whole-record :
    (labels : List (List ℕ)) (rtype rclass : ℕ) (rdata : List ℕ)
    → head_bytes labels rtype rclass ++ (be_bytes16 (length rdata) ++ rdata)
      ≡ record_bytes labels (be_bytes16 rtype ++ be_bytes16 rclass) rdata
whole-record labels rtype rclass rdata =
    append_assoc ((name_bytes labels ++ be_bytes16 rtype) ++ be_bytes16 rclass) (be_bytes32 120) _
    ∙ append_assoc (name_bytes labels ++ be_bytes16 rtype) (be_bytes16 rclass) _
    ∙ append_assoc (name_bytes labels) (be_bytes16 rtype) _

abbrev pub txt_data : List ℕ → List ℕ
txt_data txt_record = length txt_record % 256 ∷ txt_record

abbrev pub srv_data : List ℕ → ℕ → List ℕ
srv_data instance_name port =
    0 ∷ 0 ∷ 0 ∷ 0 ∷ be_bytes16 port ++ name_bytes (host_labels instance_name)

-- The announcement: a header and four records.
abbrev pub header_bytes : List ℕ
header_bytes = 0 ∷ 0 ∷ 0x84 ∷ 0 ∷ 0 ∷ 0 ∷ 0 ∷ 2 ∷ 0 ∷ 0 ∷ 0 ∷ 2 ∷ []

abbrev pub ptr_bytes : List ℕ → List ℕ
ptr_bytes name =
    record_bytes service_labels (0 ∷ 12 ∷ 0 ∷ 1 ∷ []) (name_bytes (instance_labels name))

abbrev pub txt_bytes : List ℕ → List ℕ → List ℕ
txt_bytes name txt = record_bytes (instance_labels name) (0 ∷ 16 ∷ 0x80 ∷ 1 ∷ []) (txt_data txt)

abbrev pub srv_bytes : List ℕ → ℕ → List ℕ
srv_bytes name port =
    record_bytes (instance_labels name) (0 ∷ 33 ∷ 0x80 ∷ 1 ∷ []) (srv_data name port)

abbrev pub a_bytes : List ℕ → List ℕ → List ℕ
a_bytes ip name = record_bytes (host_labels name) (0 ∷ 1 ∷ 0x80 ∷ 1 ∷ []) ip

abbrev pub announcement : List ℕ → ℕ → List ℕ → List ℕ → List ℕ
announcement ip port name txt =
    header_bytes ++ ptr_bytes name ++ txt_bytes name txt ++ srv_bytes name port ++ a_bytes ip name

pub service-IsLabel : All IsLabel service_labels
service-IsLabel = (
  (omega arith, omega arith),
  ((omega arith, omega arith), ((omega arith, omega arith), record {})),
)

pub host-IsLabel : (name : List ℕ) → IsLabel name → All IsLabel (host_labels name)
host-IsLabel name h = (h, ((omega arith, omega arith), record {}))

put_header-Emits : Emits put_header header_bytes
unfolding put_header
put_header-Emits =
    Emits-then
      (Emits-then
        (Emits-then
          (Emits-then (Emits-then (put_u16-Emits 0) (put_u16-Emits 0x8400)) (put_u16-Emits 0))
          (put_u16-Emits 2))
        (put_u16-Emits 0))
      (put_u16-Emits 2)

pub instance-small :
    (name : List ℕ) → IsLabel name → length (name_bytes (instance_labels name)) < 65536
unfolding name_bytes
instance-small name (lo, hi) = omega (arith, length-append name (name_bytes service_labels))

pub srv-small : (name : List ℕ) (port : ℕ) → IsLabel name → length (srv_data name port) < 65536
unfolding name_bytes
srv-small name port (lo, hi) =
    omega (arith, length-append name (name_bytes ((108 ∷ 111 ∷ 99 ∷ 97 ∷ 108 ∷ []) ∷ [])))

put_ptr-Emits : (name : List ℕ) → IsLabel name → Emits (put_ptr name) (ptr_bytes name)
unfolding put_ptr
put_ptr-Emits name h =
    Emits-same (whole-record service_labels 12 1 (name_bytes (instance_labels name))) (
      Emits-then (head-Emits service_labels 12 1 service-IsLabel) (
        put_rdata-Emits (instance-small name h)
          (put_name-Emits (instance_labels name) (h, service-IsLabel))))

no_overflow : (n : ℕ) → n < 65535 → (1 + n) % 65536 ≡ suc n
no_overflow n h = omega arith

put_txt-Emits :
    (name txt : List ℕ)
    → IsLabel name
    → length txt < 65535
    → Emits (put_txt name txt) (txt_bytes name txt)
unfolding put_txt
put_txt-Emits name txt h small =
    Emits-same
      (append_assoc
          (head_bytes (instance_labels name) 16 0x8001 ++ be_bytes16 ((1 + length txt) % 65536))
          (length txt % 256 ∷ []) txt
        ∙ append_assoc (head_bytes (instance_labels name) 16 0x8001)
            (be_bytes16 ((1 + length txt) % 65536)) (txt_data txt)
        ∙ ap (λ v. head_bytes (instance_labels name) 16 0x8001 ++ (be_bytes16 v ++ txt_data txt))
            (no_overflow (length txt) small)
        ∙ whole-record (instance_labels name) 16 0x8001 (txt_data txt))
      (Emits-then
        (Emits-then
          (Emits-then (head-Emits (instance_labels name) 16 0x8001 (h, service-IsLabel))
            (put_u16-Emits ((1 + length txt) % 65536)))
          (write-Emits (length txt % 256 ∷ [])))
        (write-Emits txt))

put_srv-Emits :
    (name : List ℕ) (port : ℕ) → IsLabel name → Emits (put_srv name port) (srv_bytes name port)
unfolding put_srv
put_srv-Emits name port h =
    Emits-same (whole-record (instance_labels name) 33 0x8001 (srv_data name port)) (
      Emits-then (head-Emits (instance_labels name) 33 0x8001 (h, service-IsLabel)) (
        put_rdata-Emits (srv-small name port h) (
          Emits-then
            (Emits-then (Emits-then (put_u16-Emits 0) (put_u16-Emits 0)) (put_u16-Emits port))
            (put_name-Emits (host_labels name) (host-IsLabel name h)))))

put_a-Emits :
    (ip name : List ℕ) → length ip ≡ 4 → IsLabel name → Emits (put_a ip name) (a_bytes ip name)
unfolding put_a
put_a-Emits ip name four h =
    Emits-same
      (append_assoc (head_bytes (host_labels name) 1 0x8001) (be_bytes16 4) ip
        ∙ ap (λ k. head_bytes (host_labels name) 1 0x8001 ++ (be_bytes16 k ++ ip)) (sym four)
        ∙ whole-record (host_labels name) 1 0x8001 ip)
      (Emits-then
        (Emits-then (head-Emits (host_labels name) 1 0x8001 (host-IsLabel name h))
          (put_u16-Emits 4))
        (write-Emits ip))

-- The builder writes its bytes in front of the buffer and leaves the rest.
pub build_mdns_packet-emitted :
    (ip : List ℕ) (port : ℕ) (name txt out : List ℕ)
    → length ip ≡ 4
    → IsLabel name
    → length txt < 65535
    → length (announcement ip port name txt) ≤ length out
    → build_mdns_packet ip port name txt out
      ≡ some (
          between
            (announcement ip port name txt)
            (drop (length (announcement ip port name txt)) out))
unfolding build_mdns_packet
build_mdns_packet-emitted ip port name txt out four h small room =
    (Emits-then
        (Emits-then
          (Emits-then (Emits-then put_header-Emits (put_ptr-Emits name h))
            (put_txt-Emits name txt h small))
          (put_srv-Emits name port h))
        (put_a-Emits ip name four h)).emitted
      [] out room

-- The announcement with the length of the text as it is.
abbrev pub exact_announcement : List ℕ → ℕ → List ℕ → List ℕ → List ℕ
exact_announcement ip port name txt =
    header_bytes
    ++ ptr_bytes name
    ++ record_bytes (instance_labels name) (0 ∷ 16 ∷ 0x80 ∷ 1 ∷ []) (length txt ∷ txt)
    ++ srv_bytes name port
    ++ a_bytes ip name

-- For an instance name that is a DNS label and a text of at most 255 bytes, where the announcement
-- fits in the buffer, `build_mdns_packet` writes it in front and leaves the rest of the buffer as it
-- was: a header that counts two answers and two additional records, and the four records, in which
-- the length of every label, of the text and of each record's data stands in front of it.
pub build_mdns_packet-announcement :
    (ip : List ℕ) (port : ℕ) (name txt out : List ℕ)
    → length ip ≡ 4
    → IsLabel name
    → length txt < 256
    → length (exact_announcement ip port name txt) ≤ length out
    → build_mdns_packet ip port name txt out
      ≡ some (
          between
            (exact_announcement ip port name txt)
            (drop (length (exact_announcement ip port name txt)) out))
build_mdns_packet-announcement ip port name txt out four h small room =
    let byte : length txt % 256 ≡ length txt = omega arith in
    let exact : announcement ip port name txt ≡ exact_announcement ip port name txt =
      ap
        (λ n.
          header_bytes
          ++ ptr_bytes name
          ++ record_bytes (instance_labels name) (0 ∷ 16 ∷ 0x80 ∷ 1 ∷ []) (n ∷ txt)
          ++ srv_bytes name port
          ++ a_bytes ip name)
        byte in
    build_mdns_packet-emitted ip port name txt out four h (omega arith)
      (omega (arith, ap length exact, room))
    ∙ ap (λ xs. some (between xs (drop (length xs) out))) exact
