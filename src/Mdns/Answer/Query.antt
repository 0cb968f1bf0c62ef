-- ===== src/Mdns/Answer/Query.antt =====
-- A whole query for the device's name, and the packet that answers it.
use brewster.Common.{
  ℕ, suc, ◌+◌, ◌%◌, ◌≤◌, ◌≡◌, refl, ap, ◌∙◌, Bool, true, false, not, ◌&&◌, ◌||◌, Option, none, some,
  List, [], ◌∷◌, ◌++◌, append-nil, append_assoc, arith, ltb, ◌==◌, length, take, drop,
  length-append,
}
use brewster.Common.Words.{IsU16, be_bytes16}
use Prim.Native.Nat.{bit_and}
use brewster.Dns.{Cursor, IsLabel, name_bytes}
use brewster.Dns.Drop.{From, From-append}
use brewster.Mdns.Service.{u16_at}
use brewster.Mdns.Service.Names.{u16-From, whole-From, read_u16}
use brewster.Mdns.Answer.{
  question_matches_hostname, find_question, response_pieces, build_mdns_response, answer_of,
  local_label, MdnsQuestionMatch, bytes_eq_ascii_ignore_case, question_step,
}
use brewster.Mdns.Answer.Reply.{concat, put_all-concat, dns_name_matches_host_local-two}
use brewster.Dns.Drop.{take-append}

-- A query whose first question is for the name of two labels, `l` and `l2`.
abbrev pub query_bytes : (id0 id1 : ℕ) → (ℕ → ℕ) → List ℕ → List ℕ → ℕ → ℕ → List ℕ → List ℕ
query_bytes id0 id1 c l l2 qtype qclass more =
    id0 ∷ id1 ∷ c 0 ∷ c 1 ∷ 0 ∷ 1 ∷ c 2 ∷ c 3 ∷ c 4 ∷ c 5 ∷ c 6 ∷ c 7 ∷ length l ∷ l
    ++ (length l2 ∷ l2 ++ (0 ∷ (be_bytes16 qtype ++ (be_bytes16 qclass ++ more))))

-- One answer: the question again, and an A record under a pointer to its name.
abbrev pub answer_bytes : (id0 id1 : ℕ) → List ℕ → ℕ → ℕ → List ℕ → List ℕ
answer_bytes id0 id1 hostname qtype qclass ip =
    (id0 ∷ id1 ∷ 0x84 ∷ 0 ∷ 0 ∷ 1 ∷ 0 ∷ 1 ∷ 0 ∷ 0 ∷ 0 ∷ 0 ∷ [])
    ++ (name_bytes (hostname ∷ local_label ∷ [])
        ++ (be_bytes16 qtype
            ++ (be_bytes16 qclass
                ++ (0xC0 ∷ 12 ∷ 0 ∷ 1 ∷ 0x80 ∷ 1 ∷ 0 ∷ 0 ∷ 0 ∷ 120 ∷ 0 ∷ 4 ∷ ip))))

abbrev asked : ℕ → ℕ → MdnsQuestionMatch
asked qtype qclass = record {
  prefer_unicast_response = not (bit_and qclass 0x8000 == 0);
  qtype = qtype;
  qclass_raw = qclass;
}

-- The device answers A questions and ANY questions.
abbrev pub asks_address : ℕ → ℕ → Bool
asks_address qtype qclass = bit_and qclass 0x7fff == 1 && (qtype == 1 || qtype == 255)

question_step-asked :
    (query rest : List ℕ) (next qtype qclass : ℕ) (continue : ℕ → Option MdnsQuestionMatch)
    → From query next (be_bytes16 qtype ++ (be_bytes16 qclass ++ rest))
    → IsU16 qtype
    → IsU16 qclass
    → asks_address qtype qclass ≡ true
    → question_step query (true, next) continue ≡ some (asked qtype qclass)
question_step-asked query rest next qtype qclass continue h ht hc asks =
    let s = be_bytes16 qtype ++ (be_bytes16 qclass ++ rest) in
    let n = whole-From query next s (omega arith) h in
    let room : ltb (length query) (next + 4) ≡ false = ground (arith, n) in
    let zero_off : next ≡ next + 0 = omega arith in
    let rtype : u16_at query next ≡ qtype =
      ap (u16_at query) zero_off ∙ u16-From query next 0 s h ∙ read_u16 qtype ht in
    let rclass : u16_at query (next + 2) ≡ qclass =
      u16-From query next 2 s h ∙ read_u16 qclass hc in
    rw (room, rtype, rclass, asks) refl

question_matches_hostname-query :
    (id0 id1 : ℕ) (c : ℕ → ℕ) (hostname l l2 more : List ℕ) (qtype qclass : ℕ)
    → IsLabel l
    → IsLabel l2
    → bytes_eq_ascii_ignore_case l hostname ≡ true
    → bytes_eq_ascii_ignore_case l2 local_label ≡ true
    → IsU16 qtype
    → IsU16 qclass
    → asks_address qtype qclass ≡ true
    → question_matches_hostname (query_bytes id0 id1 c l l2 qtype qclass more) hostname
      ≡ some (asked qtype qclass)
unfolding question_matches_hostname find_question
question_matches_hostname-query id0 id1 c hostname l l2 more qtype qclass hl hl2 e1 e2 ht hc asks =
    let query = query_bytes id0 id1 c l l2 qtype qclass more in
    let tail = be_bytes16 qtype ++ (be_bytes16 qclass ++ more) in
    let at1 : From query 12 (length l ∷ l ++ (length l2 ∷ l2 ++ (0 ∷ tail))) = refl in
    let at2 = From-append query 12 (length l ∷ l) (length l2 ∷ l2 ++ (0 ∷ tail)) at1 in
    let at3 = From-append query (12 + suc (length l)) (length l2 ∷ l2) (0 ∷ tail) at2 in
    let at4 = From-append query (12 + suc (length l) + suc (length l2)) (0 ∷ []) tail at3 in
    let long : ltb (length query) 12 ≡ false = ground arith in
    rw (long, dns_name_matches_host_local-two query hostname l l2 tail 12 hl hl2 e1 e2 at1)
      (question_step-asked query more (12 + suc (length l) + suc (length l2) + 1) qtype qclass
        (λ o. none) at4 ht hc asks)

answer_of-asked :
    (qtype qclass : ℕ) (ip : List ℕ) (ipv6 : Option (List ℕ))
    → asks_address qtype qclass ≡ true
    → answer_of qtype (some ip) ipv6 ≡ some (1, ip)
unfolding answer_of
answer_of-asked qtype qclass ip ipv6 asks = ground arith

concat-answer :
    (id0 id1 : ℕ) (c : ℕ → ℕ) (hostname l l2 more ip : List ℕ) (qtype qclass : ℕ)
    → IsLabel hostname
    → concat (
        response_pieces
          (query_bytes id0 id1 c l l2 qtype qclass more)
          hostname
          (asked qtype qclass)
          1
          ip)
      ≡ answer_bytes id0 id1 hostname qtype qclass ip
unfolding name_bytes
concat-answer id0 id1 c hostname l l2 more ip qtype qclass (lo, hi) =
    let e : length hostname % 256 ≡ length hostname = omega arith in
    rw (e, append-nil ip, append_assoc hostname) refl

length-answer :
    (id0 id1 : ℕ) (hostname : List ℕ) (qtype qclass : ℕ) (ip : List ℕ)
    → length ip ≡ 4
    → length (answer_bytes id0 id1 hostname qtype qclass ip) ≡ length hostname + 40
unfolding name_bytes
length-answer id0 id1 hostname qtype qclass ip four =
    let name : List ℕ = 5 ∷ 108 ∷ 111 ∷ 99 ∷ 97 ∷ 108 ∷ 0 ∷ [] in
    let rest =
      be_bytes16 qtype
      ++ (be_bytes16 qclass ++ (0xC0 ∷ 12 ∷ 0 ∷ 1 ∷ 0x80 ∷ 1 ∷ 0 ∷ 0 ∷ 0 ∷ 120 ∷ 0 ∷ 4 ∷ ip)) in
    omega (arith, length-append (hostname ++ name) rest, length-append hostname name, four)

-- `&send_buf[..n]`
abbrev pub sent : Option (Cursor × MdnsQuestionMatch) → Option (List ℕ × MdnsQuestionMatch)
sent none = none
sent (some (c, question)) = some (take c.i c.buf, question)

-- A query for the device's name under `local`, in letters of any case, that asks for an address
-- is answered with the device's IPv4 address, under the query's id, where the answer fits in
-- the buffer.
pub build_mdns_response-query :
    (id0 id1 : ℕ) (c : ℕ → ℕ) (hostname l l2 more ip out : List ℕ) (ipv6 : Option (List ℕ))
    (qtype qclass : ℕ)
    → IsLabel hostname
    → IsLabel l
    → IsLabel l2
    → bytes_eq_ascii_ignore_case l hostname ≡ true
    → bytes_eq_ascii_ignore_case l2 local_label ≡ true
    → IsU16 qtype
    → IsU16 qclass
    → asks_address qtype qclass ≡ true
    → length ip ≡ 4
    → length hostname + 40 ≤ length out
    → sent (
        build_mdns_response
          (query_bytes id0 id1 c l l2 qtype qclass more)
          hostname
          (some ip)
          ipv6
          out)
      ≡ some (answer_bytes id0 id1 hostname qtype qclass ip, asked qtype qclass)
unfolding build_mdns_response answer_of
build_mdns_response-query id0 id1 c hostname l l2 more ip out ipv6 qtype qclass hh hl hl2 e1 e2 ht
      hc asks four room =
    rw
      (question_matches_hostname-query id0 id1 c hostname l l2 more qtype qclass hl hl2 e1 e2 ht hc
        asks)
      (let question = asked qtype qclass in
        let query = query_bytes id0 id1 c l l2 qtype qclass more in
        let pieces = response_pieces query hostname question 1 ip in
        let same_bytes = concat-answer id0 id1 c hostname l l2 more ip qtype qclass hh in
        let size = length-answer id0 id1 hostname qtype qclass ip four in
        let whole = ap length same_bytes in
        let fits : ltb (length out) (12 + (length hostname + 12) + 12 + 4) ≡ false =
          ground (arith, room) in
        rw
          (
            answer_of-asked qtype qclass ip ipv6 asks,
            fits,
            put_all-concat pieces [] out (omega (arith, size, whole)),
            take-append (concat pieces) (drop (length (concat pieces)) out),
            same_bytes,
          )
          refl)
