-- ===== src/Dns/Decoder.antt =====
-- `ResponseDecoder` of Protocol.hpp and Protocol.cpp. A method returns the decoder after the call
-- and its result. `ptr_fuel` is handed on to `parse_domain_name`.
pub mod Invariant
pub mod Headers
pub mod Questions
mod Tests
use corosig.Prelude.{ℕ, ◌+◌, ◌%◌, List, [], ◌∷◌, length, take, ltb, if◌then◌else◌}
use corosig.Dns.Errors
use corosig.Dns.Errors.{Outcome, ok, fail, diverge, ◌>>=◌}
use corosig.Dns.Span.{Span, whole, subspan}
use corosig.Dns.Wire.{read_ntoh, consume_2_octets, consume_4_octets}
use corosig.Dns.Name.{DomainName, ParseDomainNameSuccess, parse_domain_name}
use corosig.Dns.Header.{Header}
use corosig.Dns.Rdata.{RData, require, parse_rdata}

pub record ResponseDecoder : Type 0 where
  pub original_message : List ℕ
  pub remaining_message : Span

-- The constructor.
pub make : List ℕ → ResponseDecoder
make response = record { original_message = response; remaining_message = whole response }

-- `invalidate` of any decoder.
pub invalidated : ResponseDecoder
invalidated = record { original_message = []; remaining_message = whole [] }

-- The six reads of `consume_header`, one behind the other.
read_header : List ℕ → Header
read_header octets =
    let (id, it1) = read_ntoh 2 octets in
    let (flags, it2) = read_ntoh 2 it1 in
    let (qdcount, it3) = read_ntoh 2 it2 in
    let (ancount, it4) = read_ntoh 2 it3 in
    let (nscount, it5) = read_ntoh 2 it4 in
    let (arcount, it6) = read_ntoh 2 it5 in
    record {
      id = id;
      flags = record { value = flags };
      qdcount = qdcount;
      ancount = ancount;
      nscount = nscount;
      arcount = arcount;
    }

pub consume_header : ResponseDecoder → ResponseDecoder × Outcome Header
consume_header d =
    if ltb (length d.remaining_message.octets) 12
    then (d, fail Errors.wrong_header_bytes_count)
    else (
      record d { remaining_message = subspan 12 d.remaining_message },
      ok (read_header d.remaining_message.octets),
    )

pub record DecodeQuestionEntrySuccess : Type 0 where
  pub name : DomainName
  pub qtype : ℕ
  pub qclass : ℕ

pub record ResourceRecord : Type 0 where
  pub name : DomainName
  pub rdata : RData
  pub ttl : ℕ

-- A call that fails invalidates the decoder; else the rest of the message is stored.
commit {ℓ} : {A : Type ℓ} → ResponseDecoder → Outcome (A × Span) → ResponseDecoder × Outcome A
unfolding invalidated
commit d (ok (a, rest)) = (record d { remaining_message = rest }, ok a)
commit d (fail e) = (invalidated, fail e)
commit d diverge = (d, diverge)

-- The results of `QueryType(*qtype)` and `QueryClass(*qclass)` have the underlying type uint8_t.
question_entry : ℕ → List ℕ → Span → Outcome (DecodeQuestionEntrySuccess × Span)
unfolding require
question_entry ptr_fuel message s = do
  name ← parse_domain_name ptr_fuel message s
  (qtype, s2) ← require Errors.no_question_type (consume_2_octets (subspan name.bytes_to_consume s))
  (qclass, s3) ← require Errors.no_question_class (consume_2_octets s2)
  ok (record { name = name.domain_name; qtype = qtype % 256; qclass = qclass % 256 }, s3)

pub consume_question_entry :
    ℕ → ResponseDecoder → ResponseDecoder × Outcome DecodeQuestionEntrySuccess
unfolding commit question_entry
consume_question_entry ptr_fuel d =
    commit d (question_entry ptr_fuel d.original_message d.remaining_message)

-- RDATA of `rdlen` octets, which must be there.
rdata_entry : ℕ → List ℕ → ℕ → ℕ → Span → Outcome (RData × Span)
rdata_entry ptr_fuel message rtype rdlen s =
    if ltb (length s.octets) rdlen then fail Errors.resource_record_data_len_oob else (do
      rdata ←
          parse_rdata ptr_fuel message rtype
            (record { start = s.start; octets = take rdlen s.octets })
      ok (rdata, subspan rdlen s))

resource_record : ℕ → List ℕ → Span → Outcome (ResourceRecord × Span)
unfolding require rdata_entry
resource_record ptr_fuel message s = do
  name ← parse_domain_name ptr_fuel message s
  (rtype, s2) ←
      require Errors.no_resource_record_type (consume_2_octets (subspan name.bytes_to_consume s))
  (rclass, s3) ← require Errors.no_resource_record_class (consume_2_octets s2)
  (ttl, s4) ← require Errors.no_resource_record_ttl (consume_4_octets s3)
  (rdlen, s5) ← require Errors.no_resource_record_data_len (consume_2_octets s4)
  (rdata, s6) ← rdata_entry ptr_fuel message rtype rdlen s5
  ok (record { name = name.domain_name; rdata = rdata; ttl = ttl }, s6)

pub consume_resource_record : ℕ → ResponseDecoder → ResponseDecoder × Outcome ResourceRecord
unfolding commit resource_record
consume_resource_record ptr_fuel d =
    commit d (resource_record ptr_fuel d.original_message d.remaining_message)
