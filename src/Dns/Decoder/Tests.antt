-- ===== src/Dns/Decoder/Tests.antt =====
-- A resource record at a concrete input.
use corosig.Prelude.{ℕ, refl, List, [], ◌∷◌, arith}
use corosig.Dns.Span.{whole, Advances}
use corosig.Dns.Rdata.{ipv4}
use corosig.Dns.Decoder.{make, consume_resource_record}
use corosig.Dns.Decoder.Invariant.{make-Inv, consume_resource_record-Advances}

-- An A record with the root for its name.
abbrev record_a : List ℕ
record_a = 0 ∷ 0 ∷ 1 ∷ 0 ∷ 1 ∷ 0 ∷ 0 ∷ 0 ∷ 60 ∷ 0 ∷ 4 ∷ 127 ∷ 0 ∷ 0 ∷ 1 ∷ []

consume_resource_record-Advances_example :
    Advances 10 (whole record_a) (consume_resource_record 1 (make record_a)).0.remaining_message
unfolding make consume_resource_record corosig.Dns.Name.parse_domain_name
    corosig.Dns.Wire.decode_compression_ptr corosig.Dns.Wire.read_ntoh corosig.Dns.Name.decode_label
    corosig.Dns.Wire.consume_2_octets corosig.Dns.Wire.consume_4_octets
    corosig.Dns.Rdata.parse_rdata
consume_resource_record-Advances_example =
    consume_resource_record-Advances 1 (make record_a)
      (record {
        name = record { self_start = 0 };
        rdata = ipv4 (record { octets = 127 ∷ 0 ∷ 0 ∷ 1 ∷ [] });
        ttl = 60;
      })
      (make-Inv record_a (omega arith) (omega arith)) refl
