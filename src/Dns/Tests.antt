-- ===== src/Dns/Tests.antt =====
-- The codec of Protocol.cpp at concrete inputs.
use corosig.Prelude.{ℕ, ◌≡◌, refl, List, [], ◌∷◌, ◌++◌, some, arith}
use corosig.Dns.Errors.{ok}
use corosig.Dns.Span.{whole}
use corosig.Dns.Wire.{decode_compression_ptr, encode_compression_ptr}
use corosig.Dns.Wire.Octets.{decode_compression_ptr-encode_compression_ptr}
use corosig.Dns.Name.Denotes.{root, label}
use corosig.Dns.Labels.{labels, labels_of}
use corosig.Dns.Labels.Iterates.{labels_of-Denotes}
use corosig.Dns.Header.{Header, get_bitfield, set_bitfield, encode_header, qr, opcode_bits}
use corosig.Dns.Header.Fields.{response, opcode}
use corosig.Dns.Header.Laws.{get_bitfield-set_bitfield, get_bitfield-set_bitfield_ne}
use corosig.Dns.Decoder.{make, consume_header}
use corosig.Dns.Decoder.Headers.{header_octets, consume_header-encode_header}
use corosig.Dns.Decoder.Invariant.{Inv, header, question, record_entry, run, run-make-Inv}

decode_compression_ptr-encode_compression_ptr_example :
    decode_compression_ptr
      ((encode_compression_ptr (record { sent = []; written = 0 }) 300).sent ++ 9 ∷ [])
    ≡ some 300
decode_compression_ptr-encode_compression_ptr_example =
    decode_compression_ptr-encode_compression_ptr 300 (9 ∷ []) (omega arith)

-- The name "ab", and an octet of the buffer behind it.
abbrev name_ab : List ℕ
name_ab = 2 ∷ 97 ∷ 98 ∷ 0 ∷ []

labels_of-Denotes_example : labels_of (name_ab ++ 5 ∷ []) 2 2 0 ≡ labels ((97 ∷ 98 ∷ []) ∷ [])
labels_of-Denotes_example =
    labels_of-Denotes name_ab (5 ∷ []) 2 2 1 (whole name_ab) ((97 ∷ 98 ∷ []) ∷ []) 4 (omega arith)
      (omega arith) (omega arith)
      (label (0 ∷ []) refl (omega arith) (omega arith) (root [] refl refl refl) refl)
      (record { beyond = []; here = refl; inside = omega arith }) (omega arith) (omega arith)

get_bitfield-set_bitfield_example : get_bitfield opcode_bits (set_bitfield opcode_bits 0x8180 9) ≡ 9
get_bitfield-set_bitfield_example = get_bitfield-set_bitfield opcode 0x8180 9 (omega arith)

get_bitfield-set_bitfield_ne_example :
    get_bitfield qr (set_bitfield opcode_bits 0x8180 2) ≡ get_bitfield qr 0x8180
get_bitfield-set_bitfield_ne_example =
    get_bitfield-set_bitfield_ne opcode response 0x8180 2 (λ e. cc)

abbrev query : Header
query = record {
  id = 0x1234;
  flags = record { value = 0x0100 };
  qdcount = 1;
  ancount = 0;
  nscount = 0;
  arcount = 0;
}

consume_header-encode_header_example :
    consume_header (make ((encode_header (record { sent = []; written = 0 }) query).sent ++ 7 ∷ []))
    ≡ (
      record {
        original_message = header_octets query (7 ∷ []);
        remaining_message = record { start = 12; octets = 7 ∷ [] };
      },
      ok query,
    )
consume_header-encode_header_example = consume_header-encode_header query (7 ∷ []) (omega arith)

run-make-Inv_example : Inv (run 20 (header ∷ question ∷ record_entry ∷ []) (make name_ab))
run-make-Inv_example =
    run-make-Inv 20 name_ab (header ∷ question ∷ record_entry ∷ []) (omega arith) (omega arith)
