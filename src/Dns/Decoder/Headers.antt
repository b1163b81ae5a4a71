-- ===== src/Dns/Decoder/Headers.antt =====
-- `encode_header` of Protocol.hpp and `consume_header` of Protocol.cpp on the octets of a header.
use mathlib.Core.List.{append_assoc}
use corosig.Prelude.{ℕ, ◌+◌, ◌*◌, ◌/◌, ◌%◌, ◌<◌, ◌≡◌, ap, ◌∙◌, List, [], ◌∷◌, ◌++◌, arith}
use corosig.Dns.Errors.{ok}
use corosig.Dns.Wire.{CountingOutputIterator, read_ntoh}
use corosig.Dns.Wire.Octets.{write_hton_lem, read_ntoh_two}
use corosig.Dns.Header.{Header, encode_header}
use corosig.Dns.Decoder.{make, read_header, consume_header}

-- Every field is a number of 16 bits.
pub record IsWord16 (h : Header) : Type 0 where
  pub id_fits : h.id < 65536
  pub flags_fit : h.flags.value < 65536
  pub qdcount_fits : h.qdcount < 65536
  pub ancount_fits : h.ancount < 65536
  pub nscount_fits : h.nscount < 65536
  pub arcount_fits : h.arcount < 65536

abbrev octets_of : ℕ → List ℕ → List ℕ
octets_of v rest = v / 256 ∷ v % 256 ∷ rest

-- The twelve octets of a header, in front of others.
abbrev pub header_octets : Header → List ℕ → List ℕ
header_octets h rest = octets_of h.id (
    octets_of h.flags.value
      (octets_of h.qdcount (octets_of h.ancount (octets_of h.nscount (octets_of h.arcount rest)))))

pub encode_header_lem :
    (out : CountingOutputIterator) (h : Header)
    → IsWord16 h
    → encode_header out h
      ≡ record { sent = out.sent ++ header_octets h []; written = out.written + 12 }
unfolding encode_header
encode_header_lem out h w = rw (write_hton_lem out h.id w.id_fits) (
    rw (write_hton_lem _ h.flags.value w.flags_fit) (
      rw (write_hton_lem _ h.qdcount w.qdcount_fits) (
        rw (write_hton_lem _ h.ancount w.ancount_fits) (
          rw (write_hton_lem _ h.nscount w.nscount_fits)
            (rw (write_hton_lem _ h.arcount w.arcount_fits) (simp append_assoc (ground arith)))))))

read_word : (v : ℕ) (rest : List ℕ) → v < 65536 → read_ntoh 2 (octets_of v rest) ≡ (v, rest)
read_word v rest h =
    let whole : v / 256 * 256 + v % 256 ≡ v = omega arith in
    read_ntoh_two (v / 256) (v % 256) rest (omega arith) (omega arith)
    ∙ ap (λ (x : ℕ). (x, rest)) whole

read_header_lem : (h : Header) (rest : List ℕ) → IsWord16 h → read_header (header_octets h rest) ≡ h
unfolding read_header
read_header_lem h rest w = simp (
  read_word _ _ w.id_fits,
  read_word _ _ w.flags_fit,
  read_word _ _ w.qdcount_fits,
  read_word _ _ w.ancount_fits,
  read_word _ _ w.nscount_fits,
  read_word _ _ w.arcount_fits,
)

pub consume_header_octets :
    (h : Header) (rest : List ℕ)
    → IsWord16 h
    → consume_header (make (header_octets h rest)) ≡ (
      record {
        original_message = header_octets h rest;
        remaining_message = record { start = 12; octets = rest };
      },
      ok h,
    )
unfolding consume_header make
consume_header_octets h rest w = rw (read_header_lem h rest w) (ground arith)

-- What `encode_header` writes of a header whose fields have 16 bits, with anything behind it, is
-- read back by a new decoder as the same header, and the decoder is left at the octets behind it.
pub consume_header-encode_header :
    (h : Header) (rest : List ℕ)
    → IsWord16 h
    → consume_header (make ((encode_header (record { sent = []; written = 0 }) h).sent ++ rest)) ≡ (
      record {
        original_message = header_octets h rest;
        remaining_message = record { start = 12; octets = rest };
      },
      ok h,
    )
consume_header-encode_header h rest w =
    rw (encode_header_lem (record { sent = []; written = 0 }) h w) (consume_header_octets h rest w)
