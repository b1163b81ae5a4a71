-- ===== src/Dns/Decoder/Questions.antt =====
-- `consume_question_entry` at a name of RFC 1035 with a type and a class behind it.
use corosig.Prelude.{
  ℕ, ◌+◌, ◌*◌, ◌/◌, ◌%◌, ◌≤◌, ◌<◌, ◌≡◌, refl, List, [], ◌∷◌, ◌++◌, some, drop, arith,
}
use corosig.Dns.Errors.{ResponseDecodeError, ok, fail}
use corosig.Dns.Span.{Span, IsBytes}
use corosig.Dns.Wire.{consume_2_octets}
use corosig.Dns.Wire.Octets.{read_ntoh_two}
use corosig.Dns.Name.Denotes.{IsMessage, Denotes, name_len}
use corosig.Dns.Name.Complete.{parse_domain_name_complete}
use corosig.Dns.Rdata.{require}
use corosig.Dns.Name.{parse_domain_name}
use corosig.Dns.Decoder.{
  ResponseDecoder, invalidated, commit, question_entry, consume_question_entry,
}

-- The octets of a number of 16 bits.
abbrev pub word_octets : ℕ → List ℕ
word_octets v = v / 256 ∷ v % 256 ∷ []

consume_2_octets_lem :
    (start v : ℕ) (rest : List ℕ)
    → v < 65536
    → consume_2_octets (record { start = start; octets = word_octets v ++ rest })
      ≡ some (v, record { start = start + 2; octets = rest })
unfolding consume_2_octets
consume_2_octets_lem start v rest h =
    let e : v / 256 * 256 + v % 256 ≡ v = omega arith in
    rw (read_ntoh_two (v / 256) (v % 256) rest (omega arith) (omega arith)) (rw e (ground arith))

-- At a name of RFC 1035 that takes at most 255 octets, uncompressed and in place, with the octets
-- of a type and a class behind it, and on more fuel than the name has steps,
-- `consume_question_entry` returns the place of the name with the type and the class, each cut to
-- the 8 bits of its type, and leaves the decoder at the octets behind them.
pub consume_question_entry-Denotes :
    (ptr_fuel : ℕ) (m : List ℕ) (s : Span) (h : ℕ) (ls : List (List ℕ)) (n qtype qclass : ℕ)
    (rest : List ℕ)
    → IsMessage m
    → IsBytes s.octets
    → Denotes m h s ls n
    → name_len ls ≤ 255
    → n ≤ 255
    → h < ptr_fuel
    → qtype < 65536
    → qclass < 65536
    → drop n s.octets ≡ word_octets qtype ++ (word_octets qclass ++ rest)
    → consume_question_entry ptr_fuel (record { original_message = m; remaining_message = s }) ≡ (
      record {
        original_message = m;
        remaining_message = record { start = s.start + n + 2 + 2; octets = rest };
      },
      ok (record {
        name = record { self_start = s.start };
        qtype = qtype % 256;
        qclass = qclass % 256;
      }),
    )
unfolding consume_question_entry question_entry require
consume_question_entry-Denotes ptr_fuel m s h ls n qtype qclass rest wf bytes d fits small enough ht
      hc behind =
    let n_mod : n % 256 ≡ n = omega arith in
    rw (parse_domain_name_complete ptr_fuel m s h ls n wf bytes d fits enough) (
      rw n_mod (
        rw behind (
          rw (consume_2_octets_lem (s.start + n) qtype (word_octets qclass ++ rest) ht)
            (rw (consume_2_octets_lem (s.start + n + 2) qclass rest hc) refl))))

-- A question whose name is refused is refused for the same reason.
pub consume_question_entry-fails :
    (ptr_fuel : ℕ) (d : ResponseDecoder) (reason : ResponseDecodeError)
    → parse_domain_name ptr_fuel d.original_message d.remaining_message ≡ fail reason
    → consume_question_entry ptr_fuel d ≡ (invalidated, fail reason)
unfolding consume_question_entry question_entry commit
consume_question_entry-fails ptr_fuel d reason e = rw e refl
