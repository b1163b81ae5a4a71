-- ===== src/Dns/Encode/RoundTrip.antt =====
-- The decoder and the iterator on what `encode_question` writes.
use mathlib.Core.List.{append-nil}
use corosig.Text.{texts}
use corosig.Prelude.{
  ℕ, ◌+◌, ◌≤◌, ◌≡◌, refl, sym, List, [], ◌++◌, none, length, All-append, length-append, arith,
}
use corosig.Dns.Span.{IsByte, IsBytes, IsWithin}
use corosig.Dns.Name.Denotes.{IsMessage, Denotes, name_len}
use corosig.Dns.Decoder.{ResponseDecoder}
use corosig.Dns.Decoder.Questions.{word_octets}
use corosig.Dns.Decoder.Headers.{header_octets}
use corosig.Dns.Encode.{strip_dot, split_into_labels, done, Question, question_header}
use corosig.Dns.Encode.Loop.{plain_name, first_bad}
use corosig.Dns.Encode.Plain.{IsQuestion, question_header-IsWord16, plain_question, question_octets}
use corosig.Dns.Encode.Suffixes.{length-strip_dot}
use corosig.Dns.Encode.Names.{
  plain_name-IsBytes, name_len-split_into_labels, split_into_labels-IsBytes, header_octets-IsBytes,
  length-plain_name, plain_name-Denotes,
}

-- A question whose name is a name of RFC 1035, and which has octets for its characters.
pub record IsValid (q : Question) : Type 0 where
  pub words : IsQuestion q
  pub bytes : IsBytes q.name
  pub short : length (strip_dot q.name) ≤ 253
  pub good : first_bad (texts (split_into_labels q.name)) ≡ none

-- What the encoder writes behind the header.
abbrev pub body : Question → List ℕ
body q =
    plain_name (texts (split_into_labels q.name)) ++ (word_octets q.qtype ++ word_octets q.qclass)

-- The decoder behind the header.
abbrev pub behind_header : Question → ResponseDecoder
behind_header q = record {
  original_message = question_octets q;
  remaining_message = record { start = 12; octets = body q };
}

-- The decoder when the question is consumed.
abbrev pub behind_question : Question → ResponseDecoder
behind_question q = record {
  original_message = question_octets q;
  remaining_message = record {
    start = 12 + name_len (texts (split_into_labels q.name)) + 2 + 2;
    octets = [];
  };
}

-- A question that is encoded: its name may be too long for the decoder.
pub record IsEncodable (q : Question) : Type 0 where
  pub words : IsQuestion q
  pub bytes : IsBytes q.name
  pub within : length q.name ≤ 255
  pub good : first_bad (texts (split_into_labels q.name)) ≡ none

module _ (q : Question) (e : IsEncodable q) where
  pub question_octets-IsMessage : IsMessage (question_octets q)
  question_octets-IsMessage = record {
    bytes =
        All-append IsByte (header_octets (question_header q) []) (body q)
          (header_octets-IsBytes (question_header q) (question_header-IsWord16 q e.words.id_fits))
          (All-append IsByte (plain_name (texts (split_into_labels q.name)))
            (word_octets q.qtype ++ word_octets q.qclass)
            (plain_name-IsBytes (texts (split_into_labels q.name))
              (split_into_labels-IsBytes q.name e.bytes) e.good)
            (omega (arith, e.words.qtype_fits, e.words.qclass_fits)));
    nonempty = omega arith;
    fits = omega (
      arith,
      length-append (plain_name (texts (split_into_labels q.name)))
          (word_octets q.qtype ++ word_octets q.qclass),
      length-plain_name (texts (split_into_labels q.name)),
      name_len-split_into_labels q.name,
      length-strip_dot q.name,
      e.within,
    );
  }

  pub plain_question-done : plain_question [] q ≡ done (question_octets q)
  plain_question-done = rw e.good (ground arith)

  pub body-Denotes :
      Denotes
        (question_octets q)
        (length (texts (split_into_labels q.name)))
        (record { start = 12; octets = body q })
        (texts (split_into_labels q.name))
        (name_len (texts (split_into_labels q.name)))
  body-Denotes =
      plain_name-Denotes (question_octets q) (texts (split_into_labels q.name)) _
        (word_octets q.qtype ++ word_octets q.qclass) refl e.good

  pub body-IsWithin : IsWithin (question_octets q) (record { start = 12; octets = body q })
  body-IsWithin = record { beyond = []; here = sym (append-nil (body q)); inside = omega arith }
