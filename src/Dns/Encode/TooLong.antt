-- ===== src/Dns/Encode/TooLong.antt =====
-- The limit on the characters of a name in `encode_domain_name` of Protocol.hpp, and the limit on
-- its octets in `parse_domain_name` of Protocol.cpp.
use corosig.Prelude.{ℕ, List, ◌≤◌, ◌<◌, ◌≡◌, ◌∙◌, Bool, [], length, All-drop, arith}
use corosig.Dns.Errors.{fail, name_len_too_big}
use corosig.Dns.Span.{Span, IsByte}
use corosig.Dns.Name.Denotes.{name_len}
use corosig.Dns.Name.Refuses.{parse_domain_name-refuses}
use corosig.Dns.Decoder.{consume_question_entry, invalidated}
use corosig.Dns.Decoder.Questions.{consume_question_entry-fails}
use corosig.Text.{texts}
use corosig.Dns.Encode.{done, strip_dot, split_into_labels, Question, encode_question}
use corosig.Dns.Encode.Plain.{question_octets, encode_question_lem}
use corosig.Dns.Encode.Names.{length-lt-name_len, length-texts}
use corosig.Dns.Encode.RoundTrip.{
  IsEncodable, body, behind_header, question_octets-IsMessage, plain_question-done, body-Denotes,
}

-- A question whose id, type and class are numbers of 16 bits, and whose name has octets for its
-- characters, 254 of them or more without the dot at its end and at most 255 with it, and no label
-- that is empty or has more than 63, is encoded. On more fuel than the name has labels, the decoder
-- ends and refuses what is written: the name is too long, and the decoder is invalidated.
pub encode_question_too_long :
    (hash : List ℕ → ℕ) (room : ℕ → Bool) (q : Question) (ptr_fuel : ℕ)
    → IsEncodable q
    → 254 ≤ length (strip_dot q.name)
    → length (split_into_labels q.name) < ptr_fuel
    → (encode_question hash room [] q ≡ done (question_octets q))
      × (consume_question_entry ptr_fuel (behind_header q) ≡ (invalidated, fail name_len_too_big))
encode_question_too_long hash room q ptr_fuel e long enough = (
  encode_question_lem hash room [] q e.words ∙ plain_question-done q e,
  (let m = question_octets q in
      let wf = question_octets-IsMessage q e in
      let s : Span = record { start = 12; octets = body q } in
      let ls = texts (split_into_labels q.name) in
      consume_question_entry-fails ptr_fuel (behind_header q) name_len_too_big (
        parse_domain_name-refuses ptr_fuel m s (length ls) ls (name_len ls) wf
          (All-drop IsByte 12 m wf.bytes) (body-Denotes q e)
          (omega (arith, length-lt-name_len q.name (omega arith)))
          (omega (arith, length-texts (split_into_labels q.name))))),
)
