-- ===== src/Dns/Encode/Plain.antt =====
-- `encode_question` against a description that knows nothing of the compression map.
use mathlib.Core.List.{append_assoc}
use corosig.Text.{texts}
use corosig.Prelude.{
  ℕ, ◌<◌, ◌≡◌, refl, Bool, List, [], ◌++◌, Option, none, some, length, ltb, if◌then◌else◌,
  Bool-cases, inl, inr, arith,
}
use corosig.Dns.Wire.{CountingOutputIterator, write_hton}
use corosig.Dns.Wire.Octets.{write_hton_lem}
use corosig.Dns.Header.{set_bitfield, set_recursion_desired}
use corosig.Dns.Decoder.Headers.{IsWord16, header_octets, encode_header_lem}
use corosig.Dns.Decoder.Questions.{word_octets}
use corosig.Dns.Encode.{
  Result, done, refused, QuestionEncodeError, too_long_domain_name, ◌>>=◌, write_labels,
  split_into_labels, encode_domain_name, Question, question_header, encode_question, start_of,
}
use corosig.Dns.Encode.Suffixes.{split_into_labels-Ascending}
use corosig.Dns.Encode.Loop.{LoopEnds, write_labels_lem, wrote, first_bad, plain_name}

pub question_header-IsWord16 : (q : Question) → q.id < 65536 → IsWord16 (question_header q)
unfolding question_header set_recursion_desired set_bitfield
question_header-IsWord16 q h = record {
  id_fits = h;
  flags_fit = omega arith;
  qdcount_fits = omega arith;
  ancount_fits = omega arith;
  nscount_fits = omega arith;
  arcount_fits = omega arith;
}

-- The fields of a question that are numbers have 16 bits.
pub record IsQuestion (q : Question) : Type 0 where
  pub id_fits : q.id < 65536
  pub qtype_fits : q.qtype < 65536
  pub qclass_fits : q.qclass < 65536

-- The octets of a question that has no name of more than 255 characters and no bad label.
abbrev pub question_octets : Question → List ℕ
question_octets q =
    header_octets (question_header q) []
    ++ (plain_name (texts (split_into_labels q.name))
        ++ (word_octets q.qtype ++ word_octets q.qclass))

abbrev plain_result : List ℕ → Question → Option QuestionEncodeError → Result (List ℕ)
plain_result sent q none = done (sent ++ question_octets q)
plain_result sent q (some e) = refused e

abbrev pub plain_question : List ℕ → Question → Result (List ℕ)
plain_question sent q =
    if ltb 255 (length q.name)
    then refused too_long_domain_name
    else plain_result sent q (first_bad (texts (split_into_labels q.name)))

-- The end of `encode_question` behind the loop.
finish_question :
    (hash : List ℕ → ℕ) (room : ℕ → Bool) (sent : List ℕ) (q : Question)
    (out : CountingOutputIterator) (o : Option QuestionEncodeError)
    → IsQuestion q
    → out.sent ≡ sent ++ header_octets (question_header q) []
    → LoopEnds hash room q.name (split_into_labels q.name) out [] o
    → (do
      (last, buckets) ← write_labels hash room q.name (split_into_labels q.name) out []
      done (write_hton (write_hton last q.qtype) q.qclass).sent)
      ≡ plain_result sent q o
finish_question hash room sent q out none wf e (bs, h) = rw h (
    rw (write_hton_lem _ q.qtype wf.qtype_fits)
      (rw (write_hton_lem _ q.qclass wf.qclass_fits) (rw e (simp append_assoc refl))))
finish_question hash room sent q out (some x) wf e h = rw h refl

-- For a question whose id, type and class are numbers of 16 bits, `encode_question` writes the
-- header, every label in full, the root, the type and the class, or refuses a name of more than 255
-- characters, else the first label that is empty or has more than 63 characters: the map never
-- makes a difference, whatever the hash function is and whenever its vector has no memory.
pub encode_question_lem :
    (hash : List ℕ → ℕ) (room : ℕ → Bool) (sent : List ℕ) (q : Question)
    → IsQuestion q
    → encode_question hash room sent q ≡ plain_question sent q
unfolding encode_question encode_domain_name
encode_question_lem hash room sent q wf =
    rw
      (encode_header_lem (start_of sent) (question_header q)
        (question_header-IsWord16 q wf.id_fits))
      (elim (Bool-cases (ltb 255 (length q.name))) [
        | inl long ↦ rw long refl
        | inr short ↦ rw short (
            finish_question hash room sent q
              (wrote (start_of sent) (header_octets (question_header q) [])) _ wf refl
              (write_labels_lem hash room q.name (split_into_labels q.name) 0 _ []
                (split_into_labels-Ascending q.name) tt))
      ])
