-- ===== src/Dns/Encode/Tests.antt =====
-- The question encoder at concrete inputs.
use corosig.Prelude.{replicate, ◌≡◌, refl, true, false, [], ◌∷◌, ◌++◌, length, arith}
use corosig.Dns.Errors.{ok, fail, name_len_too_big}
use corosig.Dns.Name.Denotes.{root, label}
use corosig.Dns.Decoder.{consume_question_entry, invalidated}
use corosig.Dns.Decoder.Questions.{consume_question_entry-Denotes}
use corosig.Dns.Encode.{done, refused, empty_label, Question, encode_question, split_into_labels}
use corosig.Dns.Encode.Plain.{question_octets, plain_question, encode_question_lem}
use corosig.Dns.Encode.TooLong.{encode_question_too_long}
use corosig.Dns.Encode.RoundTrip.{behind_header}

-- "a.bc." of type AAAA and class IN.
abbrev query_a_bc : Question
query_a_bc = record {
  id = 0xABCD;
  opcode = 0;
  recursion_desired = true;
  name = 97 ∷ 46 ∷ 98 ∷ 99 ∷ 46 ∷ [];
  qtype = 28;
  qclass = 1;
}

-- "a..b"
abbrev query_empty : Question
query_empty = record query_a_bc { name = 97 ∷ 46 ∷ 46 ∷ 98 ∷ [] }

written :
    encode_question length (λ n. true) [] query_a_bc
    ≡ done (
        0xAB ∷ 0xCD ∷ 1 ∷ 0 ∷ 0 ∷ 1 ∷ 0 ∷ 0 ∷ 0 ∷ 0 ∷ 0 ∷ 0 ∷ 1 ∷ 97 ∷ 2 ∷ 98 ∷ 99 ∷ 0 ∷ 0 ∷ 28 ∷ 0
        ∷ 1 ∷ [])
unfolding encode_question
written = refl

refuses_empty : encode_question length (λ n. true) [] query_empty ≡ refused empty_label
unfolding encode_question
refuses_empty = refl

encode_question_lem_example :
    encode_question length (λ n. false) (7 ∷ []) query_a_bc ≡ plain_question (7 ∷ []) query_a_bc
encode_question_lem_example =
    encode_question_lem length (λ n. false) (7 ∷ []) query_a_bc (omega arith)

consume_question_entry-Denotes_example :
    consume_question_entry 2 (record {
      original_message = 1 ∷ 97 ∷ 0 ∷ 0 ∷ 1 ∷ 0 ∷ 1 ∷ 9 ∷ [];
      remaining_message = record { start = 0; octets = 1 ∷ 97 ∷ 0 ∷ 0 ∷ 1 ∷ 0 ∷ 1 ∷ 9 ∷ [] };
    })
    ≡ (
      record {
        original_message = 1 ∷ 97 ∷ 0 ∷ 0 ∷ 1 ∷ 0 ∷ 1 ∷ 9 ∷ [];
        remaining_message = record { start = 7; octets = 9 ∷ [] };
      },
      ok (record { name = record { self_start = 0 }; qtype = 1; qclass = 1 }),
    )
consume_question_entry-Denotes_example =
    consume_question_entry-Denotes 2 (1 ∷ 97 ∷ 0 ∷ 0 ∷ 1 ∷ 0 ∷ 1 ∷ 9 ∷ [])
      (record { start = 0; octets = 1 ∷ 97 ∷ 0 ∷ 0 ∷ 1 ∷ 0 ∷ 1 ∷ 9 ∷ [] }) 1 ((97 ∷ []) ∷ []) 3 1 1
      (9 ∷ []) (omega arith) (omega arith)
      (label (0 ∷ 0 ∷ 1 ∷ 0 ∷ 1 ∷ 9 ∷ []) refl (omega arith) (omega arith)
        (root (0 ∷ 1 ∷ 0 ∷ 1 ∷ 9 ∷ []) refl refl refl) refl)
      (omega arith) (omega arith) (omega arith) (omega arith) (omega arith) refl

-- Four labels of 63, 63, 63 and 62 characters: 254 characters with the dots.
abbrev query_long : Question
query_long = record query_a_bc {
  name =
      replicate 63 97 ++ 46 ∷ (replicate 63 97 ++ 46 ∷ (replicate 63 97 ++ 46 ∷ replicate 62 97));
}

encode_question_too_long_example :
    (encode_question length (λ n. true) [] query_long ≡ done (question_octets query_long))
    × (consume_question_entry 9 (behind_header query_long) ≡ (invalidated, fail name_len_too_big))
unfolding split_into_labels corosig.Dns.Encode.strip_dot
encode_question_too_long_example =
    encode_question_too_long length (λ n. true) query_long 9
      (record { words = omega arith; bytes = omega arith; within = omega arith; good = refl })
      (omega arith) (omega arith)
