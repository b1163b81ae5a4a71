-- ===== src/Dns/Errors.antt =====
-- The error enums of Protocol.hpp, and the result of a decoding function.
use corosig.Prelude.{◌≡◌, ◌≢◌, refl}

pub data ResponseDecodeError : Type 0 where
  wrong_header_bytes_count compression_ptr_oob compression_ptr_infinite_loop : ResponseDecodeError
  label_no_len label_len_oob label_len_too_big name_len_too_big : ResponseDecodeError
  no_root_label no_question_type no_question_class : ResponseDecodeError
  no_resource_record_type no_resource_record_class no_resource_record_ttl : ResponseDecodeError
  no_resource_record_data_len resource_record_data_len_oob : ResponseDecodeError
  resource_record_data_bad_a resource_record_data_bad_aaaa : ResponseDecodeError
  resource_record_data_bad_ns resource_record_data_bad_cname : ResponseDecodeError
  resource_record_data_bad_soa resource_record_data_bad_mb : ResponseDecodeError
  resource_record_data_bad_mg resource_record_data_bad_mr : ResponseDecodeError
  resource_record_data_bad_ptr resource_record_data_bad_hinfo : ResponseDecodeError
  resource_record_data_bad_minfo : ResponseDecodeError

-- `diverge` is no value of the program: the fuel of a loop ran out.
pub data Outcome {ℓ} (A : Type ℓ) : Type ℓ where
  ok : A → Outcome A
  fail : ResponseDecodeError → Outcome A
  diverge : Outcome A

-- A result decides how the rest of the function goes on.
infixl 5 ◌>>=◌
abbrev pub ◌>>=◌ {ℓ κ} : {A : Type ℓ} {B : Type κ} → Outcome A → (A → Outcome B) → Outcome B
outcome >>= rest = elim outcome [ ok value ↦ rest value | fail e ↦ fail e | diverge ↦ diverge ]

pub >>=-eq-ok {ℓ κ} :
    {A : Type ℓ} {B : Type κ} (outcome : Outcome A) (rest : A → Outcome B) {b : B}
    → outcome >>= rest ≡ ok b
    → (a : A) × (outcome ≡ ok a) × (rest a ≡ ok b)
>>=-eq-ok (ok a) rest h = (a, refl, h)
>>=-eq-ok (fail e) rest h = cc
>>=-eq-ok diverge rest h = cc

pub >>=-ne-diverge {ℓ κ} :
    {A : Type ℓ} {B : Type κ} (m : Outcome A) (f : A → Outcome B)
    → m ≢ diverge
    → ((a : A) → m ≡ ok a → f a ≢ diverge)
    → m >>= f ≢ diverge
>>=-ne-diverge (ok a) f h k = k a refl
>>=-ne-diverge (fail e) f h k = λ p. cc
>>=-ne-diverge diverge f h k = λ p. h refl
