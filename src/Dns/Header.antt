-- ===== src/Dns/Header.antt =====
-- `Header` of Protocol.hpp with its `Flags`, whose accessors and bit fields are in Protocol.cpp, and
-- `encode_header`. Numbers of 16 bits stand as numbers below 65536.
pub mod Fields
pub mod Laws
use Prim.Native.Nat.{bit_and, bit_or}
use corosig.Prelude.{ℕ, ◌+◌, ◌-◌, ◌*◌, ◌/◌, ◌%◌, ◌^◌, Bool, true, false, ◌==◌}
use corosig.Dns.Wire.{CountingOutputIterator, write_hton}

-- A mask of adjacent bits: `std::countr_zero` is `low`, `std::popcount` is `width`, and the mask
-- itself is (2^width - 1) * 2^low.
pub record BitField : Type 0 where
  pub mask : ℕ
  pub low : ℕ
  pub width : ℕ

abbrev pub qr : BitField
qr = record { mask = 0b1000000000000000; low = 15; width = 1 }

abbrev pub opcode_bits : BitField
opcode_bits = record { mask = 0b0111100000000000; low = 11; width = 4 }

abbrev pub aa : BitField
aa = record { mask = 0b0000010000000000; low = 10; width = 1 }

abbrev pub tc : BitField
tc = record { mask = 0b0000001000000000; low = 9; width = 1 }

abbrev pub rd : BitField
rd = record { mask = 0b0000000100000000; low = 8; width = 1 }

abbrev pub ra : BitField
ra = record { mask = 0b0000000010000000; low = 7; width = 1 }

abbrev pub rcode_bits : BitField
rcode_bits = record { mask = 0b0000000000001111; low = 0; width = 4 }

-- `(mask & ~FIELD) | ((value & ((1 << W) - 1)) << std::countr_zero(FIELD))`, in 16 bits. The
-- assertion that the value fits the field, `value < 2 ^ f.width`, is left to the callers: a build
-- with assertions ends where it does not hold.
unfoldable pub set_bitfield : BitField → ℕ → ℕ → ℕ
set_bitfield f word value =
    bit_or (bit_and word (0xFFFF - f.mask)) (bit_and value (2 ^ f.width - 1) * 2 ^ f.low) % 2 ^ 16

-- `(mask & FIELD) >> std::countr_zero(FIELD)`, as uint8_t.
unfoldable pub get_bitfield : BitField → ℕ → ℕ
get_bitfield f word = bit_and word f.mask / 2 ^ f.low % 2 ^ 8

pub record Flags : Type 0 where
  pub value : ℕ

-- `static_cast<uint8_t>(v)`
bit_of : Bool → ℕ
bit_of true = 1
bit_of false = 0

unfoldable pub is_response : Flags → Bool
unfolding get_bitfield
is_response f = get_bitfield qr f.value == 1

unfoldable pub set_response : Bool → Flags → Flags
unfolding bit_of set_bitfield
set_response v f = record { value = set_bitfield qr f.value (bit_of v) }

unfoldable pub set_opcode : ℕ → Flags → Flags
unfolding set_bitfield
set_opcode opcode f = record { value = set_bitfield opcode_bits f.value opcode }

unfoldable pub opcode : Flags → ℕ
unfolding get_bitfield
opcode f = get_bitfield opcode_bits f.value

unfoldable pub set_authoritative_answer : Bool → Flags → Flags
unfolding bit_of set_bitfield
set_authoritative_answer v f = record { value = set_bitfield aa f.value (bit_of v) }

unfoldable pub authoritative_answer : Flags → Bool
unfolding get_bitfield
authoritative_answer f = get_bitfield aa f.value == 1

unfoldable pub set_truncated : Bool → Flags → Flags
unfolding bit_of set_bitfield
set_truncated v f = record { value = set_bitfield tc f.value (bit_of v) }

unfoldable pub truncated : Flags → Bool
unfolding get_bitfield
truncated f = get_bitfield tc f.value == 1

unfoldable pub set_recursion_desired : Bool → Flags → Flags
unfolding bit_of set_bitfield
set_recursion_desired v f = record { value = set_bitfield rd f.value (bit_of v) }

unfoldable pub recursion_desired : Flags → Bool
unfolding get_bitfield
recursion_desired f = get_bitfield rd f.value == 1

unfoldable pub set_recursion_available : Bool → Flags → Flags
unfolding bit_of set_bitfield
set_recursion_available v f = record { value = set_bitfield ra f.value (bit_of v) }

unfoldable pub recursion_available : Flags → Bool
unfolding get_bitfield
recursion_available f = get_bitfield ra f.value == 1

unfoldable pub set_rcode : ℕ → Flags → Flags
unfolding set_bitfield
set_rcode v f = record { value = set_bitfield rcode_bits f.value v }

unfoldable pub get_rcode : Flags → ℕ
unfolding get_bitfield
get_rcode f = get_bitfield rcode_bits f.value

pub record Header : Type 0 where
  pub id : ℕ
  pub flags : Flags
  pub qdcount : ℕ
  pub ancount : ℕ
  pub nscount : ℕ
  pub arcount : ℕ

unfoldable pub encode_header : CountingOutputIterator → Header → CountingOutputIterator
encode_header out header =
    write_hton
      (write_hton
        (write_hton
          (write_hton (write_hton (write_hton out header.id) header.flags.value) header.qdcount)
          header.ancount)
        header.nscount)
      header.arcount
