-- ===== src/Dns/Header/Fields.antt =====
-- The bit fields of the flags word as arithmetic: each is a digit of the word.
use Prim.Native.Nat.{bit_and, bit_or}
use corosig.Prelude.{ℕ, ◌+◌, ◌-◌, ◌*◌, ◌/◌, ◌%◌, ◌^◌, ◌≡◌, ap, ◌∙◌, arith}
use corosig.Prelude.Bits.{
  bit_and_ones, bit_and_shift, bit_and_low_ones, bit_or_shift, bit_or_low, pow_pos,
}
use native.Mathlib.Nat.{mod-lt}
use corosig.Dns.Header.{
  BitField, qr, opcode_bits, aa, tc, rd, ra, rcode_bits, set_bitfield, get_bitfield,
}

-- The digits under a mask, and the word with other digits in their place.
masked :
    (low width word : ℕ)
    → bit_and word ((2 ^ width - 1) * 2 ^ low) ≡ word / 2 ^ low % 2 ^ width * 2 ^ low
masked low width word =
    bit_and_shift low word (2 ^ width - 1)
    ∙ ap (λ (t : ℕ). t * 2 ^ low) (bit_and_ones width (word / 2 ^ low))

abbrev with_digit : ℕ → ℕ → ℕ → ℕ → ℕ → ℕ
with_digit top low width word value =
    (word / 2 ^ low / 2 ^ width % 2 ^ top * 2 ^ width + value % 2 ^ width) * 2 ^ low
    + word % 2 ^ low

replaced :
    (top low width word value : ℕ)
    → bit_or
        (bit_and word ((2 ^ top - 1) * 2 ^ width * 2 ^ low + (2 ^ low - 1)))
        (bit_and value (2 ^ width - 1) * 2 ^ low)
      ≡ with_digit top low width word value
replaced top low width word value =
    let kept : bit_and word ((2 ^ top - 1) * 2 ^ width * 2 ^ low + (2 ^ low - 1))
        ≡ word / 2 ^ low / 2 ^ width % 2 ^ top * 2 ^ width * 2 ^ low + word % 2 ^ low =
      bit_and_low_ones low word ((2 ^ top - 1) * 2 ^ width)
      ∙ ap (λ (t : ℕ). t * 2 ^ low + word % 2 ^ low) (masked width top (word / 2 ^ low)) in
    rw (kept, bit_and_ones width value)
      (bit_or_shift low (word / 2 ^ low / 2 ^ width % 2 ^ top * 2 ^ width) (word % 2 ^ low)
          (value % 2 ^ width) (mod-lt word (pow_pos low))
        ∙ ap (λ (t : ℕ). t * 2 ^ low + word % 2 ^ low)
            (bit_or_low width (word / 2 ^ low / 2 ^ width % 2 ^ top) (value % 2 ^ width)
              (mod-lt value (pow_pos width))))

-- The seven fields of the flags word.
pub data Field : Type 0 where
  response opcode authoritative truncation desired available rcode : Field

abbrev pub bits : Field → BitField
bits response = qr
bits opcode = opcode_bits
bits authoritative = aa
bits truncation = tc
bits desired = rd
bits available = ra
bits rcode = rcode_bits

pub get_bitfield-bits :
    (f : Field) (word : ℕ)
    → get_bitfield (bits f) word ≡ word / 2 ^ (bits f).low % 2 ^ (bits f).width
unfolding get_bitfield
get_bitfield-bits response word = omega (arith, masked 15 1 word)
get_bitfield-bits opcode word = omega (arith, masked 11 4 word)
get_bitfield-bits authoritative word = omega (arith, masked 10 1 word)
get_bitfield-bits truncation word = omega (arith, masked 9 1 word)
get_bitfield-bits desired word = omega (arith, masked 8 1 word)
get_bitfield-bits available word = omega (arith, masked 7 1 word)
get_bitfield-bits rcode word = omega (arith, masked 0 4 word)

pub set_bitfield-bits :
    (f : Field) (word value : ℕ)
    → set_bitfield (bits f) word value
      ≡ with_digit (16 - (bits f).low - (bits f).width) (bits f).low (bits f).width word value
unfolding set_bitfield
set_bitfield-bits response word value = omega (arith, replaced 0 15 1 word value)
set_bitfield-bits opcode word value = omega (arith, replaced 1 11 4 word value)
set_bitfield-bits authoritative word value = omega (arith, replaced 5 10 1 word value)
set_bitfield-bits truncation word value = omega (arith, replaced 6 9 1 word value)
set_bitfield-bits desired word value = omega (arith, replaced 7 8 1 word value)
set_bitfield-bits available word value = omega (arith, replaced 8 7 1 word value)
set_bitfield-bits rcode word value = omega (arith, replaced 12 0 4 word value)
