-- ===== src/Dns/Wire.antt =====
-- Integers in network byte order and compression pointers: `read_ntoh`, `consume_2_octets`,
-- `consume_4_octets` and `decode_compression_ptr` of Protocol.cpp, and `CountingOutputIterator`,
-- `write_hton` and `encode_compression_ptr` of Protocol.hpp. A `char` that is written stands as
-- its octet, a number below 256.
pub mod Octets
use Prim.Native.Nat.{bit_and, bit_or}
use corosig.Prelude.{
  ℕ, zero, suc, ◌+◌, ◌-◌, ◌*◌, ◌/◌, ◌%◌, ◌^◌, List, [], ◌∷◌, ◌++◌, Option, none, some, length, ltb,
  ◌==◌, if◌then◌else◌,
}
use corosig.Dns.Span.{Span, subspan}

-- One loop of `size` rounds: `value <<= CHAR_BIT; value |= INT(*in++);`. The callers have checked
-- that the octets are there.
read_loop : ℕ → ℕ → List ℕ → ℕ → ℕ × List ℕ
read_loop size (suc i) (b ∷ bs) value =
    read_loop size i bs (bit_or (value * 2 ^ 8 % 2 ^ (8 * size)) b)
read_loop size _ rest value = (value, rest)

-- The value of `size` octets and the iterator behind them.
unfoldable pub read_ntoh : ℕ → List ℕ → ℕ × List ℕ
unfolding read_loop
read_ntoh size octets = read_loop size size octets 0

abbrev pub marker_bits : ℕ
marker_bits = 0xC000

abbrev pub max_value : ℕ
max_value = 0x3FFF

unfoldable pub decode_compression_ptr : List ℕ → Option ℕ
decode_compression_ptr input =
    if ltb (length input) 2
    then none
    else (let offset = (read_ntoh 2 input).0 in
        if bit_and offset marker_bits == marker_bits
        then some (bit_and offset (0xFFFF - marker_bits))
        else none)

unfoldable pub consume_2_octets : Span → Option (ℕ × Span)
consume_2_octets s =
    if ltb (length s.octets) 2 then none else some ((read_ntoh 2 s.octets).0, subspan 2 s)

unfoldable pub consume_4_octets : Span → Option (ℕ × Span)
consume_4_octets s =
    if ltb (length s.octets) 4 then none else some ((read_ntoh 4 s.octets).0, subspan 4 s)

-- The underlying iterator is the list of what was written through it.
pub record CountingOutputIterator : Type 0 where
  pub sent : List ℕ
  pub written : ℕ

-- `*out++ = value`
unfoldable pub put : CountingOutputIterator → ℕ → CountingOutputIterator
put out value = record { sent = out.sent ++ value ∷ []; written = out.written + 1 }

unfoldable pub write_hton : CountingOutputIterator → ℕ → CountingOutputIterator
unfolding put
write_hton out value = put (put out (bit_and (value / 2 ^ 8) 0xFF)) (bit_and value 0xFF)

unfoldable pub encode_compression_ptr : CountingOutputIterator → ℕ → CountingOutputIterator
encode_compression_ptr out offset = write_hton out (bit_or marker_bits offset)
