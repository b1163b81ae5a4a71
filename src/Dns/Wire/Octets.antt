-- ===== src/Dns/Wire/Octets.antt =====
-- What the readers and writers of `Wire` compute, as arithmetic on octets.
use Prim.Native.Nat.{bit_and, bit_or}
use corosig.Prelude.{
  ℕ, ◌+◌, ◌-◌, ◌*◌, ◌/◌, ◌%◌, ◌^◌, ◌≤◌, ◌<◌, ◌≡◌, refl, sym, ap, ◌∙◌, List, [], ◌∷◌, ◌++◌, none,
  some, leb, if◌then◌else◌, arith,
}
use mathlib.Core.List.{append_assoc}
use corosig.Prelude.Bits.{bit_or_low, bit_and_ones, bit_and_shift, zero-bit_or}
use corosig.Dns.Span.{IsByte, IsBytes}
use corosig.Dns.Wire.{
  read_ntoh, max_value, decode_compression_ptr, CountingOutputIterator, write_hton,
  encode_compression_ptr,
}

join : (v b : ℕ) → IsByte b → bit_or (v * 256) b ≡ v * 256 + b
join v b h = bit_or_low 8 v b h

read_two : (a b : ℕ) → IsByte a → IsByte b → bit_or (bit_or 0 a * 256 % 65536) b ≡ a * 256 + b
read_two a b ha hb =
    let e : a * 256 % 65536 ≡ a * 256 = omega arith in rw (zero-bit_or a, e) (join a b hb)

-- Big-endian, as RFC 1035 section 2.3.2 has it.
pub read_ntoh_two :
    (a b : ℕ) (rest : List ℕ)
    → IsByte a
    → IsByte b
    → read_ntoh 2 (a ∷ b ∷ rest) ≡ (a * 256 + b, rest)
unfolding read_ntoh
read_ntoh_two a b rest ha hb = ap (λ (v : ℕ). (v, rest)) (read_two a b ha hb)

read_four :
    (a b c d : ℕ)
    → IsByte a
    → IsByte b
    → IsByte c
    → IsByte d
    → bit_or (bit_or (bit_or (bit_or 0 a * 256 % 2 ^ 32) b * 256 % 2 ^ 32) c * 256 % 2 ^ 32) d
      ≡ ((a * 256 + b) * 256 + c) * 256 + d
read_four a b c d ha hb hc hd =
    let e : a * 256 % 2 ^ 32 ≡ a * 256 = omega arith in
    let f : (a * 256 + b) * 256 % 2 ^ 32 ≡ (a * 256 + b) * 256 = omega arith in
    let g : ((a * 256 + b) * 256 + c) * 256 % 2 ^ 32 ≡ ((a * 256 + b) * 256 + c) * 256 =
      omega arith in
    rw (zero-bit_or a, e, join a b hb, f, join (a * 256 + b) c hc, g)
      (join ((a * 256 + b) * 256 + c) d hd)

pub read_ntoh_four :
    (a b c d : ℕ) (rest : List ℕ)
    → IsByte a
    → IsByte b
    → IsByte c
    → IsByte d
    → read_ntoh 4 (a ∷ b ∷ c ∷ d ∷ rest) ≡ (((a * 256 + b) * 256 + c) * 256 + d, rest)
unfolding read_ntoh
read_ntoh_four a b c d rest ha hb hc hd = ap (λ (v : ℕ). (v, rest)) (read_four a b c d ha hb hc hd)

-- The two marker bits of a 16-bit word, and the other fourteen.
marker_of : (w : ℕ) → w < 65536 → bit_and w 0xC000 ≡ w / 16384 * 16384
marker_of w h =
    bit_and_shift 14 w 3 ∙ ap (λ (t : ℕ). t * 16384) (bit_and_ones 2 (w / 16384) ∙ omega arith)

offset_of : (w : ℕ) → bit_and w 0x3FFF ≡ w % 16384
offset_of w = bit_and_ones 14 w

-- A pointer is two octets whose first is at least 192.
pub decode_compression_ptr_lem :
    (hi lo : ℕ) (rest : List ℕ)
    → IsByte hi
    → IsByte lo
    → decode_compression_ptr (hi ∷ lo ∷ rest)
      ≡ (if leb 192 hi then some ((hi - 192) * 256 + lo) else none)
unfolding decode_compression_ptr
decode_compression_ptr_lem hi lo rest hh hl =
    let w : hi * 256 + lo < 65536 = omega arith in
    rw (read_ntoh_two hi lo rest hh hl, marker_of (hi * 256 + lo) w, offset_of (hi * 256 + lo))
      (ground arith)

pub low_byte : (v : ℕ) → bit_and v 0xFF ≡ v % 256
low_byte v = bit_and_ones 8 v

-- A 16-bit value goes out as two octets, the higher one first, and both are counted.
pub write_hton_lem :
    (out : CountingOutputIterator) (v : ℕ)
    → v < 65536
    → write_hton out v
      ≡ record { sent = out.sent ++ (v / 256 ∷ v % 256 ∷ []); written = out.written + 2 }
unfolding write_hton
write_hton_lem out v h =
    let hi : bit_and (v / 256) 0xFF ≡ v / 256 = low_byte (v / 256) ∙ omega arith in
    rw (hi, low_byte v, append_assoc) (ground arith)

pub encode_compression_ptr_lem :
    (out : CountingOutputIterator) (offset : ℕ)
    → offset ≤ max_value
    → encode_compression_ptr out offset ≡ record {
      sent = out.sent ++ ((192 + offset / 256) ∷ offset % 256 ∷ []);
      written = out.written + 2;
    }
unfolding encode_compression_ptr
encode_compression_ptr_lem out offset h =
    let word : bit_or 0xC000 offset ≡ 0xC000 + offset = bit_or_low 14 3 offset (omega arith) in
    let hi : (0xC000 + offset) / 256 ≡ 192 + offset / 256 = omega arith in
    let lo : (0xC000 + offset) % 256 ≡ offset % 256 = omega arith in
    rw word (write_hton_lem out (0xC000 + offset) (omega arith) ∙ rw (hi, lo))

-- A compression pointer of at most 14 bits is read back from the octets that are written for it,
-- whatever is written behind them.
pub decode_compression_ptr-encode_compression_ptr :
    (offset : ℕ) (rest : List ℕ)
    → offset ≤ max_value
    → decode_compression_ptr
        ((encode_compression_ptr (record { sent = []; written = 0 }) offset).sent ++ rest)
      ≡ some offset
decode_compression_ptr-encode_compression_ptr offset rest h =
    rw (encode_compression_ptr_lem (record { sent = []; written = 0 }) offset h) (
      decode_compression_ptr_lem (192 + offset / 256) (offset % 256) rest (omega arith)
        (omega arith)
      ∙ ground arith)

-- What a decoded pointer says of the octets it was read from.
pub record IsPointer (octets : List ℕ) (ptr : ℕ) : Type 0 where
  pub hi : ℕ
  pub lo : ℕ
  pub behind : List ℕ
  pub reads : octets ≡ hi ∷ lo ∷ behind
  pub hi_marked : 192 ≤ hi
  pub offset_is : ptr ≡ (hi - 192) * 256 + lo
  pub lo_byte : lo < 256

pub decode_compression_ptr-IsPointer :
    (octets : List ℕ) {ptr : ℕ}
    → IsBytes octets
    → decode_compression_ptr octets ≡ some ptr
    → IsPointer octets ptr
decode_compression_ptr-IsPointer [] b h = unfold decode_compression_ptr in cc
decode_compression_ptr-IsPointer (x ∷ []) b h = unfold decode_compression_ptr in cc
decode_compression_ptr-IsPointer (hi ∷ lo ∷ rest) {ptr} b h =
    let e : (if leb 192 hi then some ((hi - 192) * 256 + lo) else none) ≡ some ptr =
      sym (decode_compression_ptr_lem hi lo rest b.0 b.1.0) ∙ h in
    record {
      hi = hi;
      lo = lo;
      behind = rest;
      reads = refl;
      hi_marked = ground arith;
      offset_is = ground arith;
      lo_byte = b.1.0;
    }

-- An octet below 192 is the length of a label, not a pointer.
pub decode_compression_ptr-none :
    (octets : List ℕ) {len : ℕ} {rest : List ℕ}
    → IsBytes octets
    → octets ≡ len ∷ rest
    → len < 192
    → decode_compression_ptr octets ≡ none
decode_compression_ptr-none [] b e h = unfold decode_compression_ptr in refl
decode_compression_ptr-none (x ∷ []) b e h = unfold decode_compression_ptr in refl
decode_compression_ptr-none (hi ∷ lo ∷ rest) b e h =
    decode_compression_ptr_lem hi lo rest b.0 b.1.0 ∙ ground arith

pub decode_compression_ptr-some :
    (octets : List ℕ) {hi lo : ℕ} {rest : List ℕ}
    → IsBytes octets
    → octets ≡ hi ∷ lo ∷ rest
    → 192 ≤ hi
    → decode_compression_ptr octets ≡ some ((hi - 192) * 256 + lo)
decode_compression_ptr-some [] b e h = cc
decode_compression_ptr-some (x ∷ []) b e h = cc
decode_compression_ptr-some (hi ∷ lo ∷ rest) b e h =
    decode_compression_ptr_lem hi lo rest b.0 b.1.0 ∙ ground arith

-- An offset has 14 bits.
pub decode_compression_ptr-lt :
    (octets : List ℕ) {ptr : ℕ} → decode_compression_ptr octets ≡ some ptr → ptr < 16384
decode_compression_ptr-lt [] h = unfold decode_compression_ptr in cc
decode_compression_ptr-lt (x ∷ []) h = unfold decode_compression_ptr in cc
decode_compression_ptr-lt (hi ∷ lo ∷ rest) h =
    let o = offset_of (read_ntoh 2 (hi ∷ lo ∷ rest)).0 in
    unfold decode_compression_ptr in ground (arith, o)
