-- ===== src/Allocator/Align.antt =====
-- `align_right_diff` on an alignment that is a power of two.
use Prim.Native.Nat.{bit_and}
use mathlib.Core.Path.{subst}
use native.Mathlib.Nat.{mod-lt, div-add-mod, pow-succ', lt_of_mul-lt-mul_left, mod-eq_of_lt}
use corosig.Prelude.{ℕ, zero, suc, ◌+◌, ◌-◌, ◌*◌, ◌/◌, ◌%◌, ◌^◌, ◌≤◌, ◌<◌, ◌≡◌, sym, ap, ◌∙◌, arith}
use corosig.Prelude.Bits.{bit_and_ones, bit_and_shift, pow_pos}
use corosig.Allocator.{sub, align_right_diff}

pub pow_plus : (m w : ℕ) → 2 ^ (m + w) ≡ 2 ^ m * 2 ^ w
pow_plus zero w = let e : 0 + w ≡ w = omega arith in ap (λ (n : ℕ). 2 ^ n) e ∙ omega arith
pow_plus (suc m) w =
    let e : suc m + w ≡ suc (m + w) = omega arith in
    ap (λ (n : ℕ). 2 ^ n) e
    ∙ pow-succ' 2 (m + w)
    ∙ ap (λ (n : ℕ). 2 * n) (pow_plus m w)
    ∙ rw (pow-succ' 2 m) (omega arith)

high_ones : (size b : ℕ) → 2 ^ 64 ≡ size * suc b → 0 < size → 2 ^ 64 - 1 - (size - 1) ≡ b * size
high_ones size b e h = omega arith

quotient_bound : (x size b : ℕ) → x < size * b → x / size < b
quotient_bound x size b h =
    lt_of_mul-lt-mul_left size {m = x / size} {n = b} (omega (arith, div-add-mod x size))

-- `x & ~(2^m - 1)` on 64 bits.
mask_lem :
    (m w x : ℕ) → m + w ≡ 64 → x < 2 ^ 64 → bit_and x (2 ^ 64 - 1 - (2 ^ m - 1)) ≡ x / 2 ^ m * 2 ^ m
mask_lem m w x e h =
    let whole : 2 ^ 64 ≡ 2 ^ m * 2 ^ w = ap (λ (n : ℕ). 2 ^ n) (sym e) ∙ pow_plus m w in
    let some_ones : 2 ^ w ≡ suc (2 ^ w - 1) = omega (arith, pow_pos w) in
    let mask =
      high_ones (2 ^ m) (2 ^ w - 1) (whole ∙ ap (λ (n : ℕ). 2 ^ m * n) some_ones) (pow_pos m) in
    let bound = quotient_bound x (2 ^ m) (2 ^ w) (omega (arith, whole)) in
    ap (bit_and x) mask
    ∙ bit_and_shift m x (2 ^ w - 1)
    ∙ ap (λ (n : ℕ). n * 2 ^ m) (bit_and_ones w (x / 2 ^ m) ∙ mod-eq_of_lt bound)

next_multiple :
    (p size low high : ℕ)
    → high + low ≡ p + size - 1
    → low < size
    → p + size ≤ 2 ^ 64
    → (p + sub high p ≡ high) × (sub high p < size)
next_multiple p size low high e l h = (omega arith, omega arith)

-- For an alignment of 2^m, with m at most 63 and p + 2^m at most 2^64, `align_right_diff` is
-- less than the alignment, and leads from p to a multiple of it.
pub align_right_diff_lem :
    (m p : ℕ)
    → m ≤ 63
    → p + 2 ^ m ≤ 2 ^ 64
    → (q : ℕ) × (p + align_right_diff p (2 ^ m) ≡ q * 2 ^ m) × (align_right_diff p (2 ^ m) < 2 ^ m)
unfolding align_right_diff
align_right_diff_lem m p h l =
    let size = 2 ^ m in
    let x = p + size - 1 in
    let positive = pow_pos m in
    let e : (p + size + 2 ^ 64 - 1) % 2 ^ 64 ≡ x = omega (arith, positive, l) in
    let masked =
      ap (λ (n : ℕ). bit_and n (2 ^ 64 - 1 - (size - 1))) e
      ∙ mask_lem m (64 - m) x (omega arith) (omega (arith, positive, l)) in
    let whole : x / size * size + x % size ≡ x = omega (arith, div-add-mod x size) in
    let (sum, bound) =
      next_multiple p size (x % size) (x / size * size) whole (mod-lt x positive) l in
    let diff = ap (λ (n : ℕ). sub n p) masked in
    (x / size, ap (λ (n : ℕ). p + n) diff ∙ sum, subst (λ (n : ℕ). n < size) (sym diff) bound)
