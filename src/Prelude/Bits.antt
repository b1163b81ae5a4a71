-- ===== src/Prelude/Bits.antt =====
-- Masks and shifts as arithmetic, for every width.
use Prim.Native.Nat.{
  ℕ, zero, suc, ◌+◌, ◌-◌, ◌*◌, ◌/◌, ◌%◌, ◌^◌, ◌≤◌, ◌<◌, min, max, bit_and, bit_or, digits,
  bit_and-bitwise, bit_or-bitwise,
}
use mathlib.Core.Path.{◌≡◌, refl, sym, ap, ap₂, subst, ◌∙◌}
use native.Mathlib.Nat.{pow-succ', div-div-eq-div-mul, div-add-mod}
use native.Mathlib.Omega.{arith}

-- Fuel above the first operand is spare.
module _ (z : ℕ → ℕ) (f : ℕ → ℕ → ℕ) where
  one_more : (k a b : ℕ) → a ≤ k → digits z f (suc k) a b ≡ digits z f k a b
  one_more zero zero b h = refl
  one_more (suc k) zero b h = refl
  one_more zero (suc a) b h = absurd (omega arith)
  one_more (suc k) (suc a) b h = omega (arith, one_more k (suc a / 2) (b / 2) (omega arith))

  spare : (extra k a b : ℕ) → a ≤ k → digits z f (extra + k) a b ≡ digits z f k a b
  spare zero k a b h = let e : 0 + k ≡ k = omega arith in ap (λ n. digits z f n a b) e
  spare (suc extra) k a b h =
      let e : suc extra + k ≡ suc (extra + k) = omega arith in
      ap (λ n. digits z f n a b) e ∙ one_more (extra + k) a b (omega arith) ∙ spare extra k a b h

  -- An operation that the recursion defines works on the lowest digit and on the rest.
  by_digit :
      (op : ℕ → ℕ → ℕ)
      → ((a b : ℕ) → op a b ≡ digits z f a a b)
      → ((b : ℕ) → z b ≡ z (b / 2) * 2 + f 0 (b % 2))
      → (a b : ℕ) → op a b ≡ op (a / 2) (b / 2) * 2 + f (a % 2) (b % 2)
  by_digit op law base zero b = omega (arith, law 0 b, law 0 (b / 2), base b)
  by_digit op law base (suc a) b =
      let half = suc a / 2 in
      let split : (a - half) + half ≡ a = omega arith in
      let fuel : digits z f a half (b / 2) ≡ digits z f half half (b / 2) =
        subst (λ n. digits z f n half (b / 2) ≡ digits z f half half (b / 2)) split
          (spare (a - half) half half (b / 2) (omega arith)) in
      omega (arith, law (suc a) b, law half (b / 2), fuel)

pub bit_and_step : (a b : ℕ) → bit_and a b ≡ bit_and (a / 2) (b / 2) * 2 + min (a % 2) (b % 2)
bit_and_step = by_digit (λ b. zero) min bit_and bit_and-bitwise (λ b. omega arith)

pub bit_or_step : (a b : ℕ) → bit_or a b ≡ bit_or (a / 2) (b / 2) * 2 + max (a % 2) (b % 2)
bit_or_step = by_digit (λ b. b) max bit_or bit_or-bitwise (λ b. omega arith)

pub zero-bit_or : (b : ℕ) → bit_or 0 b ≡ b
zero-bit_or = bit_or-bitwise 0

-- A function of a number is known from its value at 0 and how it treats a digit.
same_digits :
    (d g k : ℕ → ℕ)
    → ((a : ℕ) → g a ≡ g (a / 2) * 2 + d (a % 2))
    → ((a : ℕ) → k a ≡ k (a / 2) * 2 + d (a % 2))
    → g 0 ≡ k 0
    → (bound a : ℕ) → a ≤ bound
    → g a ≡ k a
same_digits d g k hg hk h0 bound zero h = h0
same_digits d g k hg hk h0 zero (suc a) h = absurd (omega arith)
same_digits d g k hg hk h0 (suc bound) (suc a) h =
    omega
      (arith, hg (suc a), hk (suc a), same_digits d g k hg hk h0 bound (suc a / 2) (omega arith))

bit_and-zero : (a : ℕ) → bit_and a 0 ≡ 0
bit_and-zero a =
    same_digits (λ x. min x 0) (λ n. bit_and n 0) (λ n. 0) (λ n. bit_and_step n 0)
      (λ n. omega arith) refl a a (omega arith)

pub bit_or-zero : (a : ℕ) → bit_or a 0 ≡ a
bit_or-zero a =
    same_digits (λ x. max x 0) (λ n. bit_or n 0) (λ n. n) (λ n. bit_or_step n 0) (λ n. omega arith)
      refl a a (omega arith)

double : (n : ℕ) → 2 ^ suc n ≡ 2 * 2 ^ n
double n = pow-succ' 2 n

pub pow_pos : (n : ℕ) → 0 < 2 ^ n
pow_pos zero = omega arith
pow_pos (suc n) = omega (arith, double n, pow_pos n)

div_pow_step : (a n : ℕ) → a / 2 ^ suc n ≡ a / 2 / 2 ^ n
div_pow_step a n = rw (double n) (sym (div-div-eq-div-mul a 2 (2 ^ n)))

mul_double : (h n : ℕ) → h * 2 ^ suc n ≡ h * 2 ^ n * 2
mul_double h n = rw (double n) (omega arith)

half_of : (a x : ℕ) → x < 2 → (a * 2 + x) / 2 ≡ a
half_of a x h = omega arith

last_of : (a x : ℕ) → x < 2 → (a * 2 + x) % 2 ≡ x
last_of a x h = omega arith

bit_and_double :
    (a b x y : ℕ) → x < 2 → y < 2 → bit_and (a * 2 + x) (b * 2 + y) ≡ bit_and a b * 2 + min x y
bit_and_double a b x y hx hy =
    bit_and_step (a * 2 + x) (b * 2 + y)
    ∙ rw (half_of a x hx, half_of b y hy, last_of a x hx, last_of b y hy)

bit_or_double :
    (a b x y : ℕ) → x < 2 → y < 2 → bit_or (a * 2 + x) (b * 2 + y) ≡ bit_or a b * 2 + max x y
bit_or_double a b x y hx hy =
    bit_or_step (a * 2 + x) (b * 2 + y)
    ∙ rw (half_of a x hx, half_of b y hy, last_of a x hx, last_of b y hy)

halves : (a : ℕ) → a / 2 * 2 + a % 2 ≡ a
halves a = omega arith

mod_pow_step : (a n : ℕ) → a % 2 ^ suc n ≡ a / 2 % 2 ^ n * 2 + a % 2
mod_pow_step a n =
    let whole : 2 ^ suc n * (a / 2 / 2 ^ n) + a % 2 ^ suc n ≡ a =
      ap (λ (t : ℕ). 2 ^ suc n * t + a % 2 ^ suc n) (sym (div_pow_step a n))
      ∙ div-add-mod a (2 ^ suc n) in
    omega
      (arith, whole, ap (λ (t : ℕ). t * (a / 2 / 2 ^ n)) (double n), div-add-mod (a / 2) (2 ^ n))

-- x & (2^w - 1)
pub bit_and_ones : (w a : ℕ) → bit_and a (2 ^ w - 1) ≡ a % 2 ^ w
bit_and_ones zero a = bit_and-zero a ∙ omega arith
bit_and_ones (suc w) a =
    let ones : (2 ^ w - 1) * 2 + 1 ≡ 2 ^ suc w - 1 = omega (arith, double w, pow_pos w) in
    ap₂ bit_and (sym (halves a)) (sym ones)
    ∙ bit_and_double (a / 2) (2 ^ w - 1) (a % 2) 1 (omega arith) (omega arith)
    ∙ omega (arith, bit_and_ones w (a / 2), mod_pow_step a w)

-- A mask whose k lowest digits are 0.
pub bit_and_shift : (k a b : ℕ) → bit_and a (b * 2 ^ k) ≡ bit_and (a / 2 ^ k) b * 2 ^ k
bit_and_shift zero a b =
    let e : b * 1 ≡ b = omega arith in let d : a / 1 ≡ a = omega arith in rw (e, d) (omega arith)
bit_and_shift (suc k) a b =
    let e : b * 2 ^ suc k ≡ b * 2 ^ k * 2 + 0 = omega (arith, mul_double b k) in
    ap₂ bit_and (sym (halves a)) e
    ∙ bit_and_double (a / 2) (b * 2 ^ k) (a % 2) 0 (omega arith) (omega arith)
    ∙ rw (bit_and_shift k (a / 2) b, div_pow_step a k)
        (omega (arith, mul_double (bit_and (a / 2 / 2 ^ k) b) k))

-- A mask whose k lowest digits are 1.
pub bit_and_low_ones :
    (k a b : ℕ) → bit_and a (b * 2 ^ k + (2 ^ k - 1)) ≡ bit_and (a / 2 ^ k) b * 2 ^ k + a % 2 ^ k
bit_and_low_ones zero a b =
    let e : b * 1 + (1 - 1) ≡ b = omega arith in
    let d : a / 1 ≡ a = omega arith in rw (e, d) (omega arith)
bit_and_low_ones (suc k) a b =
    let e : b * 2 ^ suc k + (2 ^ suc k - 1) ≡ (b * 2 ^ k + (2 ^ k - 1)) * 2 + 1 =
      omega (arith, mul_double b k, double k, pow_pos k) in
    ap₂ bit_and (sym (halves a)) e
    ∙ bit_and_double (a / 2) (b * 2 ^ k + (2 ^ k - 1)) (a % 2) 1 (omega arith) (omega arith)
    ∙ rw (bit_and_low_ones k (a / 2) b, div_pow_step a k)
        (omega (arith, mul_double (bit_and (a / 2 / 2 ^ k) b) k, mod_pow_step a k))

-- Digits of the two operands that do not meet are added.
pub bit_or_low : (w h v : ℕ) → v < 2 ^ w → bit_or (h * 2 ^ w) v ≡ h * 2 ^ w + v
bit_or_low zero h v l =
    ap (bit_or (h * 1)) (let e : v ≡ 0 = omega arith in e) ∙ bit_or-zero (h * 1) ∙ omega arith
bit_or_low (suc w) h v l =
    let e : h * 2 ^ suc w ≡ h * 2 ^ w * 2 + 0 = omega (arith, mul_double h w) in
    ap₂ bit_or e (sym (halves v))
    ∙ bit_or_double (h * 2 ^ w) (v / 2) 0 (v % 2) (omega arith) (omega arith)
    ∙ omega (arith, bit_or_low w h (v / 2) (omega (arith, double w)), mul_double h w)

pub bit_or_shift :
    (k h l b : ℕ) → l < 2 ^ k → bit_or (h * 2 ^ k + l) (b * 2 ^ k) ≡ bit_or h b * 2 ^ k + l
bit_or_shift zero h l b p =
    let e : h * 1 + l ≡ h = omega arith in
    let d : b * 1 ≡ b = omega arith in rw (e, d) (omega arith)
bit_or_shift (suc k) h l b p =
    let e : h * 2 ^ suc k + l ≡ (h * 2 ^ k + l / 2) * 2 + l % 2 = omega (arith, mul_double h k) in
    let d : b * 2 ^ suc k ≡ b * 2 ^ k * 2 + 0 = omega (arith, mul_double b k) in
    ap₂ bit_or e d
    ∙ bit_or_double (h * 2 ^ k + l / 2) (b * 2 ^ k) (l % 2) 0 (omega arith) (omega arith)
    ∙ omega (arith, bit_or_shift k h (l / 2) b (omega (arith, double k)), mul_double (bit_or h b) k)
