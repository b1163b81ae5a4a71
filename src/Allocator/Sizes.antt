-- ===== src/Allocator/Sizes.antt =====
-- The numbers that `Allocator::allocate` works out for a free chunk.
use native.Mathlib.Nat.{lt_of_mul-lt-mul_right}
use corosig.Prelude.{
  ℕ, zero, suc, ◌+◌, ◌-◌, ◌*◌, ◌/◌, ◌%◌, ◌^◌, ◌≤◌, ◌<◌, ◌==◌, ◌≡◌, refl, sym, ap, ◌∙◌, inl, inr,
  List, [], ◌∷◌, ◌++◌, true, false, Bool-cases, arith, ==_iff, leb, leb→le,
}
use corosig.Allocator.{
  Allocator, sub, block_size, blocks_amount, ceil_div, get_mem, align_right_diff,
}
use corosig.Allocator.Allocating.{align_diff, blocks_needed, allocate_in}
use corosig.Allocator.Align.{align_right_diff_lem, pow_plus}
use corosig.Allocator.Front.{sub-exact}
use corosig.Allocator.Chunks.{Chunk, total}

-- The blocks of the used chunks.
abbrev pub used_blocks : List Chunk → ℕ
used_blocks [] = 0
used_blocks ((k, true) ∷ cs) = k + used_blocks cs
used_blocks ((k, false) ∷ cs) = used_blocks cs

pub used_blocks-append :
    (xs ys : List Chunk) → used_blocks (xs ++ ys) ≡ used_blocks xs + used_blocks ys
used_blocks-append [] ys = omega arith
used_blocks-append ((k, true) ∷ xs) ys = omega (arith, used_blocks-append xs ys)
used_blocks-append ((k, false) ∷ xs) ys = used_blocks-append xs ys

pub used_blocks_bound : (cs : List Chunk) → used_blocks cs ≤ total cs
used_blocks_bound [] = omega arith
used_blocks_bound ((k, true) ∷ cs) = omega (arith, used_blocks_bound cs)
used_blocks_bound ((k, false) ∷ cs) = omega (arith, used_blocks_bound cs)

-- `ceil_div` rounds upwards.
pub ceil_div_lem :
    (a : ℕ)
    → (a ≤ ceil_div a block_size * block_size)
      × (ceil_div a block_size * block_size < a + block_size)
unfolding ceil_div
ceil_div_lem a = elim (Bool-cases (a % block_size == 0)) [
  | inl e ↦ let z = (==_iff (a % block_size) 0).0 e in rw e ((omega arith), (omega arith))
  | inr e ↦ let z : 0 < a % block_size = ground arith in rw e ((omega arith), (omega arith))
]

-- The place of an allocation in a chunk from block `i` on: the blocks that are skipped, and those
-- that are used.
pub record IsPlaced (a : Allocator) (i size alignment skip n : ℕ) : Type 0 where
  pub skipped : align_diff i alignment a / block_size ≡ skip
  pub needs : blocks_needed i size alignment a ≡ skip + n
  pub needed : sub (blocks_needed i size alignment a) skip ≡ n
  pub positive : 0 < n
  pub exact : (allocate_in i size alignment a).0 ≡ a.address + (i + skip) * block_size + block_size
  pub upper : (allocate_in i size alignment a).0 + size ≤ a.address + (i + skip + n) * block_size
  pub multiple : ℕ
  pub aligned : (allocate_in i size alignment a).0 ≡ multiple * alignment

power_split : (m : ℕ) → 4 ≤ m → 2 ^ m ≡ 16 * 2 ^ (m - 4)
power_split m h =
    let e : 4 + (m - 4) ≡ m = omega arith in ap (λ (j : ℕ). 2 ^ j) (sym e) ∙ pow_plus 4 (m - 4)

small_power : (m : ℕ) → m ≤ 3 → (j : ℕ) × (16 ≡ j * 2 ^ m)
small_power zero h = (16, refl)
small_power (suc zero) h = (8, refl)
small_power (suc (suc zero)) h = (4, refl)
small_power (suc (suc (suc zero))) h = (2, refl)
small_power (suc (suc (suc (suc m)))) h = absurd (omega arith)

same_multiple : (c diff q size : ℕ) → c * size + diff ≡ q * size → diff < size → diff ≡ 0
same_multiple c diff q size e l =
    let below : q < suc c = lt_of_mul-lt-mul_right size {m = q} {n = suc c} (omega arith) in
    let above : c < suc q = lt_of_mul-lt-mul_right size {m = c} {n = suc q} (omega arith) in
    let same : q ≡ c = omega arith in
    let e' : c * size + diff ≡ c * size = e ∙ ap (λ (j : ℕ). j * size) same in omega arith

-- From a whole block on, the next multiple of a power of two is a number of whole blocks away.
whole_blocks :
    (start diff m q : ℕ)
    → start + diff ≡ q * 2 ^ m
    → diff < 2 ^ m
    → start % block_size ≡ 0
    → diff % block_size ≡ 0
whole_blocks start diff m q e l z = elim (Bool-cases (leb m 3)) [
  | inl b ↦
      let (j, p) = small_power m (leb→le m 3 b) in
      let c = start / block_size * j in
      let whole : start ≡ c * 2 ^ m =
        let s : start ≡ start / block_size * 16 = omega arith in
        s ∙ ap (λ (n : ℕ). start / block_size * n) p ∙ omega arith in
      let none = same_multiple c diff q (2 ^ m) (ap (λ (n : ℕ). n + diff) (sym whole) ∙ e) l in
      omega arith
  | inr b ↦
      let big : 4 ≤ m = ground arith in
      let e' : start + diff ≡ q * (16 * 2 ^ (m - 4)) =
        e ∙ ap (λ (n : ℕ). q * n) (power_split m big) in
      omega arith
]

pub place :
    (a : Allocator) (i size m : ℕ)
    → m ≤ 63
    → i < blocks_amount a
    → a.address % block_size ≡ 0
    → a.address + a.size + size + 2 ^ m + block_size ≤ 2 ^ 64
    → (skip : ℕ) × (n : ℕ) × IsPlaced a i size (2 ^ m) skip n
unfolding align_diff blocks_needed get_mem allocate_in blocks_amount
place a i size m h l z b =
    let start = get_mem i a in
    let (q, sum, bound) = align_right_diff_lem m start h (omega arith) in
    let diff = align_right_diff start (2 ^ m) in
    let even = whole_blocks start diff m q sum bound (omega arith) in
    let bytes = block_size + size + diff in
    let whole : bytes % 2 ^ 64 ≡ bytes = omega arith in
    let needs : blocks_needed i size (2 ^ m) a ≡ ceil_div bytes block_size =
      ap (λ (k : ℕ). ceil_div k block_size) whole in
    let (least, most) = ceil_div_lem bytes in
    let k = ceil_div bytes block_size in
    let skip = diff / block_size in
    let split : k ≡ skip + (k - skip) = omega arith in
    (
      skip,
      k - skip,
      record {
        skipped = refl;
        needs = needs ∙ split;
        needed =
            ap (λ (j : ℕ). sub j skip) needs
            ∙ sub-exact k skip (k - skip) (sym split) (omega arith);
        positive = omega arith;
        exact = omega arith;
        upper = omega arith;
        multiple = q;
        aligned = omega (arith, sum);
      },
    )
