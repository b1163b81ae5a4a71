-- ===== src/Allocator/Construct.antt =====
-- The constructor of `Allocator`.
use Prim.Native.Nat.{min}
use mathlib.Core.Path.{subst}
use mathlib.Core.List.Perm
use corosig.Prelude.{
  ℕ, zero, suc, ◌+◌, ◌-◌, ◌*◌, ◌/◌, ◌%◌, ◌^◌, ◌≤◌, ◌<◌, ◌==◌, if◌then◌else◌, ◌≡◌, refl, sym, ap,
  ◌∙◌, [], ◌∷◌, false, some, ltb, arith, differ-==, subst_two,
}
use corosig.Allocator.{
  Allocator, Memory, block_size, blocks_amount, align_right_diff, unfilled, first_block,
  construct_behind, construct, on_block, push_free_node, is_large,
}
use corosig.Allocator.FreeList.{IsFreeList, push_free_node-IsFreeList, IsUnlinked, pushed-nil}
use corosig.Allocator.Frames.{push-SameShape}
use corosig.Allocator.Chunks.{frees}
use corosig.Allocator.Kept.{SameRest-trans, SameRest-blocks, push-SameRest, on_block-SameRest}
use corosig.Allocator.Cut.{on_block-same}
use corosig.Allocator.Take.{left_over}
use corosig.Allocator.Align.{align_right_diff_lem}
use corosig.Allocator.Granted.{IsHeap}

module _ (address size : ℕ) (mem : Memory) where
  unfilled-IsFreeList : IsFreeList (unfilled address size mem) []
  unfolding unfilled
  unfilled-IsFreeList = record { first = refl; last = refl; chain = tt; distinct = tt; valid = tt }

  unfilled_blocks : blocks_amount (unfilled address size mem) ≡ size / block_size
  unfolding unfilled blocks_amount
  unfilled_blocks = refl

  -- Without a whole block there is no chunk.
  unfilled-IsHeap :
      blocks_amount (unfilled address size mem) ≡ 0
      → address % block_size ≡ 0
      → IsHeap (unfilled address size mem) [] []
  unfolding unfilled
  unfilled-IsHeap e z = record {
    tiled = record {
      tiles = tt;
      all = sym e;
      small = omega arith;
      listed = unfilled-IsFreeList;
      members = Perm.refl [];
    };
    accounted = refl;
    placed = z;
    peaked = omega arith;
  }

  one_block-IsFreeList :
      (n : ℕ) → IsFreeList (on_block 0 (λ m. first_block n) (unfilled address size mem)) []
  unfolding unfilled on_block
  one_block-IsFreeList n = record {
    first = refl;
    last = refl;
    chain = tt;
    distinct = tt;
    valid = tt;
  }

  unfilled_used : (unfilled address size mem).used ≡ 0
  unfolding unfilled
  unfilled_used = refl

  unfilled_peak : (unfilled address size mem).peak ≡ 0
  unfolding unfilled
  unfilled_peak = refl

  unfilled_address : (unfilled address size mem).address ≡ address
  unfolding unfilled
  unfilled_address = refl

  filled-IsHeap :
      (n : ℕ)
      → blocks_amount (unfilled address size mem) ≡ n
      → 0 < n
      → n < 2 ^ 31
      → address % block_size ≡ 0
      → IsHeap
          (push_free_node 0 (on_block 0 (λ b. first_block n) (unfilled address size mem)))
          ((n, false) ∷ [])
          (0 ∷ [])
  filled-IsHeap n e l h z =
      let a = unfilled address size mem in
      let b = on_block 0 (λ m. first_block n) a in
      let c = push_free_node 0 b in
      let head = on_block-same 0 (λ m. first_block n) a in
      let listed : IsFreeList b [] = one_block-IsFreeList n in
      let unlinked : IsUnlinked (b.mem 0) =
        (ap (λ m. m.prev_free_block_idx) head, ap (λ m. m.next_free_block_idx) head) in
      let pushed_list = push_free_node-IsFreeList 0 b [] listed unlinked tt (λ q. omega arith) in
      let shape = push-SameShape 0 b 0 in
      let rest = SameRest-trans (push-SameRest 0 b) (on_block-SameRest 0 (λ m. first_block n) a) in
      let amount : blocks_amount c ≡ n = SameRest-blocks rest ∙ e in
      let small : n % 2 ^ 32 ≡ n = omega arith in
      record {
        tiled = record {
          tiles = (
            (
              shape.before ∙ ap (λ m. m.blocks_before) head,
              shape.is_used ∙ ap (λ m. m.is_used) head,
              shape.owned ∙ ap (λ m. m.blocks_owned) head ∙ small,
              l,
              tt,
            ),
            tt,
          );
          all = omega (arith, amount);
          small = subst (λ (k : ℕ). k < 2 ^ 31) (sym amount) h;
          listed = subst (IsFreeList c) (pushed-nil (is_large 0 b) 0) pushed_list;
          members = Perm.refl (0 ∷ []);
        };
        accounted = rest.used ∙ unfilled_used;
        placed = ap (λ (k : ℕ). k % block_size) (rest.address ∙ unfilled_address) ∙ z;
        peaked =
            subst_two (λ (u p : ℕ). u ≤ p) (sym (rest.used ∙ unfilled_used))
              (sym (rest.peak ∙ unfilled_peak)) (omega arith);
      }

built-IsHeap :
    (address size : ℕ) (mem : Memory) (n : ℕ)
    → blocks_amount (unfilled address size mem) ≡ n
    → n < 2 ^ 31
    → address % block_size ≡ 0
    → IsHeap
        (if n == 0
          then unfilled address size mem
          else push_free_node 0 (on_block 0 (λ b. first_block n) (unfilled address size mem)))
        (left_over n)
        (frees 0 (left_over n))
built-IsHeap address size mem zero e h z = unfilled-IsHeap address size mem e z
built-IsHeap address size mem (suc n) e h z =
    let some : (suc n == 0) ≡ false = differ-== (suc n) 0 (λ q. omega arith) in
    rw some (filled-IsHeap address size mem (suc n) e (omega arith) h z)

construct_behind-IsHeap :
    (address size n : ℕ) (mem : Memory)
    → address + block_size ≤ 2 ^ 64
    → (size - align_right_diff address block_size) / block_size ≡ n
    → n < 2 ^ 31
    → IsHeap
        (construct_behind (align_right_diff address block_size) address size mem)
        (left_over n)
        (frees 0 (left_over n))
unfolding construct_behind
construct_behind-IsHeap address size n mem room e h =
    let skip = align_right_diff address block_size in
    let left = size - skip in
    let fitting = min (left - left % block_size) (0xFFFFFFFF * block_size) in
    let (q, sum, bound) = align_right_diff_lem 4 address (omega arith) room in
    let z : (address + skip) % block_size ≡ 0 = omega (arith, sum) in
    let amount : blocks_amount (unfilled (address + skip) fitting mem) ≡ n =
      unfilled_blocks (address + skip) fitting mem ∙ omega arith in
    subst
      (λ (k : ℕ).
        IsHeap
          (if k == 0
            then unfilled (address + skip) fitting mem
            else push_free_node 0
                (on_block 0 (λ b. first_block k) (unfilled (address + skip) fitting mem)))
          (left_over n) (frees 0 (left_over n)))
      (sym amount) (built-IsHeap (address + skip) fitting mem n amount h z)

-- When the address is at least 16 octets from the end of the address space, the
-- memory has as many octets as its alignment skips, and fewer than 2^31 whole blocks fit behind it, the
-- constructor makes a heap of one free chunk with all
-- of these blocks, which is alone in the free list, or of no chunk when no block fits.
pub construct-IsHeap :
    (address size n : ℕ) (mem : Memory)
    → address + block_size ≤ 2 ^ 64
    → align_right_diff address block_size ≤ size
    → (size - align_right_diff address block_size) / block_size ≡ n
    → n < 2 ^ 31
    → (a : Allocator) × (construct address size mem ≡ some a)
      × IsHeap a (left_over n) (frees 0 (left_over n))
unfolding construct
construct-IsHeap address size n mem room inside e h =
    let skip = align_right_diff address block_size in
    let defined : ltb size skip ≡ false = ground arith in
    (
      construct_behind skip address size mem,
      rw defined refl,
      construct_behind-IsHeap address size n mem room e h,
    )
