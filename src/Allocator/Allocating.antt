-- ===== src/Allocator/Allocating.antt =====
-- `Allocator::allocate` of src/container/Allocator.cpp.
use Prim.Native.Nat.{max}
use corosig.Prelude.{ℕ, zero, suc, ◌+◌, ◌-◌, ◌*◌, ◌/◌, ◌%◌, ◌^◌, true, not, ltb, if◌then◌else◌}
use corosig.Allocator.{
  Allocator, block_size, sub, on_block, align_right_diff, ceil_div, blocks_amount, set_blocks_owned,
  push_free_node, unlink_free_node, get_mem, new_chunk,
}

-- What `allocate` works out for a free block.
unfoldable pub align_diff : ℕ → ℕ → Allocator → ℕ
unfolding align_right_diff get_mem
align_diff idx alignment a = align_right_diff (get_mem idx a) alignment

unfoldable pub blocks_needed : ℕ → ℕ → ℕ → Allocator → ℕ
unfolding align_diff ceil_div
blocks_needed idx size alignment a =
    ceil_div ((block_size + size + align_diff idx alignment a) % 2 ^ 64) block_size

pub data Search : Type 0 where
  found : ℕ → Search
  exhausted diverge : Search

-- The loop of `allocate`, up to the block that is large enough.
unfoldable pub search_free : ℕ → ℕ → ℕ → ℕ → Allocator → Search
unfolding blocks_needed blocks_amount
search_free zero idx size alignment a = diverge
search_free (suc fuel) idx size alignment a =
    let next = search_free fuel (a.mem idx).next_free_block_idx size alignment a in
    if not (ltb idx (blocks_amount a))
    then exhausted
    else if ltb (a.mem idx).blocks_owned (blocks_needed idx size alignment a)
    then next
    else found idx

-- The blocks in front of an aligned address become a free chunk of their own.
unfoldable pub split_front : ℕ → ℕ → Allocator → Allocator
split_front idx skip a =
    let owned = sub (a.mem idx).blocks_owned skip in
    let front = push_free_node idx (unlink_free_node idx (set_blocks_owned idx skip a)) in
    new_chunk (idx + skip) owned front

-- The blocks behind what is needed become a free chunk of their own. `old` is what was owned.
unfoldable pub split_back : ℕ → ℕ → ℕ → Allocator → Allocator
split_back idx needed old a =
    if ltb needed old
    then push_free_node (idx + needed) (new_chunk (idx + needed) (old - needed) a)
    else a

unfoldable pub take_block : ℕ → ℕ → Allocator → Allocator
take_block idx needed a =
    let old = (a.mem idx).blocks_owned in
    let unlinked = unlink_free_node idx a in
    let taken =
      set_blocks_owned idx needed (on_block idx (λ b. record b { is_used = true }) unlinked) in
    let split = split_back idx needed old taken in
    record split {
      used = (split.used + needed * block_size) % 2 ^ 64;
      peak = max split.peak ((split.used + needed * block_size) % 2 ^ 64);
    }

-- The block of the aligned address gets a header of its own, unless it is the first one.
unfoldable pub split_aligned : ℕ → ℕ → Allocator → Allocator
split_aligned idx zero a = a
split_aligned idx (suc skip) a = split_front idx (suc skip) a

-- `allocate` in the free block that the search has found: the address, and the allocator.
unfoldable pub allocate_in : ℕ → ℕ → ℕ → Allocator → ℕ × Allocator
allocate_in idx size alignment a =
    let diff = align_diff idx alignment a in
    let skip = diff / block_size in
    let needed = sub (blocks_needed idx size alignment a) skip in
    (
      get_mem (idx + skip) a + diff - skip * block_size,
      take_block (idx + skip) needed (split_aligned idx skip a),
    )

pub data Allocation : Type 0 where
  pointer : ℕ → Allocator → Allocation
  null : Allocator → Allocation
  diverge : Allocation

unfoldable pub allocated : Allocator → ℕ → ℕ → Search → Allocation
allocated a size alignment (found idx) =
    let (p, a') = allocate_in idx size alignment a in pointer p a'
allocated a size alignment exhausted = null a
allocated a size alignment diverge = diverge

unfoldable pub allocate : ℕ → ℕ → ℕ → Allocator → Allocation
allocate fuel size alignment a =
    allocated a size alignment (search_free fuel a.first_free_block_idx size alignment a)
