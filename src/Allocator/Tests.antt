-- ===== src/Allocator/Tests.antt =====
-- Runs of `Allocator` on ten blocks from the address 4096 on.
use mathlib.Core.List.Perm
use corosig.Prelude.{
  some, ℕ, ◌+◌, ◌-◌, ◌*◌, ◌^◌, ◌≤◌, ◌<◌, ◌==◌, if◌then◌else◌, ◌≡◌, refl, ap, List, [], ◌∷◌, true,
  false, Bool, All, arith,
}
use corosig.Allocator.{
  BlockMetadata, Memory, Allocator, invalid_idx, blocks_amount, align_right_diff, construct,
  push_free_node, unlink_free_node, is_large, ceil_div, get_mem, set_blocks_owned, new_chunk,
  on_block, at_block, bypass_prev, bypass_next, push_front, push_back, default_initialize,
}
use corosig.Allocator.Allocating.{
  allocate, search_free, blocks_needed, align_diff, split_aligned, split_back, take_block,
  allocate_in, allocated, pointer, null, diverge, Allocation, found,
}
use corosig.Allocator.Releasing.{deallocate}
use corosig.Allocator.Chunks.{Chunk, frees}
use corosig.Allocator.FreeList.{IsFreeList}
use corosig.Allocator.Unlink.{unlink_free_node-IsFreeList}
use corosig.Allocator.Take.{left_over}
use corosig.Allocator.Align.{align_right_diff_lem}
use corosig.Allocator.FirstFit.{search-first_fit, first_fit, is_fitting}
use corosig.Allocator.Granted.{IsHeap}
use corosig.Allocator.Allocated.{IsAllocated, allocate_lem}
use corosig.Allocator.Construct.{construct-IsHeap}
use corosig.Allocator.Regions.{Region, AreApart}
use corosig.Allocator.Reachable.{
  Reaches, built, granted, released, IsSafe, Reaches-IsSafe, Reaches-AreApart,
}

abbrev header : ℕ → Bool → ℕ → ℕ → ℕ → BlockMetadata
header before used owned prev next = record {
  blocks_before = before;
  is_used = used;
  blocks_owned = owned;
  prev_free_block_idx = prev;
  next_free_block_idx = next;
}

-- A free chunk of three blocks, a used one of four, and a free one of three.
abbrev memory : Memory
memory i =
    if i == 0
    then header 0 false 3 invalid_idx 7
    else if i == 3
    then header 3 true 4 invalid_idx invalid_idx
    else header 4 false 3 0 invalid_idx

abbrev three_chunks : Allocator
three_chunks = record {
  first_free_block_idx = 0;
  last_free_block_idx = 7;
  address = 4096;
  size = 160;
  used = 64;
  peak = 64;
  mem = memory;
}

abbrev chunks : List Chunk
chunks = (3, false) ∷ (4, true) ∷ (3, false) ∷ []

three-IsFreeList : IsFreeList three_chunks (0 ∷ 7 ∷ [])
three-IsFreeList = record {
  first = refl;
  last = refl;
  chain = (refl, refl, (refl, refl, tt));
  distinct = (((λ q. omega arith), tt), (tt, tt));
  valid = ((λ q. omega arith), ((λ q. omega arith), tt));
}

three-IsHeap : IsHeap three_chunks chunks (0 ∷ 7 ∷ [])
unfolding blocks_amount
three-IsHeap = record {
  tiled = record {
    tiles = (
      (refl, refl, refl, omega arith, tt),
      ((refl, refl, refl, omega arith, (refl, refl)), ((refl, refl, refl, omega arith, tt), tt)),
    );
    all = refl;
    small = omega arith;
    listed = three-IsFreeList;
    members = Perm.refl (0 ∷ 7 ∷ []);
  };
  accounted = refl;
  placed = refl;
  peaked = omega arith;
}

unlink_free_node-IsFreeList_example : IsFreeList (unlink_free_node 7 three_chunks) (0 ∷ [])
unlink_free_node-IsFreeList_example =
    unlink_free_node-IsFreeList three_chunks (0 ∷ []) 7 [] three-IsFreeList

align_right_diff_lem_example :
    (q : ℕ) × (4112 + align_right_diff 4112 (2 ^ 6) ≡ q * 2 ^ 6)
    × (align_right_diff 4112 (2 ^ 6) < 2 ^ 6)
align_right_diff_lem_example = align_right_diff_lem 6 4112 (omega arith) (omega arith)

search-first_fit_example :
    search_free 3 0 20 16 three_chunks ≡ first_fit (is_fitting 20 16 three_chunks) (0 ∷ 7 ∷ [])
unfolding blocks_amount
search-first_fit_example =
    search-first_fit 3 invalid_idx 20 16 three_chunks (0 ∷ 7 ∷ []) (omega arith)
      (refl, refl, (refl, refl, tt)) ((omega arith), ((omega arith), tt)) (omega arith)

allocate_lem_example :
    IsAllocated three_chunks chunks (0 ∷ 7 ∷ []) 20 (2 ^ 4) (allocate 3 20 (2 ^ 4) three_chunks)
allocate_lem_example =
    allocate_lem three_chunks chunks (0 ∷ 7 ∷ []) 3 20 4 three-IsHeap (omega arith) (omega arith)
      (omega arith)

construct-IsHeap_example :
    (a : Allocator) × (construct 4090 170 memory ≡ some a)
    × IsHeap a (left_over 10) (frees 0 (left_over 10))
unfolding align_right_diff
construct-IsHeap_example =
    construct-IsHeap 4090 170 10 memory (omega arith) (omega arith) refl (omega arith)

-- The address that an allocation returns.
returned : Allocation → ℕ
returned (pointer p a) = p
returned (null a) = 0
returned diverge = 0

-- Two blocks are enough for 16 octets: they are those at the front of the free list.
small_returned : returned (allocate 3 16 16 three_chunks) ≡ 4112
unfolding returned allocate search_free blocks_needed ceil_div align_diff align_right_diff get_mem
    blocks_amount allocated allocate_in
small_returned = refl

large_returned : returned (allocate 3 100 16 three_chunks) ≡ 0
unfolding returned allocate search_free blocks_needed ceil_div align_diff align_right_diff get_mem
    blocks_amount allocated allocate_in
large_returned = refl

-- A size whose sum with that of the header wraps around is granted.
wrapped_returned : returned (allocate 3 (2 ^ 64 - 16) 16 three_chunks) ≡ 4112
unfolding returned allocate search_free blocks_needed ceil_div align_diff align_right_diff get_mem
    blocks_amount allocated allocate_in
wrapped_returned = refl

-- The chunk at block 0 for 16 octets, then the one at block 7 for 20.
abbrev one_granted : Allocator
one_granted = (allocate_in 0 16 (2 ^ 4) three_chunks).1

first_pointer :
    allocate 3 16 (2 ^ 4) three_chunks
    ≡ pointer (allocate_in 0 16 (2 ^ 4) three_chunks).0 one_granted
unfolding allocate allocated search_free blocks_needed ceil_div align_diff align_right_diff get_mem
    blocks_amount
first_pointer = refl

second_search : search_free 3 one_granted.first_free_block_idx 20 (2 ^ 4) one_granted ≡ found 7
unfolding search_free blocks_needed ceil_div align_diff align_right_diff get_mem blocks_amount
    allocate_in take_block split_aligned split_back set_blocks_owned unlink_free_node push_free_node
    bypass_prev bypass_next push_front push_back is_large new_chunk on_block at_block
    default_initialize
second_search = refl

second_pointer :
    allocate 3 20 (2 ^ 4) one_granted
    ≡ pointer (allocate_in 7 20 (2 ^ 4) one_granted).0 (allocate_in 7 20 (2 ^ 4) one_granted).1
unfolding allocate allocated
second_pointer = ap (allocated one_granted 20 (2 ^ 4)) second_search

one_granted-address : (one_granted.address ≡ 4096) × (one_granted.size ≡ 160)
unfolding allocate_in take_block split_aligned split_back set_blocks_owned unlink_free_node
    push_free_node bypass_prev bypass_next push_front push_back is_large new_chunk on_block at_block
    default_initialize blocks_needed ceil_div align_diff align_right_diff get_mem blocks_amount
one_granted-address = (refl, refl)

abbrev two_held : List Region
two_held =
    ((allocate_in 7 20 (2 ^ 4) one_granted).0, 20)
    ∷ ((allocate_in 0 16 (2 ^ 4) three_chunks).0, 16)
    ∷ []

two_reached : Reaches three_chunks (allocate_in 7 20 (2 ^ 4) one_granted).1 two_held
two_reached =
    let place = one_granted-address in
    granted 3 20 4 (allocate_in 7 20 (2 ^ 4) one_granted).0
      (granted 3 16 4 (allocate_in 0 16 (2 ^ 4) three_chunks).0 built (omega arith) (omega arith)
        first_pointer)
      (omega arith) (omega (arith, place.0, place.1)) second_pointer

Reaches-AreApart_example :
    AreApart two_held
    × All
        (λ r.
          ((allocate_in 7 20 (2 ^ 4) one_granted).1.address ≤ r.0)
          × (r.0 + r.1
              ≤ (allocate_in 7 20 (2 ^ 4) one_granted).1.address
                + (allocate_in 7 20 (2 ^ 4) one_granted).1.size))
        two_held
Reaches-AreApart_example =
    Reaches-AreApart three_chunks chunks (0 ∷ 7 ∷ []) three-IsHeap two_reached

one_left :
    Reaches three_chunks
      (deallocate (allocate_in 7 20 (2 ^ 4) one_granted).0 (allocate_in 7 20 (2 ^ 4) one_granted).1)
      (((allocate_in 0 16 (2 ^ 4) three_chunks).0, 16) ∷ [])
one_left =
    released [] (allocate_in 7 20 (2 ^ 4) one_granted).0 20
      (((allocate_in 0 16 (2 ^ 4) three_chunks).0, 16) ∷ []) two_reached

Reaches-IsSafe_example :
    IsSafe
      (deallocate (allocate_in 7 20 (2 ^ 4) one_granted).0 (allocate_in 7 20 (2 ^ 4) one_granted).1)
      (((allocate_in 0 16 (2 ^ 4) three_chunks).0, 16) ∷ [])
Reaches-IsSafe_example = Reaches-IsSafe three_chunks chunks (0 ∷ 7 ∷ []) three-IsHeap one_left
