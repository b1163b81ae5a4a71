-- ===== src/Allocator.antt =====
-- `Allocator` of include/corosig/container/Allocator.hpp and src/container/Allocator.cpp, in a build
-- without the address sanitizer. The memory is seen as its block headers: `mem i` is what lies in
-- the 16 octets of block i, a header or anything else.
pub mod Allocating
pub mod Releasing
pub mod Distinct
pub mod Chain
pub mod FreeList
pub mod Bypass
pub mod Unlink
pub mod Frames
pub mod Others
pub mod Chunks
pub mod Owned
pub mod Open
pub mod Kept
pub mod Members
pub mod Heap
pub mod Shift
pub mod Cut
pub mod Hole
pub mod Take
pub mod Front
pub mod Allocate
pub mod FirstFit
pub mod Locate
pub mod Align
pub mod Sizes
pub mod Granted
pub mod Allocated
pub mod Join
pub mod MergeFront
pub mod MergeBack
pub mod Deallocate
pub mod Construct
pub mod Restores
pub mod Used
pub mod Regions
pub mod Reachable
pub mod Tests
use Prim.Native.Nat.{bit_and, max, min}
use corosig.Prelude.{
  ℕ, zero, suc, ◌+◌, ◌-◌, ◌*◌, ◌/◌, ◌%◌, ◌^◌, Bool, true, false, not, ltb, ◌==◌, if◌then◌else◌,
  Option, none, some,
}

abbrev pub block_size : ℕ
block_size = 16

-- `static_cast<uint32_t>((2 << 31) - 1)`
abbrev pub invalid_idx : ℕ
invalid_idx = 0xFFFFFFFF

pub record BlockMetadata : Type 0 where
  pub blocks_before : ℕ
  pub is_used : Bool
  pub blocks_owned : ℕ
  pub prev_free_block_idx : ℕ
  pub next_free_block_idx : ℕ

abbrev pub Memory : Type 0
Memory = ℕ → BlockMetadata

-- `m_mem` is the address of its first octet and its size.
pub record Allocator : Type 0 where
  pub first_free_block_idx : ℕ
  pub last_free_block_idx : ℕ
  pub address : ℕ
  pub size : ℕ
  pub used : ℕ
  pub peak : ℕ
  pub mem : Memory

-- A change of one header.
pub at_block : ℕ → (BlockMetadata → BlockMetadata) → Memory → Memory
at_block i change mem j = if j == i then change (mem j) else mem j

pub on_block : ℕ → (BlockMetadata → BlockMetadata) → Allocator → Allocator
on_block i change a = record a { mem = at_block i change a.mem }

-- Assignments to one link of a header.
abbrev pub set_prev : ℕ → ℕ → Memory → Memory
set_prev i v = at_block i (λ b. record b { prev_free_block_idx = v })

abbrev pub set_next : ℕ → ℕ → Memory → Memory
set_next i v = at_block i (λ b. record b { next_free_block_idx = v })

-- A difference of two numbers of type size_t.
abbrev pub sub : ℕ → ℕ → ℕ
sub x y = (x + 2 ^ 64 - y) % 2 ^ 64

-- On uintptr_t; `alignment` is a power of two.
pub align_right_diff : ℕ → ℕ → ℕ
align_right_diff p alignment =
    sub (bit_and ((p + alignment + 2 ^ 64 - 1) % 2 ^ 64) (2 ^ 64 - 1 - (alignment - 1))) p

pub ceil_div : ℕ → ℕ → ℕ
ceil_div a b = a / b + (if a % b == 0 then 0 else 1)

pub blocks_amount : Allocator → ℕ
blocks_amount a = a.size / block_size

-- `value` is an uint32_t, and `blocks_before` has 31 bits.
pub set_blocks_owned : ℕ → ℕ → Allocator → Allocator
unfolding blocks_amount
set_blocks_owned idx value a =
    let value' = value % 2 ^ 32 in
    let owned = on_block idx (λ b. record b { blocks_owned = value' }) a in
    if ltb (idx + value') (blocks_amount a)
    then on_block (idx + value') (λ b. record b { blocks_before = value' % 2 ^ 31 }) owned
    else owned

pub push_front : ℕ → Allocator → Allocator
push_front idx a = record a {
  mem = set_next idx a.first_free_block_idx (set_prev a.first_free_block_idx idx a.mem);
  first_free_block_idx = idx;
}

pub push_back : ℕ → Allocator → Allocator
push_back idx a = record a {
  mem = set_prev idx a.last_free_block_idx (set_next a.last_free_block_idx idx a.mem);
  last_free_block_idx = idx;
}

-- The size from which a chunk comes first.
pub is_large : ℕ → Allocator → Bool
unfolding blocks_amount
is_large idx a = ltb (blocks_amount a / 4) (a.mem idx).blocks_owned

pub push_free_node : ℕ → Allocator → Allocator
unfolding push_front push_back is_large
push_free_node idx a =
    if a.first_free_block_idx == invalid_idx
    then record a { first_free_block_idx = idx; last_free_block_idx = idx }
    else if is_large idx a
    then push_front idx a
    else push_back idx a

-- The two neighbours in the free list are linked with one another.
pub bypass_prev : ℕ → Memory → Memory
bypass_prev idx mem =
    if (mem idx).next_free_block_idx == invalid_idx
    then mem
    else set_prev (mem idx).next_free_block_idx (mem idx).prev_free_block_idx mem

pub bypass_next : ℕ → Memory → Memory
bypass_next idx mem =
    if (mem idx).prev_free_block_idx == invalid_idx
    then mem
    else set_next (mem idx).prev_free_block_idx (mem idx).next_free_block_idx mem

pub unlink_free_node : ℕ → Allocator → Allocator
unfolding bypass_prev bypass_next
unlink_free_node idx a =
    let mem = bypass_next idx (bypass_prev idx a.mem) in
    record a {
      mem =
          at_block idx
            (λ b. record b { prev_free_block_idx = invalid_idx; next_free_block_idx = invalid_idx })
            mem;
      first_free_block_idx =
          if a.first_free_block_idx == idx
          then (mem idx).next_free_block_idx
          else a.first_free_block_idx;
      last_free_block_idx =
          if a.last_free_block_idx == idx
          then (mem idx).prev_free_block_idx
          else a.last_free_block_idx;
    }

pub default_initialize : BlockMetadata → BlockMetadata
default_initialize b = record b {
  prev_free_block_idx = invalid_idx;
  next_free_block_idx = invalid_idx;
  is_used = false;
}

-- `get_mem`: a header has the size of a block.
pub get_mem : ℕ → Allocator → ℕ
get_mem idx a = a.address + idx * block_size + block_size

-- An allocator without a free list, with its default member initialisers.
pub unfilled : ℕ → ℕ → Memory → Allocator
unfilled address size mem = record {
  first_free_block_idx = invalid_idx;
  last_free_block_idx = invalid_idx;
  address = address;
  size = size;
  used = 0;
  peak = 0;
  mem = mem;
}

abbrev pub first_block : ℕ → BlockMetadata
first_block blocks = record {
  blocks_before = 0;
  is_used = false;
  blocks_owned = blocks % 2 ^ 32;
  prev_free_block_idx = invalid_idx;
  next_free_block_idx = invalid_idx;
}

-- The constructor behind its first call of `subspan`, which has skipped some octets.
pub construct_behind : ℕ → ℕ → ℕ → Memory → Allocator
construct_behind skip address size mem =
    let left = size - skip in
    let whole = left - left % block_size in
    let a = unfilled (address + skip) (min whole (0xFFFFFFFF * block_size)) mem in
    if blocks_amount a == 0
    then a
    else push_free_node 0 (on_block 0 (λ b. first_block (blocks_amount a)) a)

-- The constructor, over `size` octets from `address` on. When there are fewer than it skips,
-- `subspan` is undefined.
pub construct : ℕ → ℕ → Memory → Option Allocator
unfolding construct_behind
construct address size mem =
    let skip = align_right_diff address block_size in
    if ltb size skip then none else some (construct_behind skip address size mem)

-- The blocks from `idx` on get a header of their own.
pub new_chunk : ℕ → ℕ → Allocator → Allocator
new_chunk idx owned a = set_blocks_owned idx owned (on_block idx default_initialize a)
