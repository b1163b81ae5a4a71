-- ===== src/Allocator/Releasing.antt =====
-- `Allocator::deallocate` of src/container/Allocator.cpp.
use corosig.Prelude.{ℕ, ◌+◌, ◌-◌, ◌*◌, ◌/◌, ◌%◌, false, not, ltb, ◌==◌, if◌then◌else◌}
use corosig.Allocator.{
  Allocator, block_size, sub, on_block, blocks_amount, set_blocks_owned, push_free_node,
  unlink_free_node,
}

unfoldable pub get_metadata_idx_from_addr : ℕ → Allocator → ℕ
get_metadata_idx_from_addr p a =
    let index = (p - a.address) / block_size in if p % block_size == 0 then sub index 1 else index

-- A free chunk at `previous` is extended by the chunk at `idx`, and leaves the free list.
unfoldable pub merge_into : ℕ → ℕ → Allocator → ℕ × Allocator
merge_into previous idx a = if (a.mem previous).is_used then (idx, a) else (
  previous,
  unlink_free_node previous
      (set_blocks_owned previous ((a.mem previous).blocks_owned + (a.mem idx).blocks_owned) a),
)

-- The chunk in front, if there is one.
unfoldable pub merge_front : ℕ → Allocator → ℕ × Allocator
merge_front idx a =
    if (a.mem idx).blocks_before == 0
    then (idx, a)
    else merge_into (sub idx (a.mem idx).blocks_before) idx a

-- A free chunk behind is taken into the chunk at `idx`, and leaves the free list.
unfoldable pub merge_back : ℕ → Allocator → Allocator
merge_back idx a =
    let next = idx + (a.mem idx).blocks_owned in
    if not (ltb next (blocks_amount a))
    then a
    else if (a.mem next).is_used
    then a
    else unlink_free_node next
        (set_blocks_owned idx ((a.mem idx).blocks_owned + (a.mem next).blocks_owned) a)

unfoldable pub release : ℕ → Allocator → Allocator
release idx a =
    push_free_node idx (unlink_free_node idx (on_block idx (λ b. record b { is_used = false }) a))

-- The chunk at `idx` is given back.
unfoldable pub give_back : ℕ → Allocator → Allocator
give_back idx a =
    let given_back : Allocator = record a {
      used = sub a.used ((a.mem idx).blocks_owned * block_size);
    } in
    let (head, merged) = merge_front idx given_back in release head (merge_back head merged)

-- The null pointer is 0.
unfoldable pub deallocate : ℕ → Allocator → Allocator
deallocate p a = if p == 0 then a else give_back (get_metadata_idx_from_addr p a) a
