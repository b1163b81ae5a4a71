-- ===== src/Allocator/Restores.antt =====
-- `Allocator::allocate` followed by `Allocator::deallocate` of what it has returned.
use corosig.Prelude.{List}
use corosig.Allocator.{Allocator}
