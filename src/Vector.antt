-- ===== src/Vector.antt =====
-- `Vector` of include/corosig/container/Vector.hpp, for elements that are copied and moved without
-- an error. The memory is seen as slots: raw memory, an object, or what a move has left of one.
pub mod Slots
pub mod Grows
pub mod Erases
pub mod Resizes
pub mod Inserts
pub mod Copies
pub mod Tests
use Prim.Native.Nat.{max}
use corosig.Prelude.{
  ℕ, zero, suc, ◌+◌, ◌-◌, ◌*◌, ◌%◌, ◌^◌, Bool, true, false, ltb, leb, ◌==◌, if◌then◌else◌, Option,
  none, some, ◌>>=◌, List, [], ◌∷◌, length,
}

pub data Slot (A : Type 0) : Type 0 where
  raw moved : Slot A
  holds : A → Slot A

-- `m_data`, `m_size`, `m_capacity` and the state of the allocator.
pub record Vector (A S : Type 0) : Type 0 where
  pub data_at : ℕ → Slot A
  pub size : ℕ
  pub capacity : ℕ
  pub alloc : S

-- A member function succeeds, returns AllocationError, or does what C++ does not define.
pub data Outcome (A S : Type 0) : Type 0 where
  done failed : Vector A S → Outcome A S
  undefined : Outcome A S

abbrev pub set_slot {ℓ} : {B : Type ℓ} → ℕ → B → (ℕ → B) → ℕ → B
set_slot i b f j = if j == i then b else f j

abbrev pub content : {A : Type 0} → Slot A → Option A
content (holds a) = some a
content raw = none
content moved = none

abbrev pub then_do : {A S : Type 0} → Outcome A S → (Vector A S → Outcome A S) → Outcome A S
then_do (done v) next = next v
then_do (failed v) next = failed v
then_do undefined next = undefined

abbrev pub apart : ℕ → ℕ → Option (Unit {0})
apart to from = if to == from then none else some tt

abbrev pub or_undefined : {A S : Type 0} → Option (Vector A S) → Outcome A S
or_undefined (some v) = done v
or_undefined none = undefined

-- The allocator: whether it has memory for a number of elements, and what it does with memory that
-- is given back.
module _ {A S : Type 0} (try_allocate : S → ℕ → Option S) (give_back : S → S) where
  -- The loop of `reserve`: the objects are moved to other memory.
  pub move_all : ℕ → (ℕ → Slot A) → Option (ℕ → Slot A)
  move_all zero old = some (λ i. raw)
  move_all (suc n) old =
      move_all n old >>= λ new. content (old n) >>= λ a. some (set_slot n (holds a) new)

  moved_to : ℕ → S → Vector A S → Option (Vector A S)
  unfolding move_all
  moved_to count alloc v = move_all v.size v.data_at >>= λ new.
      some (record v { data_at = new; capacity = count; alloc = give_back alloc })

  pub reserve : ℕ → Vector A S → Outcome A S
  reserve count v = if leb count v.capacity then done v else elim (try_allocate v.alloc count) [
    | none ↦ failed v
    | some alloc ↦ or_undefined (moved_to count alloc v)
  ]

  -- A new object behind the last one.
  pub construct_back : A → Vector A S → Vector A S
  construct_back a v = record v { data_at = set_slot v.size (holds a) v.data_at; size = suc v.size }

  pub push_back : A → Vector A S → Outcome A S
  unfolding reserve construct_back
  push_back a v =
      then_do (if v.size == v.capacity then reserve (max 16 (v.size * 2 % 2 ^ 64)) v else done v)
        (λ w. done (construct_back a w))

  popped : ℕ → Vector A S → Outcome A S
  popped zero v = undefined
  popped (suc n) v = or_undefined (
      content (v.data_at n) >>= λ a.
      some (record v { data_at = set_slot n raw v.data_at; size = n }))

  -- `pop_back` of an empty vector reads in front of the first element.
  pub pop_back : Vector A S → Outcome A S
  unfolding popped
  pop_back v = popped v.size v

  pub pop_times : ℕ → Vector A S → Outcome A S
  unfolding pop_back
  pop_times zero v = done v
  pop_times (suc n) v = then_do (pop_back v) (pop_times n)

  pub push_times : ℕ → A → Vector A S → Outcome A S
  unfolding push_back
  push_times zero a v = done v
  push_times (suc n) a v = then_do (push_back a v) (push_times n a)

  pub clear : Vector A S → Outcome A S
  unfolding pop_times
  clear v = pop_times v.size v

  -- `resize` of elements that are copied without an exception. The value is no element of the
  -- vector, whose place a reference would lose.
  pub resize : ℕ → A → Vector A S → Outcome A S
  unfolding pop_times push_times reserve
  resize count a v =
      if count == v.size
      then done v
      else if ltb count v.size
      then pop_times (v.size - count) v
      else then_do (reserve ((v.size + count) % 2 ^ 64) v) (push_times (count - v.size) a)

  -- The objects that are erased are destroyed, from `first` on.
  pub destroy : ℕ → ℕ → (ℕ → Slot A) → Option (ℕ → Slot A)
  destroy first zero f = some f
  destroy first (suc n) f = content (f first) >>= λ a. destroy (suc first) n (set_slot first raw f)

  -- The objects behind them are moved to their places, one after another. An object that is
  -- constructed where it is from itself, as `erase` of an empty range has it, is undefined.
  pub move_down : ℕ → ℕ → ℕ → (ℕ → Slot A) → Option (ℕ → Slot A)
  move_down to from zero f = some f
  move_down to from (suc n) f = apart to from >>= λ _. content (f from) >>= λ a.
      move_down (suc to) (suc from) n (set_slot to (holds a) (set_slot from moved f))

  -- `erase` of the elements from index `first` up to `last`.
  pub erase : ℕ → ℕ → Vector A S → Outcome A S
  unfolding destroy move_down
  erase first last v = or_undefined (
      destroy first (last - first) v.data_at >>= λ f.
      move_down first last (v.size - last) f >>= λ g.
      some (record v { data_at = g; size = v.size - (last - first) }))

  -- The slots that are new hold no object.
  pub resize_uninitialized : ℕ → Vector A S → Outcome A S
  unfolding pop_times reserve
  resize_uninitialized count v =
      if count == v.size
      then done v
      else if ltb count v.size
      then pop_times (v.size - count) v
      else then_do (reserve count v) (λ w. done (record w { size = count }))

  -- The first loop of `insert`: objects are moved `n` slots up, from the last one down, and what is
  -- left of each is destroyed.
  pub move_up : ℕ → ℕ → ℕ → (ℕ → Slot A) → Option (ℕ → Slot A)
  move_up from n zero f = some f
  move_up from n (suc count) f = content (f (from + count)) >>= λ a.
      move_up from n count (set_slot (from + count) raw (set_slot (from + count + n) (holds a) f))

  -- The second loop of `insert`.
  pub fill : ℕ → List A → (ℕ → Slot A) → (ℕ → Slot A)
  fill at [] f = f
  fill at (x ∷ xs) f = fill (suc at) xs (set_slot at (holds x) f)

  -- The first loop ends below `at + length values`, which it never is when that is 0.
  pub insert_moved : ℕ → List A → ℕ → Vector A S → Outcome A S
  unfolding move_up fill
  insert_moved at values old w =
      if at + length values == 0
      then undefined
      else or_undefined (
          move_up at (length values) (old - at) w.data_at >>= λ f.
          some (record w { data_at = fill at values f }))

  -- `insert` of a range in front of the element with index `at`.
  pub insert : ℕ → List A → Vector A S → Outcome A S
  unfolding reserve resize_uninitialized insert_moved
  insert at values v =
      let n = length values in
      then_do
        (if ltb ((v.size + n) % 2 ^ 64) v.capacity
          then reserve (max 16 (v.size * 2 % 2 ^ 64)) v
          else done v)
        (λ u.
          then_do (resize_uninitialized ((u.size + n) % 2 ^ 64) u) (insert_moved at values u.size))
