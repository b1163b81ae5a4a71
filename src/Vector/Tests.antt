-- ===== src/Vector/Tests.antt =====
-- Runs of `Vector` on numbers, with an allocator that counts its calls.
use corosig.Prelude.{
  ℕ, suc, ◌*◌, leb, if◌then◌else◌, ◌≡◌, refl, ◌⊎◌, [], ◌∷◌, Option, none, some, arith,
}
use Prim.Native.Nat.{max}
use corosig.Vector.{
  Slot, Vector, Outcome, done, failed, undefined, holds, raw, push_back, erase, insert, clear,
  set_slot, reserve, resize_uninitialized, insert_moved, move_up, fill, move_all, moved_to,
}
use corosig.Vector.Grows.{IsVector, push_back_lem}
use corosig.Vector.Erases.{erase_lem}
use corosig.Vector.Resizes.{clear_lem}
use corosig.Vector.Inserts.{insert_lem, IsInserted}
use corosig.Vector.Copies.{clone, clone_lem, assign, assign_lem, empty_vector}

-- Memory for 40 elements at most.
abbrev allow : ℕ → ℕ → Option ℕ
allow calls count = if leb count 40 then some (suc calls) else none

abbrev keep : ℕ → ℕ
keep calls = calls

abbrev three : Vector ℕ ℕ
three = record {
  data_at = set_slot 0 (holds 5) (set_slot 1 (holds 6) (set_slot 2 (holds 7) (λ i. raw)));
  size = 3;
  capacity = 3;
  alloc = 0;
}

three-IsVector : IsVector three (5 ∷ 6 ∷ 7 ∷ [])
three-IsVector = record { slots = (refl, (refl, (refl, tt))); size = refl; fits = omega arith }

push_back_lem_example :
    ((w : Vector ℕ ℕ) × (push_back allow keep 8 three ≡ done w) × IsVector w (5 ∷ 6 ∷ 7 ∷ 8 ∷ []))
    ⊎ ((push_back allow keep 8 three ≡ failed three)
        × (three.size ≡ three.capacity)
        × (allow three.alloc (max 16 (three.size * 2)) ≡ none))
push_back_lem_example =
    push_back_lem allow keep 8 three (5 ∷ 6 ∷ 7 ∷ []) (omega arith) three-IsVector

erase_lem_example :
    (w : Vector ℕ ℕ) × (erase allow keep 1 2 three ≡ done w)
    × IsVector w (5 ∷ 7 ∷ [])
    × (w.capacity ≡ three.capacity)
erase_lem_example =
    erase_lem allow keep three (5 ∷ []) (6 ∷ []) (7 ∷ []) (omega arith) three-IsVector

clear_lem_example :
    (w : Vector ℕ ℕ) × (clear allow keep three ≡ done w)
    × IsVector w []
    × (w.capacity ≡ three.capacity)
clear_lem_example = clear_lem allow keep three (5 ∷ 6 ∷ 7 ∷ []) three-IsVector

insert_lem_example :
    IsInserted (insert allow keep 1 (8 ∷ 9 ∷ []) three) (5 ∷ []) (8 ∷ 9 ∷ []) (6 ∷ 7 ∷ [])
insert_lem_example =
    insert_lem allow keep three (5 ∷ []) (8 ∷ 9 ∷ []) (6 ∷ 7 ∷ []) (omega arith) (omega arith)
      three-IsVector

clone_lem_example :
    ((w : Vector ℕ ℕ) × (clone allow keep three ≡ done w) × IsVector w (5 ∷ 6 ∷ 7 ∷ []))
    ⊎ ((clone allow keep three ≡ failed (empty_vector allow keep three.alloc))
        × (allow three.alloc three.size ≡ none))
clone_lem_example = clone_lem allow keep three (5 ∷ 6 ∷ 7 ∷ []) three-IsVector

assign_lem_example :
    ((w : Vector ℕ ℕ) × (assign allow keep (8 ∷ 9 ∷ []) three ≡ done w) × IsVector w (8 ∷ 9 ∷ []))
    ⊎ ((w : Vector ℕ ℕ) × (assign allow keep (8 ∷ 9 ∷ []) three ≡ failed w)
        × IsVector w (5 ∷ 6 ∷ 7 ∷ [])
        × (allow three.alloc 2 ≡ none))
assign_lem_example = assign_lem allow keep (8 ∷ 9 ∷ []) three (5 ∷ 6 ∷ 7 ∷ []) three-IsVector

-- The slot with index 1 of what an operation gives.
slot_one : Outcome ℕ ℕ → Slot ℕ
slot_one (done v) = v.data_at 1
slot_one (failed v) = v.data_at 1
slot_one undefined = raw

inserted_one : slot_one (insert allow keep 1 (8 ∷ 9 ∷ []) three) ≡ holds 8
unfolding slot_one insert resize_uninitialized insert_moved reserve move_up fill move_all moved_to
inserted_one = refl

-- An empty range in front of index 1 destroys the element there.
nothing_inserted : slot_one (insert allow keep 1 [] three) ≡ raw
unfolding slot_one insert resize_uninitialized insert_moved move_up fill
nothing_inserted = refl
