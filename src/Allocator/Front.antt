-- ===== src/Allocator/Front.antt =====
-- `Allocator::allocate` at an aligned address: the blocks in front of it stay free.
use mathlib.Core.Path.{subst}
use mathlib.Core.List.{Perm, perm_middle, append_assoc}
use mathlib.Core.List.Perm
use corosig.Prelude.{
  ℕ, ◌+◌, ◌-◌, ◌%◌, ◌^◌, ◌<◌, ◌≡◌, refl, sym, ap, ◌∙◌, ◌≢◌, List, [], ◌∷◌, ◌++◌, false, Bool, All,
  arith,
}
use corosig.Allocator.{
  Allocator, sub, invalid_idx, blocks_amount, set_blocks_owned, push_free_node, unlink_free_node,
  is_large, new_chunk,
}
use corosig.Allocator.Allocating.{split_front}
use corosig.Allocator.Distinct.{hd, lst, lst-All, differ_sym}
use corosig.Allocator.FreeList.{pushed}
use corosig.Allocator.Frames.{SameShape, SameShape-trans, unlink-SameShape, push-SameShape}
use corosig.Allocator.Others.{unlink-idle}
use corosig.Allocator.Chunks.{Chunk, total, frees}
use corosig.Allocator.Members.{Perm-differ}
use corosig.Allocator.Owned.{owned_self, owned-next}
use corosig.Allocator.Open.{owned-cut}
use corosig.Allocator.Kept.{owned-IsFreeList, SameRest-blocks, owned-SameRest}
use corosig.Allocator.Heap.{
  IsTiled, IsListed, IsHole, open-differ, open-valid, unlink-IsHole, push-IsListed,
}
use corosig.Allocator.Cut.{
  new_chunk-IsOpen, new_chunk-IsFreeList, new_chunk-IsUnlinked, new_chunk-owned, new_chunk-blocks,
}
use corosig.Allocator.Shift.{tiled-IsListed, tiles-owned, frees-free}

hd-differ :
    (j : ℕ) (list : List ℕ) → All (λ y. j ≢ y) list → j ≢ invalid_idx → hd list invalid_idx ≢ j
hd-differ j [] h v q = v (sym q)
hd-differ j (x ∷ xs) h v q = h.0 (sym q)

lst-differ :
    (j : ℕ) (list : List ℕ) → All (λ y. j ≢ y) list → j ≢ invalid_idx → lst invalid_idx list ≢ j
lst-differ j list h v = lst-All (λ y. y ≢ j) invalid_idx list (λ q. v (sym q)) (differ_sym j list h)

-- Blocks that are in no list are not changed by another `unlink_free_node`.
pub unlink-hole :
    (a : Allocator) (front : List Chunk) (i : ℕ) (u : Bool) (e gap : ℕ) (back : List Chunk)
    (list : List ℕ)
    → IsHole a front i u e gap back list
    → unlink_free_node i a ≡ a
unlink-hole a front i u e gap back list h =
    let o = h.layout in
    let differ =
      Perm-differ i h.members (open-differ a front i u e gap back i o (omega arith) o.inside) in
    let valid = open-valid a front i u e gap back i o h.small o.inside in
    unlink-idle i a h.rest (λ q. hd-differ i list differ valid (sym h.listed.first ∙ q))
      (λ q. lst-differ i list differ valid (sym h.listed.last ∙ q))

-- The listed chunk is made smaller.
cut-IsListed :
    (a : Allocator) (front : List Chunk) (i e gap : ℕ) (back : List Chunk) (list : List ℕ) (v : ℕ)
    → v < 2 ^ 31
    → 0 < v
    → i + v < e
    → IsListed a front i e gap back list
    → IsListed (set_blocks_owned i v a) front i e gap back list
cut-IsListed a front i e gap back list v s p r h = record {
  layout = owned-cut a front i v false e gap back s p r h.layout;
  small = subst (λ (n : ℕ). n < 2 ^ 31) (sym (SameRest-blocks (owned-SameRest i v a))) h.small;
  listed = owned-IsFreeList i v a s list h.listed;
  members = h.members;
}

-- What is left of a listed chunk becomes a hole.
rest-IsHole :
    (a : Allocator) (front : List Chunk) (i n e gap : ℕ) (back : List Chunk) (list : List ℕ) (r : ℕ)
    → r < 2 ^ 31
    → 0 < n
    → 0 < r
    → i + n + r ≡ e
    → IsListed a front i e gap back list
    → (a.mem i).blocks_owned ≡ n
    → (a.mem (i + n)).blocks_before ≡ n
    → IsHole (new_chunk (i + n) r a) (front ++ (n, false) ∷ []) (i + n) false e r back list
rest-IsHole a front i n e gap back list r small l p s h q b =
    let o = h.layout in
    let place = o.place in
    let differ : All (λ y. i + n ≢ y) list =
      Perm-differ (i + n) (Perm.trans h.members (perm_middle (frees 0 front) (frees e back))) (
        (λ z. omega arith),
        open-differ a front i false e gap back (i + n) o (omega arith) (omega arith),
      ) in
    record {
      layout = new_chunk-IsOpen a front i n false e gap back r small o q tt l p s b;
      small = subst (λ (m : ℕ). m < 2 ^ 31) (sym (new_chunk-blocks a (i + n) r small p)) h.small;
      listed = new_chunk-IsFreeList a (i + n) r small p list differ h.listed;
      members =
          subst (Perm list)
            (ap (λ (t : ℕ). frees 0 front ++ t ∷ frees e back) place
              ∙ sym (append_assoc (frees 0 front) (total front ∷ []) (frees e back))
              ∙ ap (λ f. f ++ frees e back) (sym (frees-free front n [])))
            h.members;
      rest = new_chunk-IsUnlinked a (i + n) r small p;
    }

pub sub-exact : (x y r : ℕ) → y + r ≡ x → x < 2 ^ 64 → sub x y ≡ r
sub-exact x y r e h =
    let e' : x + 2 ^ 64 - y ≡ r + 2 ^ 64 = omega arith in
    ap (λ (n : ℕ). n % 2 ^ 64) e' ∙ omega arith

-- The chunk at `i` is split after `n` blocks: they come back to the free list, the others are a hole.
pub split_front-IsHole :
    (a : Allocator) (front : List Chunk) (n r : ℕ) (back : List Chunk) (list : List ℕ)
    → 0 < n
    → 0 < r
    → IsTiled a (front ++ (n + r, false) ∷ back) list
    → (list' : List ℕ) × IsHole
        (split_front (total front) n a)
        (front ++ (n, false) ∷ [])
        (total front + n)
        false
        (total front + (n + r))
        r
        back
        list'
      × (((split_front (total front) n a).mem (total front + n)).blocks_owned ≡ r)
unfolding split_front
split_front-IsHole a front n r back list l p h =
    let i = total front in
    let e = i + (n + r) in
    let listed = tiled-IsListed a front (n + r) back list h in
    let all = listed.layout.all in
    let small = h.small in
    let bound : n < 2 ^ 31 = omega arith in
    let rest : r < 2 ^ 31 = omega arith in
    let inside : i + n < e = omega arith in
    let blocks : i + n < blocks_amount a = omega arith in
    let a1 = set_blocks_owned i n a in
    let listed1 = cut-IsListed a front i e (n + r) back list n bound l inside listed in
    let (list2, hole) = unlink-IsHole a1 front i e (n + r) back list listed1 in
    let a2 = unlink_free_node i a1 in
    let a3 = push_free_node i a2 in
    let list3 = pushed (is_large i a2) i list2 in
    let listed3 = push-IsListed a2 front i e (n + r) back list2 hole in
    let shape : (j : ℕ) → SameShape (a3.mem j) (a1.mem j) =
      λ j. SameShape-trans (push-SameShape i a2 j) (unlink-SameShape i a1 j) in
    let owned = (shape i).owned ∙ ap (λ b. b.blocks_owned) (owned_self i n a bound l) in
    let before =
      (shape (i + n)).before ∙ ap (λ b. b.blocks_before) (owned-next i n a bound l blocks) in
    let end : i + n + r ≡ e = omega arith in
    let done = rest-IsHole a3 front i n e (n + r) back list3 r rest l p end listed3 owned before in
    let size : (a.mem i).blocks_owned ≡ n + r =
      (tiles-owned a front (n + r) false back h.tiles).2 in
    let eq : sub (a.mem i).blocks_owned n ≡ r =
      ap (λ (m : ℕ). sub m n) size ∙ sub-exact (n + r) n r refl (omega arith) in
    (
      list3,
      subst
          (λ (m : ℕ).
            IsHole (new_chunk (i + n) m a3) (front ++ (n, false) ∷ []) (i + n) false e r back list3)
          (sym eq) done,
      ap (λ (m : ℕ). ((new_chunk (i + n) m a3).mem (i + n)).blocks_owned) eq
          ∙ new_chunk-owned a3 (i + n) r rest p,
    )
