-- ===== src/Allocator/Deallocate.antt =====
-- `Allocator::deallocate` as a whole.
use mathlib.Core.Path.{subst}
use corosig.Prelude.{
  ℕ, suc, ◌+◌, ◌-◌, ◌*◌, ◌/◌, ◌%◌, ◌^◌, ◌≤◌, ◌<◌, ◌==◌, ◌≡◌, refl, sym, ap, ◌∙◌, List, ◌∷◌, ◌++◌,
  true, false, Bool, arith, ==_iff, differ-==, Bool-cases, inl, inr, subst_two,
}
use corosig.Allocator.{Allocator, sub, block_size, on_block, push_free_node, is_large}
use corosig.Allocator.Releasing.{
  release, merge_front, merge_back, deallocate, give_back, get_metadata_idx_from_addr,
}
use corosig.Allocator.FreeList.{pushed}
use corosig.Allocator.Chunks.{Chunk, total, total-append}
use corosig.Allocator.Heap.{IsTiled}
use corosig.Allocator.Shift.{tiled-IsHole, tiles-owned}
use corosig.Allocator.Cut.{on_block-same}
use corosig.Allocator.Hole.{marked, mark-IsHole, push-IsTiled}
use corosig.Allocator.Front.{unlink-hole, sub-exact}
use corosig.Allocator.Allocate.{counters-IsTiled}
use corosig.Allocator.Kept.{
  SameRest, SameRest-trans, merge_front-SameRest, merge_back-SameRest, release-SameRest,
}
use corosig.Allocator.Sizes.{used_blocks, used_blocks-append, used_blocks_bound}
use corosig.Allocator.Granted.{IsHeap}
use corosig.Allocator.Join.{join, used_blocks-join}
use corosig.Allocator.MergeFront.{IsWhole, merge_front-IsMergedFront}
use corosig.Allocator.MergeBack.{merge_back-IsMergedBack}

-- The merged chunk comes into the free list.
release-IsTiled :
    (a : Allocator) (front : List Chunk) (i : ℕ) (u : Bool) (k : ℕ) (back : List Chunk)
    (list : List ℕ)
    → IsWhole a front i u k back list
    → (list' : List ℕ) × IsTiled (release i a) (front ++ (k, false) ∷ back) list'
unfolding release
release-IsTiled a front i u k back list w =
    let b = on_block i (marked false) a in
    let hole = mark-IsHole a front i u (i + k) k back list false w.hole in
    let idle = unlink-hole b front i false (i + k) k back list hole in
    let owned = ap (λ m. m.blocks_owned) (on_block-same i (marked false) a) ∙ w.owned in
    (
      pushed (is_large i b) i list,
      subst
          (λ c.
            IsTiled (push_free_node i c) (front ++ (k, false) ∷ back)
              (pushed (is_large i b) i list))
          (sym idle) (push-IsTiled b front i (i + k) k back list k hole owned refl refl),
    )

-- The header of the chunk that the pointer belongs to.
pub index-exact :
    (a : Allocator) (i : ℕ)
    → a.address % block_size ≡ 0
    → i < 2 ^ 31
    → get_metadata_idx_from_addr (a.address + i * block_size + block_size) a ≡ i
unfolding get_metadata_idx_from_addr
index-exact a i z h =
    let p = a.address + i * block_size + block_size in
    let whole : (p % block_size == 0) ≡ true = (==_iff (p % block_size) 0).1 (omega arith) in
    let index : (p - a.address) / block_size ≡ suc i = omega arith in
    rw (whole, index) (sub-exact (suc i) 1 i (omega arith) (omega arith))

module _ (a : Allocator) (front : List Chunk) (k : ℕ) (back : List Chunk) (list : List ℕ)
    (heap : IsHeap a (front ++ (k, true) ∷ back) list) where
  abbrev given_back : Allocator
  given_back = record a { used = sub a.used (k * block_size) }

  given_back-IsWhole : IsWhole given_back front (total front) true k back list
  given_back-IsWhole =
      let t =
        counters-IsTiled a (sub a.used (k * block_size)) a.peak (front ++ (k, true) ∷ back) list
          heap.tiled in
      record {
        hole = tiled-IsHole given_back front k back list t;
        owned = (tiles-owned a front k true back heap.tiled.tiles).2;
      }

  merged-IsTiled :
      let (head, merged) = merge_front (total front) given_back in
      (list' : List ℕ) × IsTiled (release head (merge_back head merged)) (join front k back) list'
  merged-IsTiled =
      let (head, merged) = merge_front (total front) given_back in
      let f =
        merge_front-IsMergedFront given_back front (total front) k back list given_back-IsWhole in
      let b = merge_back-IsMergedBack merged f.rest head f.used f.size back f.list f.whole in
      let (list', t) =
        release-IsTiled (merge_back head merged) f.rest head f.used b.size b.rest b.list b.whole in
      (
        list',
        subst (λ cs. IsTiled (release head (merge_back head merged)) cs list')
            (ap (λ cs. f.rest ++ cs) b.joined ∙ f.joined) t,
      )

  merged-SameRest :
      let (head, merged) = merge_front (total front) given_back in
      SameRest (release head (merge_back head merged)) given_back
  merged-SameRest =
      let (head, merged) = merge_front (total front) given_back in
      SameRest-trans (release-SameRest head (merge_back head merged)) (
        SameRest-trans (merge_back-SameRest head merged)
          (merge_front-SameRest (total front) given_back))

  give_back-eq : give_back (total front) a ≡ (
      let (head, merged) = merge_front (total front) given_back in
      release head (merge_back head merged))
  unfolding give_back
  give_back-eq =
      let owned = (tiles-owned a front k true back heap.tiled.tiles).2 in
      ap
        (λ (n : ℕ).
          let (head, merged) =
            merge_front (total front) (record a { used = sub a.used (n * block_size) }) in
          release head (merge_back head merged))
        owned

  give_back-IsHeap : (list' : List ℕ) × IsHeap (give_back (total front) a) (join front k back) list'
  give_back-IsHeap =
      let (list', t) = merged-IsTiled in
      let same = merged-SameRest in
      let small = heap.tiled.small in
      let all = heap.tiled.all in
      let before : used_blocks (front ++ (k, true) ∷ back)
          ≡ used_blocks front + (k + used_blocks back) =
        used_blocks-append front ((k, true) ∷ back) in
      let bound = used_blocks_bound (front ++ (k, true) ∷ back) in
      let accounted = heap.accounted in
      let peaked = heap.peaked in
      let left : sub a.used (k * block_size) ≡ (used_blocks front + used_blocks back) * block_size =
        sub-exact a.used (k * block_size) ((used_blocks front + used_blocks back) * block_size)
          (omega arith) (omega arith) in
      (
        list',
        subst (λ b. IsHeap b (join front k back) list') (sym give_back-eq)
            (record {
              tiled = t;
              accounted =
                  same.used
                  ∙ left
                  ∙ ap (λ (n : ℕ). n * block_size) (sym (used_blocks-join front k back));
              placed = ap (λ (n : ℕ). n % block_size) same.address ∙ heap.placed;
              peaked =
                  subst_two (λ (u p : ℕ). u ≤ p) (sym (same.used ∙ left)) (sym same.peak)
                    (omega arith);
            }),
      )

pub deallocate_lem :
    (a : Allocator) (front : List Chunk) (k : ℕ) (back : List Chunk) (list : List ℕ) (p : ℕ)
    → IsHeap a (front ++ (k, true) ∷ back) list
    → p ≡ a.address + total front * block_size + block_size
    → (list' : List ℕ) × IsHeap (deallocate p a) (join front k back) list'
unfolding deallocate
deallocate_lem a front k back list p heap e =
    let small = heap.tiled.small in
    let all = heap.tiled.all in
    let inside : total front < 2 ^ 31 = omega (arith, total-append front ((k, true) ∷ back)) in
    let index =
      ap (λ (q : ℕ). get_metadata_idx_from_addr q a) e
      ∙ index-exact a (total front) heap.placed inside in
    let some : (p == 0) ≡ false = differ-== p 0 (λ q. omega arith) in
    let (list', done) = give_back-IsHeap a front k back list heap in
    (
      list',
      rw some
          (subst (λ (i : ℕ). IsHeap (give_back i a) (join front k back) list') (sym index) done),
    )

pub deallocate-SameMemory :
    (p : ℕ) (a : Allocator)
    → ((deallocate p a).address ≡ a.address) × ((deallocate p a).size ≡ a.size)
unfolding deallocate give_back
deallocate-SameMemory p a = elim (Bool-cases (p == 0)) [
  | inl e ↦ rw e (refl, refl)
  | inr e ↦
      let idx = get_metadata_idx_from_addr p a in
      let b : Allocator = record a { used = sub a.used ((a.mem idx).blocks_owned * block_size) } in
      let (head, merged) = merge_front idx b in
      let same =
        SameRest-trans (release-SameRest head (merge_back head merged))
          (SameRest-trans (merge_back-SameRest head merged) (merge_front-SameRest idx b)) in
      rw e (same.address, same.size)
]
