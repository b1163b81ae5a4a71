-- ===== src/Allocator/MergeBack.antt =====
-- `Allocator::deallocate`: the chunk behind the one that is given back.
use mathlib.Core.Path.{subst}
use corosig.Prelude.{
  ℕ, ◌+◌, ◌^◌, ◌≤◌, ◌<◌, ltb, lt→ltb, ◌≡◌, sym, ap, ◌∙◌, List, [], ◌∷◌, true, false, Bool, arith,
}
use corosig.Allocator.{Allocator, blocks_amount, set_blocks_owned, unlink_free_node}
use corosig.Allocator.Releasing.{merge_back}
use corosig.Allocator.FreeList.{IsUnlinked}
use corosig.Allocator.Chunks.{Chunk, IsHead}
use corosig.Allocator.Members.{Perm-differ}
use corosig.Allocator.Owned.{owned_self, owned-other}
use corosig.Allocator.Open.{IsOpen, owned-reach}
use corosig.Allocator.Kept.{
  owned-IsFreeList, owned-SameLinks, IsUnlinked-same, SameRest-blocks, owned-SameRest,
  unlink-SameRest,
}
use corosig.Allocator.Heap.{IsHole, Unused, open-differ, unlink-IsLeft}
use corosig.Allocator.MergeFront.{IsWhole}
use corosig.Allocator.Join.{join_back, join_back-nil, join_back-used, join_back-free}

merge_back-none :
    (i k : ℕ) (a : Allocator)
    → (a.mem i).blocks_owned ≡ k
    → blocks_amount a ≤ i + k
    → merge_back i a ≡ a
unfolding merge_back
merge_back-none i k a o l =
    let e : ltb (i + k) (blocks_amount a) ≡ false = ground arith in rw (o, e)

merge_back-used :
    (i k : ℕ) (a : Allocator)
    → (a.mem i).blocks_owned ≡ k
    → i + k < blocks_amount a
    → (a.mem (i + k)).is_used ≡ true
    → merge_back i a ≡ a
unfolding merge_back
merge_back-used i k a o l u = let e = lt→ltb (i + k) (blocks_amount a) l in rw (o, e, u)

-- The chunk grows over the one behind it.
back_merged : ℕ → ℕ → ℕ → Allocator → Allocator
back_merged i k j a = unlink_free_node (i + k) (set_blocks_owned i (k + j) a)

merge_back-free :
    (i k j : ℕ) (a : Allocator)
    → (a.mem i).blocks_owned ≡ k
    → i + k < blocks_amount a
    → (a.mem (i + k)).is_used ≡ false
    → (a.mem (i + k)).blocks_owned ≡ j
    → merge_back i a ≡ back_merged i k j a
unfolding merge_back back_merged
merge_back-free i k j a o l u o' = let e = lt→ltb (i + k) (blocks_amount a) l in rw (o, e, u, o')

module _ (a : Allocator) (front : List Chunk) (i : ℕ) (u : Bool) (k j : ℕ) (back : List Chunk)
    (list : List ℕ) (whole : IsWhole a front i u k ((j, false) ∷ back) list) where
  behind : IsHead (a.mem (i + k)) k j false
  behind = whole.hole.layout.back_tiles.0

  -- The two chunks as one region.
  both-IsOpen : IsOpen a front i u (i + k + j) j back
  both-IsOpen =
      let o = whole.hole.layout in
      let inside = o.inside in
      let all = o.all in
      record {
        place = o.place;
        inside = omega arith;
        before = o.before;
        used = o.used;
        head_tiles = o.head_tiles;
        back_tiles = o.back_tiles.1;
        all = omega arith;
      }

  back_merged-IsWhole :
      (list' : List ℕ) × IsWhole (back_merged i k j a) front i u (k + j) back list'
  unfolding back_merged
  back_merged-IsWhole =
      let h = whole.hole in
      let o = both-IsOpen in
      let inside = h.layout.inside in
      let all = o.all in
      let small = h.small in
      let v = k + j in
      let e = i + k + j in
      let positive : 0 < j = behind.3 in
      let bound : v < 2 ^ 31 = omega arith in
      let reach : i + v ≡ e = omega arith in
      let b = set_blocks_owned i v a in
      let same = SameRest-blocks (owned-SameRest i v a) in
      let o' = owned-reach a front i v u e j bound (omega arith) back reach o in
      let next_kept = owned-other i v a bound (i + k) (λ q. omega arith) (λ q. omega arith) in
      let next_free : Unused b.mem (i + k) = ap (λ m. m.is_used) next_kept ∙ behind.1 in
      let left =
        unlink-IsLeft b front i u e v back list (i + k) o'
          (owned-IsFreeList i v a bound list h.listed) h.members next_free in
      let differ =
        Perm-differ i h.members
          (open-differ a front i u (i + k) k ((j, false) ∷ back) i h.layout (omega arith) inside) in
      let kept = left.other i differ in
      let rest : IsUnlinked (b.mem i) = IsUnlinked-same (owned-SameLinks i v a bound i) h.rest in
      let hole : IsHole (unlink_free_node (i + k) b) front i u e v back left.left = record {
        layout = left.layout;
        small =
            subst (λ (n : ℕ). n < 2 ^ 31) (sym (SameRest-blocks (unlink-SameRest (i + k) b) ∙ same))
              small;
        listed = left.listed;
        members = left.members;
        rest = subst IsUnlinked (sym kept) rest;
      } in
      (
        left.left,
        record {
          hole =
              subst (λ (n : ℕ). IsHole (unlink_free_node (i + k) b) front i u n v back left.left)
                (sym reach) hole;
          owned = ap (λ m. m.blocks_owned) (kept ∙ owned_self i v a bound (omega arith));
        },
      )

-- After `merge_back` the chunk is whole, and a free one behind it has become a part of it.
pub record IsMergedBack (a : Allocator) (front : List Chunk) (i : ℕ) (u : Bool) (k : ℕ)
    (back : List Chunk) (b : Allocator) : Type 0 where
  pub size : ℕ
  pub rest : List Chunk
  pub list : List ℕ
  pub whole : IsWhole b front i u size rest list
  pub joined : (size, false) ∷ rest ≡ join_back k back

pub merge_back-IsMergedBack :
    (a : Allocator) (front : List Chunk) (i : ℕ) (u : Bool) (k : ℕ) (back : List Chunk)
    (list : List ℕ)
    → IsWhole a front i u k back list
    → IsMergedBack a front i u k back (merge_back i a)
merge_back-IsMergedBack a front i u k [] list w =
    let all = w.hole.layout.all in
    subst (IsMergedBack a front i u k []) (sym (merge_back-none i k a w.owned (omega arith)))
      (record { size = k; rest = []; list = list; whole = w; joined = join_back-nil k })
merge_back-IsMergedBack a front i u k ((j, true) ∷ back) list w =
    let all = w.hole.layout.all in
    let head = w.hole.layout.back_tiles.0 in
    let positive : 0 < j = head.3 in
    subst (IsMergedBack a front i u k ((j, true) ∷ back))
      (sym (merge_back-used i k a w.owned (omega arith) head.1))
      (record {
        size = k;
        rest = (j, true) ∷ back;
        list = list;
        whole = w;
        joined = join_back-used k j back;
      })
merge_back-IsMergedBack a front i u k ((j, false) ∷ back) list w =
    let all = w.hole.layout.all in
    let head = w.hole.layout.back_tiles.0 in
    let positive : 0 < j = head.3 in
    let (list', w') = back_merged-IsWhole a front i u k j back list w in
    subst (IsMergedBack a front i u k ((j, false) ∷ back))
      (sym (merge_back-free i k j a w.owned (omega arith) head.1 head.2))
      (record {
        size = k + j;
        rest = back;
        list = list';
        whole = w';
        joined = join_back-free k j back;
      })
