-- ===== src/Allocator/MergeFront.antt =====
-- `Allocator::deallocate`: the chunk in front of the one that is given back.
use mathlib.Core.Path.{subst}
use mathlib.Core.List.{Perm, append_assoc}
use corosig.Prelude.{
  ℕ, ◌+◌, ◌^◌, ◌<◌, ◌≡◌, refl, sym, ap, ◌∙◌, ◌≢◌, inl, inr, List, [], ◌∷◌, ◌++◌, true, false, Bool,
  arith, ==_iff, differ-==,
}
use corosig.Allocator.{Allocator, sub, set_blocks_owned, unlink_free_node}
use corosig.Allocator.Releasing.{merge_front, merge_into}
use corosig.Allocator.Frames.{unlink-SameShape}
use corosig.Allocator.Chunks.{Chunk, total, last_size, Tiles-split, IsHead, frees}
use corosig.Allocator.Owned.{owned_self}
use corosig.Allocator.Open.{owned-reach}
use corosig.Allocator.Kept.{owned-IsFreeList, SameRest-blocks, owned-SameRest}
use corosig.Allocator.Heap.{IsListed, IsHole, unlink-IsHole}
use corosig.Allocator.Shift.{frees-free, total-snoc, last_size-append, tiles-owned}
use corosig.Allocator.Front.{sub-exact}
use corosig.Allocator.Join.{last_of, join, join_back, join-nil, join-free, join-used}

-- Blocks out of the free list whose header has their number.
pub record IsWhole (a : Allocator) (front : List Chunk) (i : ℕ) (u : Bool) (k : ℕ)
    (back : List Chunk) (list : List ℕ) : Type 0 where
  pub hole : IsHole a front i u (i + k) k back list
  pub owned : (a.mem i).blocks_owned ≡ k

merge_front-none : (i : ℕ) (a : Allocator) → (a.mem i).blocks_before ≡ 0 → merge_front i a ≡ (i, a)
unfolding merge_front
merge_front-none i a h = rw ((==_iff (a.mem i).blocks_before 0).1 h)

merge_front-some :
    (i p : ℕ) (a : Allocator)
    → (a.mem i).blocks_before ≢ 0
    → sub i (a.mem i).blocks_before ≡ p
    → merge_front i a ≡ merge_into p i a
unfolding merge_front
merge_front-some i p a z q =
    let e = differ-== (a.mem i).blocks_before 0 z in
    let start : merge_front i a ≡ merge_into (sub i (a.mem i).blocks_before) i a = rw e in
    start ∙ ap (λ (n : ℕ). merge_into n i a) q

merge_into-used : (i p : ℕ) (a : Allocator) → (a.mem p).is_used ≡ true → merge_into p i a ≡ (i, a)
unfolding merge_into
merge_into-used i p a u = rw u

-- The chunk in front grows over the one behind it.
front_merged : ℕ → ℕ → Allocator → Allocator
front_merged p k a = unlink_free_node p (set_blocks_owned p k a)

merge_into-free :
    (i p j k : ℕ) (a : Allocator)
    → (a.mem p).is_used ≡ false
    → (a.mem p).blocks_owned ≡ j
    → (a.mem i).blocks_owned ≡ k
    → merge_into p i a ≡ (p, front_merged p (j + k) a)
unfolding merge_into front_merged
merge_into-free i p j k a u o o' = rw (u, o, o')

-- With a free chunk in front, both are taken together as one that is not in the list.
module _ (a : Allocator) (front : List Chunk) (j i k : ℕ) (back : List Chunk) (list : List ℕ)
    (whole : IsWhole a (front ++ (j, false) ∷ []) i true k back list) where
  previous : IsHead (a.mem (total front)) (last_size 0 front) j false
  previous = tiles-owned a front j false [] whole.hole.layout.head_tiles

  both-IsListed : IsListed a front (total front) (i + k) k back list
  both-IsListed =
      let h = whole.hole in
      let o = h.layout in
      let place = o.place in
      let inside = o.inside in
      let (head, one) = Tiles-split a.mem 0 0 front ((j, false) ∷ []) o.head_tiles in
      record {
        layout = record {
          place = refl;
          inside = omega (arith, total-snoc front j false);
          before = previous.0;
          used = previous.1;
          head_tiles = head;
          back_tiles = o.back_tiles;
          all = o.all;
        };
        small = h.small;
        listed = h.listed;
        members =
            subst (Perm list)
              (ap (λ f. f ++ frees (i + k) back) (frees-free front j [])
                ∙ append_assoc (frees 0 front) (total front ∷ []) (frees (i + k) back))
              h.members;
      }

  front_merged-IsWhole :
      (list' : List ℕ) × IsWhole
        (front_merged (total front) (j + k) a)
        front
        (total front)
        false
        (j + k)
        back
        list'
  unfolding front_merged
  front_merged-IsWhole =
      let h = both-IsListed in
      let o = h.layout in
      let p = total front in
      let place = whole.hole.layout.place in
      let all = o.all in
      let small = h.small in
      let positive : 0 < j = previous.3 in
      let bound : j + k < 2 ^ 31 = omega (arith, total-snoc front j false) in
      let reach : p + (j + k) ≡ i + k = omega (arith, total-snoc front j false) in
      let b = set_blocks_owned p (j + k) a in
      let same = SameRest-blocks (owned-SameRest p (j + k) a) in
      let listed : IsListed b front p (i + k) (j + k) back list = record {
        layout = owned-reach a front p (j + k) false (i + k) k bound (omega arith) back reach o;
        small = subst (λ (n : ℕ). n < 2 ^ 31) (sym same) small;
        listed = owned-IsFreeList p (j + k) a bound list h.listed;
        members = h.members;
      } in
      let (list', hole) = unlink-IsHole b front p (i + k) (j + k) back list listed in
      (
        list',
        record {
          hole =
              subst (λ (e : ℕ). IsHole (unlink_free_node p b) front p false e (j + k) back list')
                (sym reach) hole;
          owned =
              (unlink-SameShape p b p).owned
              ∙ ap (λ m. m.blocks_owned) (owned_self p (j + k) a bound (omega arith));
        },
      )

  merge_front-joined : merge_front i a ≡ (total front, front_merged (total front) (j + k) a)
  merge_front-joined =
      let o = whole.hole.layout in
      let place = o.place in
      let positive : 0 < j = previous.3 in
      let all = o.all in
      let small = whole.hole.small in
      let before : (a.mem i).blocks_before ≡ j = o.before ∙ last_size-append 0 front j false in
      let distance : sub i (a.mem i).blocks_before ≡ total front =
        ap (sub i) before
        ∙ sub-exact i j (total front) (omega (arith, total-snoc front j false)) (omega arith) in
      merge_front-some i (total front) a (λ q. omega arith) distance
      ∙ merge_into-free i (total front) j k a previous.1 previous.2 whole.owned

-- With no chunk in front, or a used one, nothing changes.
merge_front-kept :
    (a : Allocator) (front : List Chunk) (j i k : ℕ) (back : List Chunk) (list : List ℕ)
    → IsWhole a (front ++ (j, true) ∷ []) i true k back list
    → merge_front i a ≡ (i, a)
merge_front-kept a front j i k back list whole =
    let o = whole.hole.layout in
    let place = o.place in
    let all = o.all in
    let small = whole.hole.small in
    let previous = tiles-owned a front j true [] o.head_tiles in
    let positive : 0 < j = previous.3 in
    let before : (a.mem i).blocks_before ≡ j = o.before ∙ last_size-append 0 front j true in
    let distance : sub i (a.mem i).blocks_before ≡ total front =
      ap (sub i) before
      ∙ sub-exact i j (total front) (omega (arith, total-snoc front j true)) (omega arith) in
    merge_front-some i (total front) a (λ q. omega arith) distance
    ∙ merge_into-used i (total front) a previous.1

-- After `merge_front` the chunk is whole, and a free one in front has become a part of it.
pub record IsMergedFront (front : List Chunk) (k : ℕ) (back : List Chunk) (result : ℕ × Allocator)
    : Type 0 where
  pub rest : List Chunk
  pub used : Bool
  pub size : ℕ
  pub list : List ℕ
  pub whole : IsWhole result.1 rest result.0 used size back list
  pub joined : rest ++ join_back size back ≡ join front k back

pub merge_front-IsMergedFront :
    (a : Allocator) (front : List Chunk) (i k : ℕ) (back : List Chunk) (list : List ℕ)
    → IsWhole a front i true k back list
    → IsMergedFront front k back (merge_front i a)
merge_front-IsMergedFront a front i k back list w = elim (last_of front) [
  | inl e ↦
      subst (IsMergedFront front k back)
        (sym (merge_front-none i a (w.hole.layout.before ∙ ap (last_size 0) e)))
        (record {
          rest = front;
          used = true;
          size = k;
          list = list;
          whole = w;
          joined =
              ap (λ f. f ++ join_back k back) e ∙ join-nil k back ∙ ap (λ f. join f k back) (sym e);
        })
  | inr (rest, j, true, e) ↦
      subst (IsMergedFront front k back)
        (sym (
          merge_front-kept a rest j i k back list
            (subst (λ f. IsWhole a f i true k back list) e w)))
        (record {
          rest = front;
          used = true;
          size = k;
          list = list;
          whole = w;
          joined =
              ap (λ f. f ++ join_back k back) e
              ∙ sym (join-used rest j k back)
              ∙ ap (λ f. join f k back) (sym e);
        })
  | inr (rest, j, false, e) ↦
      let w' = subst (λ f. IsWhole a f i true k back list) e w in
      let (list', done) = front_merged-IsWhole a rest j i k back list w' in
      subst (IsMergedFront front k back) (sym (merge_front-joined a rest j i k back list w'))
        (record {
          rest = rest;
          used = false;
          size = j + k;
          list = list';
          whole = done;
          joined = sym (join-free rest j k back) ∙ ap (λ f. join f k back) (sym e);
        })
]
