-- ===== src/Allocator/Heap.antt =====
-- The state of `Allocator` between two calls, and in the middle of one.
use mathlib.Core.Path.{subst}
use mathlib.Core.List.{Perm, perm_middle}
use mathlib.Core.List.Perm
use mathlib.Core.Bool.{Bool-set}
use corosig.Prelude.{
  ℕ, ◌+◌, ◌^◌, ◌≤◌, ◌<◌, ◌≡◌, sym, ap, ◌∙◌, ◌≢◌, List, ◌∷◌, ◌++◌, true, false, Bool, All,
  All-append, All-weaken, arith,
}
use corosig.Allocator.{
  Memory, Allocator, invalid_idx, blocks_amount, unlink_free_node, push_free_node, is_large,
}
use corosig.Allocator.FreeList.{IsFreeList, IsUnlinked, pushed, push_free_node-IsFreeList}
use corosig.Allocator.Unlink.{unlink-IsUnlinked, unlink_free_node-IsFreeList}
use corosig.Allocator.Frames.{unlink-SameShape, push-SameShape}
use corosig.Allocator.Others.{unlink-other, push-other}
use corosig.Allocator.Chunks.{Chunk, total, Tiles, frees, frees-unused, frees-Within, Within}
use corosig.Allocator.Open.{IsOpen, Open-same}
use corosig.Allocator.Kept.{SameRest-blocks, unlink-SameRest, push-SameRest}
use corosig.Allocator.Members.{Perm-All, Perm-differ, Perm-Split, Perm-remove, Perm-pushed}

-- The headers divide the memory into chunks, and the free list holds the free ones.
pub record IsTiled (a : Allocator) (cs : List Chunk) (list : List ℕ) : Type 0 where
  pub tiles : Tiles a.mem 0 0 cs
  pub all : total cs ≡ blocks_amount a
  pub small : blocks_amount a < 2 ^ 31
  pub listed : IsFreeList a list
  pub members : Perm list (frees 0 cs)

-- The chunk from `i` to `e` is in the free list.
pub record IsListed (a : Allocator) (front : List Chunk) (i e gap : ℕ) (back : List Chunk)
    (list : List ℕ) : Type 0 where
  pub layout : IsOpen a front i false e gap back
  pub small : blocks_amount a < 2 ^ 31
  pub listed : IsFreeList a list
  pub members : Perm list (frees 0 front ++ i ∷ frees e back)

-- The blocks from `i` to `e` are not in the free list.
pub record IsHole (a : Allocator) (front : List Chunk) (i : ℕ) (u : Bool) (e gap : ℕ)
    (back : List Chunk) (list : List ℕ) : Type 0 where
  pub layout : IsOpen a front i u e gap back
  pub small : blocks_amount a < 2 ^ 31
  pub listed : IsFreeList a list
  pub members : Perm list (frees 0 front ++ frees e back)
  pub rest : IsUnlinked (a.mem i)

abbrev pub Unused : Memory → ℕ → Type 0
Unused mem j = (mem j).is_used ≡ false

Unused-differ :
    (mem : Memory) (list : List ℕ) (j : ℕ)
    → All (Unused mem) list
    → (mem j).is_used ≡ true
    → All (λ y. j ≢ y) list
Unused-differ mem list j h t =
    All-weaken (Unused mem) (λ y. j ≢ y)
      (λ y f q. let f' : (mem j).is_used ≡ false = ap (λ k. (mem k).is_used) q ∙ f in cc) list h

module _ (a : Allocator) (front : List Chunk) (i : ℕ) (u : Bool) (e gap : ℕ)
    (back : List Chunk) where
  pub open-Unused :
      IsOpen a front i u e gap back → All (Unused a.mem) (frees 0 front ++ frees e back)
  open-Unused o =
      All-append (Unused a.mem) (frees 0 front) (frees e back)
        (frees-unused a.mem 0 0 front o.head_tiles) (frees-unused a.mem e gap back o.back_tiles)

  -- No free chunk starts between `i` and `e`.
  pub open-differ :
      (j : ℕ)
      → IsOpen a front i u e gap back
      → i ≤ j
      → j < e
      → All (λ y. j ≢ y) (frees 0 front ++ frees e back)
  open-differ j o l r =
      let place = o.place in
      All-append (λ y. j ≢ y) (frees 0 front) (frees e back)
        (All-weaken (Within 0 (0 + total front)) (λ y. j ≢ y) (λ y (p, q) z. omega arith)
          (frees 0 front) (frees-Within a.mem 0 0 front o.head_tiles))
        (All-weaken (Within e (e + total back)) (λ y. j ≢ y) (λ y (p, q) z. omega arith)
          (frees e back) (frees-Within a.mem e gap back o.back_tiles))

  pub open-valid :
      (j : ℕ) → IsOpen a front i u e gap back → blocks_amount a < 2 ^ 31 → j < e → j ≢ invalid_idx
  open-valid j o s l q = let all = o.all in omega arith

-- A block has left the free list, and nothing else has changed.
pub record IsLeft (a : Allocator) (front : List Chunk) (i : ℕ) (u : Bool) (e gap : ℕ)
    (back : List Chunk) (list : List ℕ) (x : ℕ) : Type 0 where
  pub left : List ℕ
  pub layout : IsOpen (unlink_free_node x a) front i u e gap back
  pub listed : IsFreeList (unlink_free_node x a) left
  pub members : Perm left (frees 0 front ++ frees e back)
  pub other : (j : ℕ) → All (λ y. j ≢ y) list → (unlink_free_node x a).mem j ≡ a.mem j

pub unlink-IsLeft :
    (a : Allocator) (front : List Chunk) (i : ℕ) (u : Bool) (e gap : ℕ) (back : List Chunk)
    (list : List ℕ) (x : ℕ)
    → IsOpen a front i u e gap back
    → IsFreeList a list
    → Perm list (frees 0 front ++ x ∷ frees e back)
    → Unused a.mem x
    → IsLeft a front i u e gap back list x
unlink-IsLeft a front i u e gap back list x o l p free =
    let s = Perm-Split x list (frees 0 front) (frees e back) p in
    let f : IsFreeList a (s.before ++ x ∷ s.after) = subst (IsFreeList a) s.eq l in
    let m = subst (λ ys. Perm ys (frees 0 front ++ x ∷ frees e back)) s.eq p in
    let unused : All (Unused a.mem) list =
      Perm-All (Unused a.mem) (λ j. Bool-set (a.mem j).is_used false)
        (Perm.trans p (perm_middle (frees 0 front) (frees e back)))
        (free, open-Unused a front i u e gap back o) in
    let other : (j : ℕ) → All (λ y. j ≢ y) list → (unlink_free_node x a).mem j ≡ a.mem j =
      λ j n. unlink-other a s.before x s.after j f (subst (All (λ y. j ≢ y)) s.eq n) in
    record {
      left = s.before ++ s.after;
      layout =
          Open-same a front i u e gap back (unlink_free_node x a) (unlink-SameShape x a)
            (λ j t. other j (Unused-differ a.mem list j unused t))
            (SameRest-blocks (unlink-SameRest x a)) o;
      listed = unlink_free_node-IsFreeList a s.before x s.after f;
      members = Perm-remove x s.before s.after (frees 0 front) (frees e back) m;
      other = other;
    }

-- A listed chunk leaves the free list.
pub unlink-IsHole :
    (a : Allocator) (front : List Chunk) (i e gap : ℕ) (back : List Chunk) (list : List ℕ)
    → IsListed a front i e gap back list
    → (list' : List ℕ) × IsHole (unlink_free_node i a) front i false e gap back list'
unlink-IsHole a front i e gap back list h =
    let left =
      unlink-IsLeft a front i false e gap back list i h.layout h.listed h.members h.layout.used in
    (
      left.left,
      record {
        layout = left.layout;
        small = subst (λ (n : ℕ). n < 2 ^ 31) (sym (SameRest-blocks (unlink-SameRest i a))) h.small;
        listed = left.listed;
        members = left.members;
        rest = unlink-IsUnlinked i a;
      },
    )

-- A free chunk comes into the free list.
pub push-IsListed :
    (a : Allocator) (front : List Chunk) (i e gap : ℕ) (back : List Chunk) (list : List ℕ)
    → IsHole a front i false e gap back list
    → IsListed (push_free_node i a) front i e gap back (pushed (is_large i a) i list)
push-IsListed a front i e gap back list h =
    let o = h.layout in
    let unused : All (Unused a.mem) list =
      Perm-All (Unused a.mem) (λ j. Bool-set (a.mem j).is_used false) h.members
        (open-Unused a front i false e gap back o) in
    let free : (a.mem i).is_used ≡ false = o.used in
    let same = SameRest-blocks (push-SameRest i a) in
    let differ =
      Perm-differ i h.members (open-differ a front i false e gap back i o (omega arith) o.inside) in
    record {
      layout =
          Open-same a front i false e gap back (push_free_node i a) (push-SameShape i a)
            (λ j t. push-other a list i j h.listed (Unused-differ a.mem list j unused t) (λ q.
              let free' : (a.mem j).is_used ≡ false = ap (λ k. (a.mem k).is_used) q ∙ free in cc))
            same o;
      small = subst (λ (n : ℕ). n < 2 ^ 31) (sym same) h.small;
      listed =
          push_free_node-IsFreeList i a list h.listed h.rest differ
            (open-valid a front i false e gap back i o h.small o.inside);
      members = Perm-pushed (is_large i a) i list (frees 0 front) (frees e back) h.members;
    }
