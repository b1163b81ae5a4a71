-- ===== src/Allocator/Granted.antt =====
-- The state of `Allocator` between two calls, and what an address that `allocate` returns promises.
use mathlib.Core.Path.{subst}
use corosig.Prelude.{
  ℕ, zero, suc, ◌+◌, ◌-◌, ◌*◌, ◌%◌, ◌^◌, ◌≤◌, ◌<◌, ◌≡◌, refl, sym, ap, ◌∙◌, List, ◌∷◌, ◌++◌, true,
  false, arith,
}
use native.Mathlib.Nat.{mod-eq_of_lt}
use corosig.Allocator.{Allocator, block_size, blocks_amount}
use corosig.Allocator.Allocating.{blocks_needed, allocate_in}
use corosig.Allocator.Chunks.{Chunk, total, total-append}
use corosig.Allocator.Heap.{IsTiled}
use corosig.Allocator.Shift.{tiles-owned}
use corosig.Allocator.Take.{left_over}
use corosig.Allocator.Allocate.{
  allocate_in-IsTiled, allocate_in-used, allocate_in-address, allocate_in-peak,
}
use corosig.Allocator.FirstFit.{is_fitting, is_fitting-true}
use corosig.Allocator.Locate.{IsAt}
use corosig.Allocator.Sizes.{used_blocks, used_blocks-append, used_blocks_bound, IsPlaced, place}

-- The state between two calls: chunks, the free ones in the list, the used ones accounted for.
pub record IsHeap (a : Allocator) (cs : List Chunk) (list : List ℕ) : Type 0 where
  pub tiled : IsTiled a cs list
  pub accounted : a.used ≡ used_blocks cs * block_size
  pub placed : a.address % block_size ≡ 0
  pub peaked : a.used ≤ a.peak

-- The chunks when the free one between `front` and `back` has been used for `n` blocks.
abbrev pub split_chunks : List Chunk → ℕ → ℕ → ℕ → List Chunk → List Chunk
split_chunks front skip n r back = front ++ (left_over skip ++ ((n, true) ∷ left_over r ++ back))

-- What a pointer and the allocator that comes with it promise.
pub record IsGranted (a : Allocator) (cs : List Chunk) (size alignment p : ℕ) (a' : Allocator)
    : Type 0 where
  pub front : List Chunk
  pub skip : ℕ
  pub n : ℕ
  pub r : ℕ
  pub back : List Chunk
  pub list : List ℕ
  pub was : cs ≡ front ++ (skip + (n + r), false) ∷ back
  pub now : IsHeap a' (split_chunks front skip n r back) list
  pub same_place : a'.address ≡ a.address
  pub exact : p ≡ a.address + (total front + skip) * block_size + block_size
  pub upper : p + size ≤ a.address + (total front + skip + n) * block_size
  pub multiple : ℕ
  pub aligned : p ≡ multiple * alignment

used_left_over : (r : ℕ) (cs : List Chunk) → used_blocks (left_over r ++ cs) ≡ used_blocks cs
used_left_over zero cs = refl
used_left_over (suc r) cs = refl

used_split :
    (front : List Chunk) (skip n r k : ℕ) (back : List Chunk)
    → used_blocks (split_chunks front skip n r back) ≡ used_blocks (front ++ (k, false) ∷ back) + n
used_split front skip n r k back = omega (
  arith,
  used_blocks-append front (left_over skip ++ ((n, true) ∷ left_over r ++ back)),
  used_left_over skip ((n, true) ∷ left_over r ++ back),
  used_left_over r back,
  used_blocks-append front ((k, false) ∷ back),
)

-- The chunk that the search has found.
module _ (a : Allocator) (front : List Chunk) (k : ℕ) (back : List Chunk) (list : List ℕ)
    (size m : ℕ) (heap : IsHeap a (front ++ (k, false) ∷ back) list) (exponent : m ≤ 63)
    (room : a.address + a.size + size + 2 ^ m + block_size ≤ 2 ^ 64)
    (fits : blocks_needed (total front) size (2 ^ m) a ≤ k) where
  allocate_in-used_blocks :
      (skip n r : ℕ) (list' : List ℕ)
      → IsTiled
          (allocate_in (total front) size (2 ^ m) a).1
          (split_chunks front skip n r back)
          list'
      → IsPlaced a (total front) size (2 ^ m) skip n
      → (allocate_in (total front) size (2 ^ m) a).1.used
        ≡ used_blocks (split_chunks front skip n r back) * block_size
  allocate_in-used_blocks skip n r list' t h =
      let small = t.small in
      let all = t.all in
      let e = used_split front skip n r k back in
      let bound = used_blocks_bound (split_chunks front skip n r back) in
      let old = heap.accounted in
      let new = allocate_in-used a (total front) size (2 ^ m) skip n h.skipped h.needed in
      let sum : a.used + n * block_size < 2 ^ 64 = omega arith in
      new ∙ mod-eq_of_lt sum ∙ omega arith

  grant :
      IsGranted a
        (front ++ (k, false) ∷ back)
        size
        (2 ^ m)
        (allocate_in (total front) size (2 ^ m) a).0
        (allocate_in (total front) size (2 ^ m) a).1
  grant =
      let t = heap.tiled in
      let positive : 0 < k = (tiles-owned a front k false back t.tiles).3 in
      let all = t.all in
      let inside : total front < blocks_amount a =
        omega (arith, total-append front ((k, false) ∷ back)) in
      let (skip, n, h) = place a (total front) size m exponent inside heap.placed room in
      let needs = h.needs in
      let r = k - (skip + n) in
      let whole : skip + (n + r) ≡ k = omega arith in
      let (list', t') =
        allocate_in-IsTiled a front k back list size (2 ^ m) skip n r t h.skipped h.needed
          h.positive whole in
      record {
        front = front;
        skip = skip;
        n = n;
        r = r;
        back = back;
        list = list';
        was = ap (λ (j : ℕ). front ++ (j, false) ∷ back) (sym whole);
        now = record {
          tiled = t';
          accounted = allocate_in-used_blocks skip n r list' t' h;
          placed =
              ap (λ (j : ℕ). j % block_size) (allocate_in-address a (total front) size (2 ^ m))
              ∙ heap.placed;
          peaked = allocate_in-peak a (total front) size (2 ^ m);
        };
        same_place = allocate_in-address a (total front) size (2 ^ m);
        exact = h.exact;
        upper = h.upper;
        multiple = h.multiple;
        aligned = h.aligned;
      }

-- A chunk that the search has found is granted.
pub found-IsGranted :
    (a : Allocator) (cs : List Chunk) (list : List ℕ) (size m x : ℕ)
    → IsHeap a cs list
    → m ≤ 63
    → a.address + a.size + size + 2 ^ m + block_size ≤ 2 ^ 64
    → IsAt x 0 cs
    → is_fitting size (2 ^ m) a x ≡ true
    → IsGranted a cs size (2 ^ m) (allocate_in x size (2 ^ m) a).0 (allocate_in x size (2 ^ m) a).1
found-IsGranted a cs list size m x heap exponent room at f =
    let start = at.start in
    let x_eq : x ≡ total at.front = omega arith in
    let heap' : IsHeap a (at.front ++ (at.size, false) ∷ at.back) list =
      subst (λ c. IsHeap a c list) at.eq heap in
    let owned : (a.mem (total at.front)).blocks_owned ≡ at.size =
      (tiles-owned a at.front at.size false at.back heap'.tiled.tiles).2 in
    let fits : blocks_needed (total at.front) size (2 ^ m) a ≤ at.size =
      subst (λ (k : ℕ). blocks_needed (total at.front) size (2 ^ m) a ≤ k) owned
        (is_fitting-true size (2 ^ m) a (total at.front)
          (subst (λ (y : ℕ). is_fitting size (2 ^ m) a y ≡ true) x_eq f)) in
    subst
      (λ (y : ℕ).
        IsGranted a cs size (2 ^ m) (allocate_in y size (2 ^ m) a).0
          (allocate_in y size (2 ^ m) a).1)
      (sym x_eq)
      (subst
        (λ c.
          IsGranted a c size (2 ^ m) (allocate_in (total at.front) size (2 ^ m) a).0
            (allocate_in (total at.front) size (2 ^ m) a).1)
        (sym at.eq) (grant a at.front at.size at.back list size m heap' exponent room fits))
