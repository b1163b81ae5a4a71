-- ===== src/Allocator/Allocated.antt =====
-- `Allocator::allocate` as a whole.
use mathlib.Core.Path.{subst}
use corosig.Allocator.Granted.{IsHeap, IsGranted, found-IsGranted}
use corosig.Prelude.{
  Bool, ℕ, ◌+◌, ◌^◌, ◌≤◌, ◌<◌, ◌≡◌, refl, sym, ap, ◌∙◌, ◌⊎◌, inl, inr, List, true, false, All,
  All-weaken, length, arith,
}
use mathlib.Core.List.{Perm}
use native.Mathlib.Bridge.{le_prop}
use corosig.Allocator.{Allocator, block_size, invalid_idx, blocks_amount}
use corosig.Allocator.Allocating.{
  blocks_needed, allocate, allocated, Allocation, pointer, null, Search, found, exhausted, diverge,
  search_free,
}
use corosig.Allocator.Chunks.{Chunk, total, frees, frees-Within, Within}
use corosig.Allocator.Members.{Perm-All}
use corosig.Allocator.Heap.{IsTiled}
use corosig.Allocator.FirstFit.{
  is_fitting, is_fitting-false, first_fit, search-first_fit, first_fit-found, first_fit-exhausted,
  first_fit-cases, search-cases,
}
use corosig.Allocator.Locate.{listed-IsAt}

-- What `allocate` returns with enough fuel.
abbrev pub IsAllocated : Allocator → List Chunk → List ℕ → ℕ → ℕ → Allocation → Type 0
IsAllocated a cs list size alignment (pointer p a') = IsGranted a cs size alignment p a'
IsAllocated a cs list size alignment (null a') =
    (a' ≡ a) × All (λ x. (a.mem x).blocks_owned < blocks_needed x size alignment a) list
IsAllocated a cs list size alignment diverge = ⊥

allocated-IsAllocated :
    (a : Allocator) (cs : List Chunk) (list : List ℕ) (size m : ℕ) (s : Search)
    → IsHeap a cs list
    → m ≤ 63
    → a.address + a.size + size + 2 ^ m + block_size ≤ 2 ^ 64
    → first_fit (is_fitting size (2 ^ m) a) list ≡ s
    → ((x : ℕ) × (s ≡ found x)) ⊎ (s ≡ exhausted)
    → IsAllocated a cs list size (2 ^ m) (allocated a size (2 ^ m) s)
unfolding allocated
allocated-IsAllocated a cs list size m s heap exponent room e (inl (x, q)) =
    let fits = is_fitting size (2 ^ m) a in
    let (f, before, after, l) = first_fit-found fits list x (e ∙ q) in
    let at =
      listed-IsAt x cs before after (subst (λ ys. Perm ys (frees 0 cs)) l heap.tiled.members) in
    subst (λ r. IsAllocated a cs list size (2 ^ m) (allocated a size (2 ^ m) r)) (sym q)
      (found-IsGranted a cs list size m x heap exponent room at f)
allocated-IsAllocated a cs list size m s heap exponent room e (inr q) =
    let fits = is_fitting size (2 ^ m) a in
    subst (λ r. IsAllocated a cs list size (2 ^ m) (allocated a size (2 ^ m) r)) (sym q)
      (
        refl,
        All-weaken (λ x. fits x ≡ false)
            (λ x. (a.mem x).blocks_owned < blocks_needed x size (2 ^ m) a)
            (is_fitting-false size (2 ^ m) a) list (first_fit-exhausted fits list (e ∙ q)),
      )

listed_inside :
    (a : Allocator) (cs : List Chunk) (list : List ℕ)
    → IsTiled a cs list
    → All (λ x. x < blocks_amount a) list
listed_inside a cs list t =
    let all = t.all in
    Perm-All (λ x. x < blocks_amount a) (λ x. le_prop) t.members
      (All-weaken (Within 0 (0 + total cs)) (λ x. x < blocks_amount a) (λ x (l, h). omega arith)
        (frees 0 cs) (frees-Within a.mem 0 0 cs t.tiles))

-- On a heap, for a power of two as alignment, with no sum of the memory's end, the size, the
-- alignment and a header above 2^64, and with more rounds than there are free chunks, `allocate`
-- returns. Either it grants an aligned address: a free chunk has been cut so that a used one
-- starts in it, the address is that behind its header, `size` octets from there lie inside of
-- it, and the result is a heap again. Or it returns null and the allocator as it was, and no
-- chunk of the free list has as many blocks as are needed.
pub allocate_lem :
    (a : Allocator) (cs : List Chunk) (list : List ℕ) (fuel size m : ℕ)
    → IsHeap a cs list
    → length list < fuel
    → m ≤ 63
    → a.address + a.size + size + 2 ^ m + block_size ≤ 2 ^ 64
    → IsAllocated a cs list size (2 ^ m) (allocate fuel size (2 ^ m) a)
unfolding allocate
allocate_lem a cs list fuel size m heap enough exponent room =
    let t = heap.tiled in
    let small = t.small in
    let listed = t.listed in
    let all = t.all in
    let inside = listed_inside a cs list t in
    let fits = is_fitting size (2 ^ m) a in
    let start =
      ap (λ (k : ℕ). search_free fuel k size (2 ^ m) a) listed.first
      ∙ search-first_fit fuel invalid_idx size (2 ^ m) a list (omega arith) listed.chain inside
          enough in
    subst (λ s. IsAllocated a cs list size (2 ^ m) (allocated a size (2 ^ m) s)) (sym start)
      (allocated-IsAllocated a cs list size m (first_fit fits list) heap exponent room refl
        (first_fit-cases fits list))

was_pointer : Allocation → Bool
was_pointer (pointer p a) = true
was_pointer (null a) = false
was_pointer diverge = false

-- With any fuel, an address that is returned is granted.
pub pointer-IsGranted :
    (a : Allocator) (cs : List Chunk) (list : List ℕ) (fuel size m p : ℕ) (a' : Allocator)
    → IsHeap a cs list
    → m ≤ 63
    → a.address + a.size + size + 2 ^ m + block_size ≤ 2 ^ 64
    → allocate fuel size (2 ^ m) a ≡ pointer p a'
    → IsGranted a cs size (2 ^ m) p a'
unfolding allocate allocated was_pointer
pointer-IsGranted a cs list fuel size m p a' heap exponent room e =
    let t = heap.tiled in
    let small = t.small in
    let fits = is_fitting size (2 ^ m) a in
    let first = ap (λ (k : ℕ). search_free fuel k size (2 ^ m) a) t.listed.first in
    let result : Search → Type 0 = λ s. allocated a size (2 ^ m) s ≡ pointer p a' in
    elim (search-cases fuel invalid_idx size (2 ^ m) a list (omega arith) t.listed.chain
      (listed_inside a cs list t)) [
        | inl d ↦
            let e' : allocated a size (2 ^ m) diverge ≡ pointer p a' = subst result (first ∙ d) e in
            let e'' : false ≡ true = ap was_pointer e' in absurd cc
        | inr d ↦
            let e' : allocated a size (2 ^ m) (first_fit fits list) ≡ pointer p a' =
              subst result (first ∙ d) e in
            subst (IsAllocated a cs list size (2 ^ m)) e' (
              allocated-IsAllocated a cs list size m (first_fit fits list) heap exponent room refl
                (first_fit-cases fits list))
      ]
