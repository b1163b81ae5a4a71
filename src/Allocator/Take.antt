-- ===== src/Allocator/Take.antt =====
-- `Allocator::allocate` in a free chunk: the part that is used, and what is left behind it.
use mathlib.Core.Path.{subst}
use mathlib.Core.List.{append_assoc}
use corosig.Prelude.{
  ℕ, zero, suc, ◌+◌, ◌-◌, ◌^◌, ◌<◌, ltb, ◌≡◌, refl, sym, ap, ◌∙◌, List, [], ◌∷◌, ◌++◌, true, false,
  arith, lt→ltb,
}
use corosig.Allocator.{
  Allocator, on_block, blocks_amount, set_blocks_owned, new_chunk, push_free_node, is_large,
}
use corosig.Allocator.Allocating.{split_back}
use corosig.Allocator.FreeList.{pushed}
use corosig.Allocator.Chunks.{Chunk}
use corosig.Allocator.Owned.{owned_self, owned-next}
use corosig.Allocator.Kept.{SameRest-blocks, on_block-SameRest}
use corosig.Allocator.Heap.{IsTiled, IsHole}
use corosig.Allocator.Cut.{new_chunk-owned}
use corosig.Allocator.Shift.{hole-IsTiled}
use corosig.Allocator.Hole.{
  marked, mark-IsHole, reach-IsHole, cut-IsHole, next-IsHole, push-IsTiled,
}

-- What is left of a chunk, as a list of one chunk or of none.
abbrev pub left_over : ℕ → List Chunk
left_over zero = []
left_over (suc r) = (suc r, false) ∷ []

split_none : (i n : ℕ) (a : Allocator) → split_back i n n a ≡ a
unfolding split_back
split_none i n a = let e : ltb n n ≡ false = ground arith in rw e

split_some :
    (i n r : ℕ) (a : Allocator)
    → 0 < r
    → split_back i n (n + r) a ≡ push_free_node (i + n) (new_chunk (i + n) r a)
unfolding split_back new_chunk
split_some i n r a l =
    let e = lt→ltb n (n + r) (omega arith) in let e' : n + r - n ≡ r = omega arith in rw (e, e')

pub take-IsTiled :
    (a : Allocator) (front : List Chunk) (i n r gap e : ℕ) (back : List Chunk) (list : List ℕ)
    → 0 < n
    → i + (n + r) ≡ e
    → gap ≡ n + r
    → IsHole a front i false e gap back list
    → (list' : List ℕ) × IsTiled
        (split_back i n (n + r) (set_blocks_owned i n (on_block i (marked true) a)))
        (front ++ ((n, true) ∷ left_over r ++ back))
        list'
take-IsTiled a front i n zero gap e back list l p g h =
    let all = h.layout.all in
    let small = h.small in
    let bound : n < 2 ^ 31 = omega arith in
    let used = mark-IsHole a front i false e gap back list true h in
    let a' = on_block i (marked true) a in
    let reach : i + n ≡ e = omega arith in
    let whole = reach-IsHole a' front i true e gap back list n bound l reach used in
    let owned = ap (λ b. b.blocks_owned) (owned_self i n a' bound l) in
    let eq : split_back i n (n + 0) (set_blocks_owned i n a') ≡ set_blocks_owned i n a' =
      let z : n + 0 ≡ n = omega arith in
      ap (λ (m : ℕ). split_back i n m (set_blocks_owned i n a')) z
      ∙ split_none i n (set_blocks_owned i n a') in
    (
      list,
      subst (λ b. IsTiled b (front ++ (n, true) ∷ back) list) (sym eq)
          (hole-IsTiled (set_blocks_owned i n a') front i e n back list n whole owned reach refl),
    )
take-IsTiled a front i n (suc r) gap e back list l p g h =
    let all = h.layout.all in
    let small = h.small in
    let bound : n < 2 ^ 31 = omega arith in
    let rest : suc r < 2 ^ 31 = omega arith in
    let used = mark-IsHole a front i false e gap back list true h in
    let a' = on_block i (marked true) a in
    let a'' = set_blocks_owned i n a' in
    let inside : i + n < e = omega arith in
    let cut = cut-IsHole a' front i true e gap back list n bound l inside used in
    let owned = ap (λ b. b.blocks_owned) (owned_self i n a' bound l) in
    let blocks : i + n < blocks_amount a' =
      subst (λ (m : ℕ). i + n < m) (sym (SameRest-blocks (on_block-SameRest i (marked true) a)))
        (omega arith) in
    let before = ap (λ b. b.blocks_before) (owned-next i n a' bound l blocks) in
    let reach : i + n + suc r ≡ e = omega arith in
    let next =
      next-IsHole a'' front i n e gap back list (suc r) rest l (omega arith) reach cut owned
        before in
    let a3 = new_chunk (i + n) (suc r) a'' in
    let done =
      push-IsTiled a3 (front ++ (n, true) ∷ []) (i + n) e (suc r) back list (suc r) next
        (new_chunk-owned a'' (i + n) (suc r) rest (omega arith)) reach refl in
    (
      pushed (is_large (i + n) a3) (i + n) list,
      subst
          (λ b.
            IsTiled b (front ++ (n, true) ∷ (suc r, false) ∷ back)
              (pushed (is_large (i + n) a3) (i + n) list))
          (sym (split_some i n (suc r) a'' (omega arith)))
          (subst
            (λ cs.
              IsTiled (push_free_node (i + n) a3) cs (pushed (is_large (i + n) a3) (i + n) list))
            (append_assoc front ((n, true) ∷ []) ((suc r, false) ∷ back)) done),
    )
