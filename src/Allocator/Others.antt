-- ===== src/Allocator/Others.antt =====
-- The headers that are in no free list, while `Allocator` links and unlinks other blocks.
use mathlib.Core.Path.{fun_ext}
use corosig.Prelude.{
  ℕ, ◌==◌, ◌≡◌, refl, sym, ap, ◌∙◌, ◌≢◌, inl, inr, List, [], ◌∷◌, ◌++◌, Bool-cases, All, All-left,
  All-right, ==_iff, differ-==,
}
use corosig.Allocator.{
  BlockMetadata, Memory, Allocator, at_block, invalid_idx, bypass_prev, bypass_next,
  unlink_free_node, set_prev, set_next, push_free_node, push_front, push_back,
}
use corosig.Allocator.Distinct.{hd, lst, lst-All, differ_sym}
use corosig.Allocator.Chain.{at_block-other}
use corosig.Allocator.Bypass.{
  IsAround, IsApart, around, apart, bypassed, bypass_prev-linked, bypass_next-linked,
  bypass_prev-chains,
}
use corosig.Allocator.FreeList.{IsFreeList, IsUnlinked}
use corosig.Allocator.Frames.{push-elim}

bypass_prev-other :
    (mem : Memory) (before : List ℕ) (x : ℕ) (after : List ℕ) (j : ℕ)
    → IsAround mem before x after
    → IsApart before x after
    → All (λ y. j ≢ y) after
    → bypass_prev x mem j ≡ mem j
unfolding bypass_prev
bypass_prev-other mem before x [] j r s h =
    rw ((==_iff (mem x).next_free_block_idx invalid_idx).1 r.next)
bypass_prev-other mem before x (y ∷ ys) j r s h =
    let p = lst invalid_idx before in
    ap (λ m. m j) (bypass_prev-linked mem x y p r.next r.prev s.back_valid.0)
    ∙ at_block-other y j (λ b. record b { prev_free_block_idx = p }) mem (λ q. h.0 (sym q))

bypass_next-other :
    (mem mem' : Memory) (before : List ℕ) (x : ℕ) (after : List ℕ) (j : ℕ)
    → IsAround mem before x after
    → IsApart before x after
    → mem' x ≡ mem x
    → All (λ y. j ≢ y) before
    → bypass_next x mem' j ≡ mem' j
unfolding bypass_next
bypass_next-other mem mem' [] x after j r s e h = rw (
    (==_iff (mem' x).prev_free_block_idx invalid_idx).1
      (ap (λ b. b.prev_free_block_idx) e ∙ r.prev))
bypass_next-other mem mem' (y ∷ ys) x after j r s e h =
    let z = lst y ys in
    let n = hd after invalid_idx in
    let differ = differ_sym j (y ∷ ys) h in
    let eq =
      bypass_next-linked mem' x z n (ap (λ b. b.prev_free_block_idx) e ∙ r.prev)
        (ap (λ b. b.next_free_block_idx) e ∙ r.next)
        (lst-All (λ w. w ≢ invalid_idx) y ys s.front_valid.0 s.front_valid.1) in
    ap (λ m. m j) eq
    ∙ at_block-other z j (λ b. record b { next_free_block_idx = n }) mem'
        (lst-All (λ w. w ≢ j) y ys differ.0 differ.1)

-- A header that is not in the list is not touched when another block leaves it.
pub unlink-other :
    (a : Allocator) (before : List ℕ) (x : ℕ) (after : List ℕ) (j : ℕ)
    → IsFreeList a (before ++ x ∷ after)
    → All (λ y. j ≢ y) (before ++ x ∷ after)
    → (unlink_free_node x a).mem j ≡ a.mem j
unfolding unlink_free_node
unlink-other a before x after j f h =
    let r = around a.mem before x after f.chain in
    let s = apart before x after f.distinct f.valid in
    let right = All-right (λ y. j ≢ y) before (x ∷ after) h in
    let m = bypass_prev x a.mem in
    let kept = bypass_prev-chains a.mem before x after r s in
    at_block-other x j
      (λ b. record b { prev_free_block_idx = invalid_idx; next_free_block_idx = invalid_idx })
      (bypass_next x m) (λ q. right.0 (sym q))
    ∙ bypass_next-other a.mem m before x after j r s kept.2
        (All-left (λ y. j ≢ y) before (x ∷ after) h)
    ∙ bypass_prev-other a.mem before x after j r s right.1

pub push-other :
    (a : Allocator) (list : List ℕ) (x j : ℕ)
    → IsFreeList a list
    → All (λ y. j ≢ y) list
    → j ≢ x
    → (push_free_node x a).mem j ≡ a.mem j
unfolding push_free_node push_front push_back
push-other a [] x j f h ne = rw ((==_iff a.first_free_block_idx invalid_idx).1 f.first)
push-other a (y ∷ ys) x j f h ne =
    let differ = differ_sym j (y ∷ ys) h in
    let first = a.first_free_block_idx in
    let last = a.last_free_block_idx in
    let last_other : last ≢ j = λ q. lst-All (λ w. w ≢ j) y ys differ.0 differ.1 (sym f.last ∙ q) in
    let x_other : x ≢ j = λ q. ne (sym q) in
    push-elim (λ m. m j ≡ a.mem j) x a refl
      (at_block-other x j (λ b. record b { next_free_block_idx = first }) (set_prev first x a.mem)
          x_other
        ∙ at_block-other first j (λ b. record b { prev_free_block_idx = x }) a.mem
            (λ q. h.0 (sym q ∙ f.first)))
      (at_block-other x j (λ b. record b { prev_free_block_idx = last }) (set_next last x a.mem)
          x_other
        ∙ at_block-other last j (λ b. record b { next_free_block_idx = x }) a.mem last_other)

abbrev unlinked : BlockMetadata → BlockMetadata
unlinked b = record b { prev_free_block_idx = invalid_idx; next_free_block_idx = invalid_idx }

module _ (x : ℕ) (mem : Memory) (h : IsUnlinked (mem x)) where
  bypassed-idle : bypassed x mem ≡ mem
  unfolding bypass_prev bypass_next
  bypassed-idle =
      let e : bypass_prev x mem ≡ mem =
        rw ((==_iff (mem x).next_free_block_idx invalid_idx).1 h.1) in
      ap (bypass_next x) e ∙ rw ((==_iff (mem x).prev_free_block_idx invalid_idx).1 h.0)

  unlinked-idle : (i : ℕ) → i ≡ x → unlinked (mem i) ≡ mem i
  unlinked-idle i e =
      let p : (mem i).prev_free_block_idx ≡ invalid_idx =
        ap (λ k. (mem k).prev_free_block_idx) e ∙ h.0 in
      let n : (mem i).next_free_block_idx ≡ invalid_idx =
        ap (λ k. (mem k).next_free_block_idx) e ∙ h.1 in
      sym (
        ap
          (λ v. record (mem i) {
            next_free_block_idx = v;
            prev_free_block_idx = (mem i).prev_free_block_idx;
          })
          n
        ∙ ap (λ v. record (mem i) { next_free_block_idx = invalid_idx; prev_free_block_idx = v }) p)

  at_block-idle : at_block x unlinked mem ≡ mem
  unfolding at_block
  at_block-idle = fun_ext λ j. elim (Bool-cases (j == x)) [
    | inl e ↦ rw e (unlinked-idle j ((==_iff j x).0 e))
    | inr e ↦ rw e
  ]

-- A header without links stays as it is when it is unlinked.
pub unlink-idle :
    (x : ℕ) (a : Allocator)
    → IsUnlinked (a.mem x)
    → a.first_free_block_idx ≢ x
    → a.last_free_block_idx ≢ x
    → unlink_free_node x a ≡ a
unfolding unlink_free_node
unlink-idle x a h f l =
    let first : (unlink_free_node x a).first_free_block_idx ≡ a.first_free_block_idx =
      rw (differ-== a.first_free_block_idx x f) in
    let last : (unlink_free_node x a).last_free_block_idx ≡ a.last_free_block_idx =
      rw (differ-== a.last_free_block_idx x l) in
    let mem : (unlink_free_node x a).mem ≡ a.mem =
      ap (at_block x unlinked) (bypassed-idle x a.mem h) ∙ at_block-idle x a.mem h in
    λ i. record a { mem = mem i; first_free_block_idx = first i; last_free_block_idx = last i }
