-- ===== src/Allocator/Unlink.antt =====
-- `Allocator::unlink_free_node` on a block of the free list, and on one that is in no list.
use corosig.Prelude.{
  ℕ, ◌≡◌, refl, sym, ap, ◌∙◌, ◌≢◌, List, [], ◌∷◌, ◌++◌, All, All-append, ==_iff, differ-==,
}
use corosig.Allocator.{BlockMetadata, Allocator, at_block, invalid_idx, unlink_free_node}
use corosig.Allocator.Distinct.{hd, lst, lst-All, lst-append, differ_sym}
use corosig.Allocator.Chain.{Chain-frame, Chain-append, at_block-same}
use corosig.Allocator.FreeList.{IsFreeList, IsUnlinked}
use corosig.Allocator.Bypass.{around, apart, bypassed, bypassed-HasBoth}

unlinked : BlockMetadata → BlockMetadata
unlinked b = record b { prev_free_block_idx = invalid_idx; next_free_block_idx = invalid_idx }

module _ (x : ℕ) (a : Allocator) where
  unlink-mem : (unlink_free_node x a).mem ≡ at_block x unlinked (bypassed x a.mem)
  unfolding unlink_free_node unlinked
  unlink-mem = refl

  pub unlink-IsUnlinked : IsUnlinked ((unlink_free_node x a).mem x)
  unfolding unlink_free_node unlinked
  unlink-IsUnlinked =
      let e = at_block-same x unlinked (bypassed x a.mem) in
      (ap (λ b. b.prev_free_block_idx) e, ap (λ b. b.next_free_block_idx) e)

  unlink-first-same :
      a.first_free_block_idx ≡ x
      → (unlink_free_node x a).first_free_block_idx ≡ (bypassed x a.mem x).next_free_block_idx
  unfolding unlink_free_node
  unlink-first-same h = rw ((==_iff a.first_free_block_idx x).1 h)

  unlink-first-other :
      a.first_free_block_idx ≢ x
      → (unlink_free_node x a).first_free_block_idx ≡ a.first_free_block_idx
  unfolding unlink_free_node
  unlink-first-other h = rw (differ-== a.first_free_block_idx x h)

  unlink-last-same :
      a.last_free_block_idx ≡ x
      → (unlink_free_node x a).last_free_block_idx ≡ (bypassed x a.mem x).prev_free_block_idx
  unfolding unlink_free_node
  unlink-last-same h = rw ((==_iff a.last_free_block_idx x).1 h)

  unlink-last-other :
      a.last_free_block_idx ≢ x → (unlink_free_node x a).last_free_block_idx ≡ a.last_free_block_idx
  unfolding unlink_free_node
  unlink-last-other h = rw (differ-== a.last_free_block_idx x h)

-- The ends of the list around `x`, in an allocator whose list it is.
module _ (a : Allocator) (x : ℕ) where
  new_first :
      (before after : List ℕ)
      → a.first_free_block_idx ≡ hd (before ++ x ∷ after) invalid_idx
      → All (λ y. x ≢ y) before
      → (bypassed x a.mem x).next_free_block_idx ≡ hd after invalid_idx
      → (unlink_free_node x a).first_free_block_idx ≡ hd (before ++ after) invalid_idx
  new_first [] after h ne n = unlink-first-same x a h ∙ n
  new_first (y ∷ ys) after h ne n = unlink-first-other x a (λ q. ne.0 (sym q ∙ h)) ∙ h

  new_last :
      (before after : List ℕ)
      → a.last_free_block_idx ≡ lst invalid_idx (before ++ x ∷ after)
      → All (λ y. x ≢ y) after
      → (bypassed x a.mem x).prev_free_block_idx ≡ lst invalid_idx before
      → (unlink_free_node x a).last_free_block_idx ≡ lst invalid_idx (before ++ after)
  new_last before [] h ne p =
      unlink-last-same x a (h ∙ lst-append invalid_idx before (x ∷ []))
      ∙ p
      ∙ sym (lst-append invalid_idx before [])
  new_last before (y ∷ ys) h ne p =
      let h' : a.last_free_block_idx ≡ lst y ys = h ∙ lst-append invalid_idx before (x ∷ y ∷ ys) in
      let differ = differ_sym x (y ∷ ys) ne in
      unlink-last-other x a (λ q. lst-All (λ z. z ≢ x) y ys differ.0 differ.1 (sym h' ∙ q))
      ∙ h'
      ∙ sym (lst-append invalid_idx before (y ∷ ys))

-- `unlink_free_node` of any block of the free list leaves a free list of the other blocks in
-- their order.
pub unlink_free_node-IsFreeList :
    (a : Allocator) (before : List ℕ) (x : ℕ) (after : List ℕ)
    → IsFreeList a (before ++ x ∷ after)
    → IsFreeList (unlink_free_node x a) (before ++ after)
unfolding unlink_free_node unlinked
unlink_free_node-IsFreeList a before x after f =
    let r = around a.mem before x after f.chain in
    let s = apart before x after f.distinct f.valid in
    let (front, back, e) = bypassed-HasBoth a.mem before x after r s in
    record {
      first =
          new_first a x before after f.first s.front_other
            (ap (λ b. b.next_free_block_idx) e ∙ r.next);
      last =
          new_last a x before after f.last s.back_other
            (ap (λ b. b.prev_free_block_idx) e ∙ r.prev);
      chain =
          Chain-append (unlink_free_node x a).mem invalid_idx before after invalid_idx
            (Chain-frame x unlinked (bypassed x a.mem) invalid_idx before (hd after invalid_idx)
              s.front_other front)
            (Chain-frame x unlinked (bypassed x a.mem) (lst invalid_idx before) after invalid_idx
              s.back_other back);
      distinct = s.joined;
      valid = All-append (λ y. y ≢ invalid_idx) before after s.front_valid s.back_valid;
    }
