-- ===== src/Allocator/Bypass.antt =====
-- The first half of `Allocator::unlink_free_node`: the neighbours of a block in the free list.
use mathlib.Core.Path.{subst}
use corosig.Prelude.{
  ℕ, ◌≡◌, refl, sym, ap, ◌∙◌, ◌≢◌, List, [], ◌∷◌, ◌++◌, All, All-left, All-right, ==_iff, differ-==,
}
use corosig.Allocator.{
  BlockMetadata, Memory, invalid_idx, bypass_prev, bypass_next, set_prev, set_next,
}
use corosig.Allocator.Distinct.{
  hd, lst, lst-All, lst-Distinct, differ_sym, Distinct, Distinct-middle, Distinct-left,
}
use corosig.Allocator.Chain.{
  Chain, Chain-frame, Chain-split, set_prev-hd, set_next-lst, at_block-other,
}

-- The list around the block `x`, before it is unlinked.
pub record IsAround (mem : Memory) (before : List ℕ) (x : ℕ) (after : List ℕ) : Type 0 where
  pub prev : (mem x).prev_free_block_idx ≡ lst invalid_idx before
  pub next : (mem x).next_free_block_idx ≡ hd after invalid_idx
  pub front : Chain mem invalid_idx before x
  pub back : Chain mem x after invalid_idx

-- What a list says of its members and of the one in the middle.
pub record IsApart (before : List ℕ) (x : ℕ) (after : List ℕ) : Type 0 where
  pub front_other : All (λ y. x ≢ y) before
  pub back_other : All (λ y. x ≢ y) after
  pub joined : Distinct (before ++ after)
  pub front_valid : All (λ y. y ≢ invalid_idx) before
  pub back_valid : All (λ y. y ≢ invalid_idx) after

module _ (mem : Memory) (x : ℕ) where
  pub bypass_prev-linked :
      (y p : ℕ)
      → (mem x).next_free_block_idx ≡ y
      → (mem x).prev_free_block_idx ≡ p
      → y ≢ invalid_idx
      → bypass_prev x mem ≡ set_prev y p mem
  unfolding bypass_prev
  bypass_prev-linked y p n q v =
      let e = differ-== (mem x).next_free_block_idx invalid_idx (λ z. v (sym n ∙ z)) in
      let start : bypass_prev x mem
          ≡ set_prev (mem x).next_free_block_idx (mem x).prev_free_block_idx mem =
        rw e in
      start ∙ ap (λ u. set_prev u (mem x).prev_free_block_idx mem) n ∙ ap (λ u. set_prev y u mem) q

  pub bypass_next-linked :
      (y n : ℕ)
      → (mem x).prev_free_block_idx ≡ y
      → (mem x).next_free_block_idx ≡ n
      → y ≢ invalid_idx
      → bypass_next x mem ≡ set_next y n mem
  unfolding bypass_next
  bypass_next-linked y n p q v =
      let e = differ-== (mem x).prev_free_block_idx invalid_idx (λ z. v (sym p ∙ z)) in
      let start : bypass_next x mem
          ≡ set_next (mem x).prev_free_block_idx (mem x).next_free_block_idx mem =
        rw e in
      start ∙ ap (λ u. set_next u (mem x).next_free_block_idx mem) p ∙ ap (λ u. set_next y u mem) q

-- The chains on both sides of `x`, after the one behind it is linked with the one in front.
abbrev pub HasPrev : Memory → List ℕ → ℕ → List ℕ → Memory → Type 0
HasPrev mem before x after mem' =
    Chain mem' invalid_idx before x
    × Chain mem' (lst invalid_idx before) after invalid_idx
    × (mem' x ≡ mem x)

pub bypass_prev-chains :
    (mem : Memory) (before : List ℕ) (x : ℕ) (after : List ℕ)
    → IsAround mem before x after
    → IsApart before x after
    → HasPrev mem before x after (bypass_prev x mem)
unfolding bypass_prev
bypass_prev-chains mem before x [] r s =
    rw ((==_iff (mem x).next_free_block_idx invalid_idx).1 r.next) (r.front, tt, refl)
bypass_prev-chains mem before x (y ∷ ys) r s =
    let p = lst invalid_idx before in
    let change : BlockMetadata → BlockMetadata = λ b. record b { prev_free_block_idx = p } in
    let middle = Distinct-middle before y ys s.joined in
    let eq = bypass_prev-linked mem x y p r.next r.prev s.back_valid.0 in
    subst (HasPrev mem before x (y ∷ ys)) (sym eq) (
      Chain-frame y change mem invalid_idx before x (All-left (λ z. y ≢ z) before ys middle.0)
          r.front,
      set_prev-hd p mem x y ys invalid_idx (All-right (λ z. y ≢ z) before ys middle.0) r.back,
      at_block-other y x change mem (λ q. s.back_other.0 (sym q)),
    )

-- The chains after both links.
abbrev pub HasBoth : Memory → List ℕ → ℕ → List ℕ → Memory → Type 0
HasBoth mem before x after mem' =
    Chain mem' invalid_idx before (hd after invalid_idx)
    × Chain mem' (lst invalid_idx before) after invalid_idx
    × (mem' x ≡ mem x)

bypass_next-chains :
    (mem mem' : Memory) (before : List ℕ) (x : ℕ) (after : List ℕ)
    → IsAround mem before x after
    → IsApart before x after
    → HasPrev mem before x after mem'
    → HasBoth mem before x after (bypass_next x mem')
unfolding bypass_next
bypass_next-chains mem mem' [] x after r s (c, d, e) =
    let p = ap (λ b. b.prev_free_block_idx) e ∙ r.prev in
    rw ((==_iff (mem' x).prev_free_block_idx invalid_idx).1 p) (tt, d, e)
bypass_next-chains mem mem' (y ∷ ys) x after r s (c, d, e) =
    let z = lst y ys in
    let n = hd after invalid_idx in
    let change : BlockMetadata → BlockMetadata = λ b. record b { next_free_block_idx = n } in
    let differ = differ_sym x (y ∷ ys) s.front_other in
    let eq =
      bypass_next-linked mem' x z n (ap (λ b. b.prev_free_block_idx) e ∙ r.prev)
        (ap (λ b. b.next_free_block_idx) e ∙ r.next)
        (lst-All (λ w. w ≢ invalid_idx) y ys s.front_valid.0 s.front_valid.1) in
    subst (HasBoth mem (y ∷ ys) x after) (sym eq) (
      set_next-lst n mem' invalid_idx y ys x (Distinct-left (y ∷ ys) after s.joined) c,
      Chain-frame z change mem' z after invalid_idx (lst-Distinct y ys after s.joined) d,
      at_block-other z x change mem' (lst-All (λ w. w ≢ x) y ys differ.0 differ.1) ∙ e,
    )

pub around :
    (mem : Memory) (before : List ℕ) (x : ℕ) (after : List ℕ)
    → Chain mem invalid_idx (before ++ x ∷ after) invalid_idx
    → IsAround mem before x after
around mem before x after c =
    let (front, (p, n, back)) = Chain-split mem invalid_idx before (x ∷ after) invalid_idx c in
    record { prev = p; next = n; front = front; back = back }

pub apart :
    (before : List ℕ) (x : ℕ) (after : List ℕ)
    → Distinct (before ++ x ∷ after)
    → All (λ y. y ≢ invalid_idx) (before ++ x ∷ after)
    → IsApart before x after
apart before x after d v =
    let (ne, joined) = Distinct-middle before x after d in
    record {
      front_other = All-left (λ y. x ≢ y) before after ne;
      back_other = All-right (λ y. x ≢ y) before after ne;
      joined = joined;
      front_valid = All-left (λ y. y ≢ invalid_idx) before (x ∷ after) v;
      back_valid = (All-right (λ y. y ≢ invalid_idx) before (x ∷ after) v).1;
    }

-- The memory, and the header of the block, in front of the last two assignments.
abbrev pub bypassed : ℕ → Memory → Memory
bypassed x mem = bypass_next x (bypass_prev x mem)

pub bypassed-HasBoth :
    (mem : Memory) (before : List ℕ) (x : ℕ) (after : List ℕ)
    → IsAround mem before x after
    → IsApart before x after
    → HasBoth mem before x after (bypassed x mem)
bypassed-HasBoth mem before x after r s =
    bypass_next-chains mem (bypass_prev x mem) before x after r s
      (bypass_prev-chains mem before x after r s)
