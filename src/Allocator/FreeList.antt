-- ===== src/Allocator/FreeList.antt =====
-- The free list of `Allocator`: the blocks that the headers' links lead through, from
-- `m_first_free_block_idx` to `m_last_free_block_idx`.
use mathlib.Core.Path.{subst}
use corosig.Prelude.{
  ℕ, ◌==◌, ◌≡◌, refl, sym, ap, ◌∙◌, differ-==, subst_two, ◌≢◌, inl, inr, List, [], ◌∷◌, ◌++◌, true,
  false, Bool, All, All-append, ==_iff, Bool-cases,
}
use corosig.Allocator.{
  BlockMetadata, Memory, Allocator, invalid_idx, push_free_node, push_front, push_back, is_large,
  set_prev, set_next,
}
use corosig.Allocator.Distinct.{hd, lst, lst-All, lst-append, differ_sym, Distinct, Distinct-snoc}
use corosig.Allocator.Chain.{
  Chain, Chain-frame, Chain-append, set_prev-hd, set_next-lst, at_block-other, at_block-same,
}

pub record IsFreeList (a : Allocator) (list : List ℕ) : Type 0 where
  pub first : a.first_free_block_idx ≡ hd list invalid_idx
  pub last : a.last_free_block_idx ≡ lst invalid_idx list
  pub chain : Chain a.mem invalid_idx list invalid_idx
  pub distinct : Distinct list
  pub valid : All (λ x. x ≢ invalid_idx) list

abbrev pub IsUnlinked : BlockMetadata → Type 0
IsUnlinked b = (b.prev_free_block_idx ≡ invalid_idx) × (b.next_free_block_idx ≡ invalid_idx)

-- The place of a freed chunk: in front if it is large.
abbrev pub pushed : Bool → ℕ → List ℕ → List ℕ
pushed true idx list = idx ∷ list
pushed false idx list = list ++ idx ∷ []

-- A hypothesis-free choice between the two ends of an empty list.
pub pushed-nil : (large : Bool) (idx : ℕ) → pushed large idx [] ≡ idx ∷ []
pushed-nil true idx = refl
pushed-nil false idx = refl

push_only : ℕ → Allocator → Allocator
push_only idx a = record a { first_free_block_idx = idx; last_free_block_idx = idx }

push_only-IsFreeList :
    (idx : ℕ) (a : Allocator)
    → IsUnlinked (a.mem idx)
    → idx ≢ invalid_idx
    → IsFreeList (push_only idx a) (idx ∷ [])
unfolding push_only
push_only-IsFreeList idx a (p, n) v = record {
  first = refl;
  last = refl;
  chain = (p, n, tt);
  distinct = (tt, tt);
  valid = (v, tt);
}

front-Chain :
    (mem : Memory) (idx x : ℕ) (xs : List ℕ)
    → Chain mem invalid_idx (x ∷ xs) invalid_idx
    → IsUnlinked (mem idx)
    → All (λ y. idx ≢ y) (x ∷ xs)
    → Distinct (x ∷ xs)
    → Chain (set_next idx x (set_prev x idx mem)) invalid_idx (idx ∷ x ∷ xs) invalid_idx
front-Chain mem idx x xs c (p, n) ne d =
    let mem' = set_prev x idx mem in
    let same = at_block-same idx (λ b. record b { next_free_block_idx = x }) mem' in
    let kept =
      at_block-other x idx (λ b. record b { prev_free_block_idx = idx }) mem (λ q. ne.0 (sym q)) in
    (
      ap (λ b. b.prev_free_block_idx) same ∙ ap (λ b. b.prev_free_block_idx) kept ∙ p,
      ap (λ b. b.next_free_block_idx) same,
      Chain-frame idx (λ b. record b { next_free_block_idx = x }) mem' idx (x ∷ xs) invalid_idx ne
          (set_prev-hd idx mem invalid_idx x xs invalid_idx d.0 c),
    )

push_front-IsFreeList :
    (idx : ℕ) (a : Allocator) (x : ℕ) (xs : List ℕ)
    → IsFreeList a (x ∷ xs)
    → IsUnlinked (a.mem idx)
    → All (λ y. idx ≢ y) (x ∷ xs)
    → idx ≢ invalid_idx
    → IsFreeList (push_front idx a) (idx ∷ x ∷ xs)
unfolding push_front
push_front-IsFreeList idx a x xs f u ne v = record {
  first = refl;
  last = f.last;
  chain =
      subst
        (λ y. Chain (set_next idx y (set_prev y idx a.mem)) invalid_idx (idx ∷ x ∷ xs) invalid_idx)
        (sym f.first) (front-Chain a.mem idx x xs f.chain u ne f.distinct);
  distinct = (ne, f.distinct);
  valid = (v, f.valid);
}

back-Chain :
    (mem : Memory) (idx x : ℕ) (xs : List ℕ)
    → Chain mem invalid_idx (x ∷ xs) invalid_idx
    → IsUnlinked (mem idx)
    → All (λ y. idx ≢ y) (x ∷ xs)
    → Distinct (x ∷ xs)
    → Chain
        (set_prev idx (lst x xs) (set_next (lst x xs) idx mem))
        invalid_idx
        ((x ∷ xs) ++ idx ∷ [])
        invalid_idx
back-Chain mem idx x xs c (p, n) ne d =
    let z = lst x xs in
    let mem' = set_next z idx mem in
    let change : BlockMetadata → BlockMetadata = λ b. record b { prev_free_block_idx = z } in
    let same = at_block-same idx change mem' in
    let differ = differ_sym idx (x ∷ xs) ne in
    let kept =
      at_block-other z idx (λ b. record b { next_free_block_idx = idx }) mem
        (lst-All (λ y. y ≢ idx) x xs differ.0 differ.1) in
    Chain-append (set_prev idx z mem') invalid_idx (x ∷ xs) (idx ∷ []) invalid_idx
      (Chain-frame idx change mem' invalid_idx (x ∷ xs) idx ne
        (set_next-lst idx mem invalid_idx x xs invalid_idx d c))
      (
        ap (λ b. b.prev_free_block_idx) same,
        ap (λ b. b.next_free_block_idx) same ∙ ap (λ b. b.next_free_block_idx) kept ∙ n,
        tt,
      )

push_back-IsFreeList :
    (idx : ℕ) (a : Allocator) (x : ℕ) (xs : List ℕ)
    → IsFreeList a (x ∷ xs)
    → IsUnlinked (a.mem idx)
    → All (λ y. idx ≢ y) (x ∷ xs)
    → idx ≢ invalid_idx
    → IsFreeList (push_back idx a) ((x ∷ xs) ++ idx ∷ [])
unfolding push_back
push_back-IsFreeList idx a x xs f u ne v = record {
  first = f.first;
  last = sym (lst-append invalid_idx (x ∷ xs) (idx ∷ []));
  chain =
      subst
        (λ y.
          Chain (set_prev idx y (set_next y idx a.mem)) invalid_idx ((x ∷ xs) ++ idx ∷ [])
            invalid_idx)
        (sym f.last) (back-Chain a.mem idx x xs f.chain u ne f.distinct);
  distinct = Distinct-snoc (x ∷ xs) idx f.distinct ne;
  valid = All-append (λ y. y ≢ invalid_idx) (x ∷ xs) (idx ∷ []) f.valid (v, tt);
}

push-only :
    (idx : ℕ) (a : Allocator)
    → (a.first_free_block_idx == invalid_idx) ≡ true
    → push_free_node idx a ≡ push_only idx a
unfolding push_free_node push_only
push-only idx a h = rw h

push-front :
    (idx : ℕ) (a : Allocator)
    → (a.first_free_block_idx == invalid_idx) ≡ false
    → is_large idx a ≡ true
    → push_free_node idx a ≡ push_front idx a
unfolding push_free_node
push-front idx a h l = rw (h, l)

push-back :
    (idx : ℕ) (a : Allocator)
    → (a.first_free_block_idx == invalid_idx) ≡ false
    → is_large idx a ≡ false
    → push_free_node idx a ≡ push_back idx a
unfolding push_free_node
push-back idx a h l = rw (h, l)

pub push_free_node-IsFreeList :
    (idx : ℕ) (a : Allocator) (list : List ℕ)
    → IsFreeList a list
    → IsUnlinked (a.mem idx)
    → All (λ y. idx ≢ y) list
    → idx ≢ invalid_idx
    → IsFreeList (push_free_node idx a) (pushed (is_large idx a) idx list)
push_free_node-IsFreeList idx a [] f u ne v =
    subst_two IsFreeList
      (sym (push-only idx a ((==_iff a.first_free_block_idx invalid_idx).1 f.first)))
      (sym (pushed-nil (is_large idx a) idx)) (push_only-IsFreeList idx a u v)
push_free_node-IsFreeList idx a (x ∷ xs) f u ne v =
    let h : (a.first_free_block_idx == invalid_idx) ≡ false =
      differ-== a.first_free_block_idx invalid_idx (λ q. f.valid.0 (sym f.first ∙ q)) in
    elim (Bool-cases (is_large idx a)) [
      | inl e ↦
          subst_two IsFreeList (sym (push-front idx a h e))
            (ap (λ b. pushed b idx (x ∷ xs)) (sym e)) (push_front-IsFreeList idx a x xs f u ne v)
      | inr e ↦
          subst_two IsFreeList (sym (push-back idx a h e)) (ap (λ b. pushed b idx (x ∷ xs)) (sym e))
            (push_back-IsFreeList idx a x xs f u ne v)
    ]
