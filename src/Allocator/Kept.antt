-- ===== src/Allocator/Kept.antt =====
-- What the operations on the sizes of chunks leave of the free list of `Allocator`, and those on
-- the free list of its other fields.
use mathlib.Core.Path.{subst}
use corosig.Prelude.{
  ℕ, ◌+◌, ◌-◌, ◌^◌, ◌<◌, ◌==◌, ltb, ◌%◌, ◌≡◌, refl, sym, ap, ◌∙◌, inl, inr, List, [], ◌∷◌, false,
  Bool-cases, ==_iff, ◌/◌,
}
use corosig.Allocator.{
  BlockMetadata, Memory, Allocator, at_block, on_block, invalid_idx, blocks_amount,
  set_blocks_owned, unlink_free_node, push_free_node, push_front, push_back, is_large,
  default_initialize, new_chunk, sub,
}
use corosig.Allocator.Allocating.{split_front, split_back}
use corosig.Allocator.Releasing.{merge_into, merge_front, merge_back, release}
use corosig.Allocator.Chain.{Chain}
use corosig.Allocator.FreeList.{IsFreeList, IsUnlinked}
use corosig.Allocator.Owned.{with_owned, with_before, owned-elim}

pub record SameLinks (b c : BlockMetadata) : Type 0 where
  pub prev : b.prev_free_block_idx ≡ c.prev_free_block_idx
  pub next : b.next_free_block_idx ≡ c.next_free_block_idx

pub SameLinks-refl : (b : BlockMetadata) → SameLinks b b
SameLinks-refl b = record { prev = refl; next = refl }

pub SameLinks-trans : {b c d : BlockMetadata} → SameLinks b c → SameLinks c d → SameLinks b d
SameLinks-trans p q = record { prev = p.prev ∙ q.prev; next = p.next ∙ q.next }

pub IsUnlinked-same : {b c : BlockMetadata} → SameLinks b c → IsUnlinked c → IsUnlinked b
IsUnlinked-same s (p, n) = (s.prev ∙ p, s.next ∙ n)

Chain-same :
    (mem mem' : Memory) (start : ℕ) (xs : List ℕ) (end : ℕ)
    → ((j : ℕ) → SameLinks (mem' j) (mem j))
    → Chain mem start xs end
    → Chain mem' start xs end
Chain-same mem mem' start [] end s c = tt
Chain-same mem mem' start (x ∷ xs) end s (p, n, c) =
    ((s x).prev ∙ p, (s x).next ∙ n, Chain-same mem mem' x xs end s c)

-- With the links of all headers, the free list stays.
pub mem-IsFreeList :
    (a : Allocator) (mem : Memory) (list : List ℕ)
    → ((j : ℕ) → SameLinks (mem j) (a.mem j))
    → IsFreeList a list
    → IsFreeList (record a { mem = mem }) list
mem-IsFreeList a mem list s f = record {
  first = f.first;
  last = f.last;
  chain = Chain-same a.mem mem invalid_idx list invalid_idx s f.chain;
  distinct = f.distinct;
  valid = f.valid;
}

pub at_block-SameLinks :
    (i : ℕ) (change : BlockMetadata → BlockMetadata) (mem : Memory) (j : ℕ)
    → SameLinks (change (mem i)) (mem i)
    → SameLinks (at_block i change mem j) (mem j)
unfolding at_block
at_block-SameLinks i change mem j h = elim (Bool-cases (j == i)) [
  | inl e ↦ rw e (subst (λ (k : ℕ). SameLinks (change (mem k)) (mem k)) (sym ((==_iff j i).0 e)) h)
  | inr e ↦ rw e (SameLinks-refl (mem j))
]

module _ (i v : ℕ) (a : Allocator) (small : v < 2 ^ 31) where
  owned_links : (j : ℕ) → SameLinks (at_block i (with_owned v) a.mem j) (a.mem j)
  owned_links j = at_block-SameLinks i (with_owned v) a.mem j (record { prev = refl; next = refl })

  before_links :
      (j : ℕ)
      → SameLinks (at_block (i + v) (with_before v) (at_block i (with_owned v) a.mem) j) (a.mem j)
  before_links j =
      SameLinks-trans
        (at_block-SameLinks (i + v) (with_before v) (at_block i (with_owned v) a.mem) j
          (record { prev = refl; next = refl }))
        (owned_links j)

  pub owned-SameLinks : (j : ℕ) → SameLinks ((set_blocks_owned i v a).mem j) (a.mem j)
  owned-SameLinks j =
      owned-elim i v a small (λ b. SameLinks (b.mem j) (a.mem j)) (owned_links j) (before_links j)

  pub owned-IsFreeList :
      (list : List ℕ) → IsFreeList a list → IsFreeList (set_blocks_owned i v a) list
  owned-IsFreeList list f =
      owned-elim i v a small (λ b. IsFreeList b list)
        (mem-IsFreeList a (at_block i (with_owned v) a.mem) list owned_links f)
        (mem-IsFreeList a (at_block (i + v) (with_before v) (at_block i (with_owned v) a.mem)) list
          before_links f)

-- The fields that only `allocate` and `deallocate` themselves change.
pub record SameRest (a b : Allocator) : Type 0 where
  pub address : a.address ≡ b.address
  pub size : a.size ≡ b.size
  pub used : a.used ≡ b.used
  pub peak : a.peak ≡ b.peak

pub SameRest-trans : {a b c : Allocator} → SameRest a b → SameRest b c → SameRest a c
SameRest-trans p q = record {
  address = p.address ∙ q.address;
  size = p.size ∙ q.size;
  used = p.used ∙ q.used;
  peak = p.peak ∙ q.peak;
}

pub SameRest-blocks : {a b : Allocator} → SameRest a b → blocks_amount a ≡ blocks_amount b
unfolding blocks_amount
SameRest-blocks s = ap (λ (n : ℕ). n / 16) s.size

pub rest_refl : (a : Allocator) → SameRest a a
rest_refl a = record { address = refl; size = refl; used = refl; peak = refl }

pub owned-SameRest : (i v : ℕ) (a : Allocator) → SameRest (set_blocks_owned i v a) a
unfolding set_blocks_owned on_block
owned-SameRest i v a = elim (Bool-cases (ltb (i + v % 2 ^ 32) (blocks_amount a))) [
  | inl e ↦ rw e (record { address = refl; size = refl; used = refl; peak = refl })
  | inr e ↦ rw e (record { address = refl; size = refl; used = refl; peak = refl })
]

pub on_block-SameRest :
    (i : ℕ) (change : BlockMetadata → BlockMetadata) (a : Allocator)
    → SameRest (on_block i change a) a
unfolding on_block
on_block-SameRest i change a = record { address = refl; size = refl; used = refl; peak = refl }

pub unlink-SameRest : (x : ℕ) (a : Allocator) → SameRest (unlink_free_node x a) a
unfolding unlink_free_node
unlink-SameRest x a = record { address = refl; size = refl; used = refl; peak = refl }

pub push-SameRest : (x : ℕ) (a : Allocator) → SameRest (push_free_node x a) a
unfolding push_free_node push_front push_back
push-SameRest x a = elim (Bool-cases (a.first_free_block_idx == invalid_idx)) [
  | inl e ↦ rw e (record { address = refl; size = refl; used = refl; peak = refl })
  | inr e ↦ elim (Bool-cases (is_large x a)) [
    | inl l ↦ rw (e, l) (record { address = refl; size = refl; used = refl; peak = refl })
    | inr l ↦ rw (e, l) (record { address = refl; size = refl; used = refl; peak = refl })
  ]
]

pub new_chunk-SameRest : (i v : ℕ) (a : Allocator) → SameRest (new_chunk i v a) a
unfolding new_chunk
new_chunk-SameRest i v a =
    SameRest-trans (owned-SameRest i v (on_block i default_initialize a))
      (on_block-SameRest i default_initialize a)

pub split_front-SameRest : (i n : ℕ) (a : Allocator) → SameRest (split_front i n a) a
unfolding split_front
split_front-SameRest i n a =
    let a1 = set_blocks_owned i n a in
    let a2 = unlink_free_node i a1 in
    SameRest-trans (new_chunk-SameRest (i + n) (sub (a.mem i).blocks_owned n) (push_free_node i a2))
      (SameRest-trans (push-SameRest i a2)
        (SameRest-trans (unlink-SameRest i a1) (owned-SameRest i n a)))

pub split_back-SameRest : (i n k : ℕ) (a : Allocator) → SameRest (split_back i n k a) a
unfolding split_back new_chunk
split_back-SameRest i n k a = elim (Bool-cases (ltb n k)) [
  | inl e ↦ rw e (
      SameRest-trans (push-SameRest (i + n) (new_chunk (i + n) (k - n) a))
        (new_chunk-SameRest (i + n) (k - n) a))
  | inr e ↦ rw e (rest_refl a)
]

pub merge_into-SameRest : (p i : ℕ) (a : Allocator) → SameRest (merge_into p i a).1 a
unfolding merge_into
merge_into-SameRest p i a = elim (Bool-cases (a.mem p).is_used) [
  | inl e ↦ rw e (rest_refl a)
  | inr e ↦
      let v = (a.mem p).blocks_owned + (a.mem i).blocks_owned in
      rw e (SameRest-trans (unlink-SameRest p (set_blocks_owned p v a)) (owned-SameRest p v a))
]

pub merge_front-SameRest : (i : ℕ) (a : Allocator) → SameRest (merge_front i a).1 a
unfolding merge_front
merge_front-SameRest i a = elim (Bool-cases ((a.mem i).blocks_before == 0)) [
  | inl e ↦ rw e (rest_refl a)
  | inr e ↦ rw e (merge_into-SameRest (sub i (a.mem i).blocks_before) i a)
]

pub merge_back-SameRest : (i : ℕ) (a : Allocator) → SameRest (merge_back i a) a
unfolding merge_back
merge_back-SameRest i a =
    let next = i + (a.mem i).blocks_owned in
    elim (Bool-cases (ltb next (blocks_amount a))) [
      | inr l ↦ rw l (rest_refl a)
      | inl l ↦ elim (Bool-cases (a.mem next).is_used) [
        | inl u ↦ rw (l, u) (rest_refl a)
        | inr u ↦
            let v = (a.mem i).blocks_owned + (a.mem next).blocks_owned in
            rw (l, u)
              (SameRest-trans (unlink-SameRest next (set_blocks_owned i v a))
                (owned-SameRest i v a))
      ]
    ]

pub release-SameRest : (i : ℕ) (a : Allocator) → SameRest (release i a) a
unfolding release
release-SameRest i a =
    let b = on_block i (λ m. record m { is_used = false }) a in
    SameRest-trans (push-SameRest i (unlink_free_node i b)) (
      SameRest-trans (unlink-SameRest i b)
        (on_block-SameRest i (λ m. record m { is_used = false }) a))
