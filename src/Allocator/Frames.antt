-- ===== src/Allocator/Frames.antt =====
-- What the operations on the free list of `Allocator` leave as it was in the headers.
use corosig.Prelude.{ℕ, ◌==◌, ◌≡◌, refl, ◌∙◌, inl, inr, Bool-cases}
use corosig.Allocator.{
  BlockMetadata, Memory, Allocator, at_block, invalid_idx, bypass_prev, bypass_next,
  unlink_free_node, set_prev, set_next, push_free_node, push_front, push_back, is_large,
}

-- The fields that describe a chunk.
pub record SameShape (b c : BlockMetadata) : Type 0 where
  pub before : b.blocks_before ≡ c.blocks_before
  pub is_used : b.is_used ≡ c.is_used
  pub owned : b.blocks_owned ≡ c.blocks_owned

pub SameShape-refl : (b : BlockMetadata) → SameShape b b
SameShape-refl b = record { before = refl; is_used = refl; owned = refl }

pub SameShape-trans : {b c d : BlockMetadata} → SameShape b c → SameShape c d → SameShape b d
SameShape-trans p q = record {
  before = p.before ∙ q.before;
  is_used = p.is_used ∙ q.is_used;
  owned = p.owned ∙ q.owned;
}

at_block-SameShape :
    (i : ℕ) (change : BlockMetadata → BlockMetadata) (mem : Memory) (j : ℕ)
    → ((b : BlockMetadata) → SameShape (change b) b)
    → SameShape (at_block i change mem j) (mem j)
unfolding at_block
at_block-SameShape i change mem j h = elim (Bool-cases (j == i)) [
  | inl e ↦ rw e (h (mem j))
  | inr e ↦ rw e (SameShape-refl (mem j))
]

set_prev-SameShape : (i v : ℕ) (mem : Memory) (j : ℕ) → SameShape (set_prev i v mem j) (mem j)
set_prev-SameShape i v mem j =
    at_block-SameShape i (λ b. record b { prev_free_block_idx = v }) mem j
      (λ b. record { before = refl; is_used = refl; owned = refl })

set_next-SameShape : (i v : ℕ) (mem : Memory) (j : ℕ) → SameShape (set_next i v mem j) (mem j)
set_next-SameShape i v mem j =
    at_block-SameShape i (λ b. record b { next_free_block_idx = v }) mem j
      (λ b. record { before = refl; is_used = refl; owned = refl })

bypass_prev-SameShape : (x : ℕ) (mem : Memory) (j : ℕ) → SameShape (bypass_prev x mem j) (mem j)
unfolding bypass_prev
bypass_prev-SameShape x mem j = elim (Bool-cases ((mem x).next_free_block_idx == invalid_idx)) [
  | inl e ↦ rw e (SameShape-refl (mem j))
  | inr e ↦ rw e (set_prev-SameShape (mem x).next_free_block_idx (mem x).prev_free_block_idx mem j)
]

bypass_next-SameShape : (x : ℕ) (mem : Memory) (j : ℕ) → SameShape (bypass_next x mem j) (mem j)
unfolding bypass_next
bypass_next-SameShape x mem j = elim (Bool-cases ((mem x).prev_free_block_idx == invalid_idx)) [
  | inl e ↦ rw e (SameShape-refl (mem j))
  | inr e ↦ rw e (set_next-SameShape (mem x).prev_free_block_idx (mem x).next_free_block_idx mem j)
]

pub unlink-SameShape :
    (x : ℕ) (a : Allocator) (j : ℕ) → SameShape ((unlink_free_node x a).mem j) (a.mem j)
unfolding unlink_free_node
unlink-SameShape x a j =
    let m = bypass_prev x a.mem in
    SameShape-trans
      (at_block-SameShape x
        (λ b. record b { prev_free_block_idx = invalid_idx; next_free_block_idx = invalid_idx })
        (bypass_next x m) j (λ b. record { before = refl; is_used = refl; owned = refl }))
      (SameShape-trans (bypass_next-SameShape x m j) (bypass_prev-SameShape x a.mem j))

push_front-SameShape :
    (x : ℕ) (a : Allocator) (j : ℕ) → SameShape ((push_front x a).mem j) (a.mem j)
unfolding push_front
push_front-SameShape x a j =
    let f = a.first_free_block_idx in
    SameShape-trans (set_next-SameShape x f (set_prev f x a.mem) j) (set_prev-SameShape f x a.mem j)

push_back-SameShape : (x : ℕ) (a : Allocator) (j : ℕ) → SameShape ((push_back x a).mem j) (a.mem j)
unfolding push_back
push_back-SameShape x a j =
    let l = a.last_free_block_idx in
    SameShape-trans (set_prev-SameShape x l (set_next l x a.mem) j) (set_next-SameShape l x a.mem j)

-- The three ways of `push_free_node`, for a property of the memory.
pub push-elim :
    (P : Memory → Type 0) (x : ℕ) (a : Allocator)
    → P a.mem
    → P (push_front x a).mem
    → P (push_back x a).mem
    → P (push_free_node x a).mem
unfolding push_free_node
push-elim P x a p q r = elim (Bool-cases (a.first_free_block_idx == invalid_idx)) [
  | inl e ↦ rw e p
  | inr e ↦ elim (Bool-cases (is_large x a)) [ inl l ↦ rw (e, l) q | inr l ↦ rw (e, l) r ]
]

pub push-SameShape :
    (x : ℕ) (a : Allocator) (j : ℕ) → SameShape ((push_free_node x a).mem j) (a.mem j)
push-SameShape x a j =
    push-elim (λ m. SameShape (m j) (a.mem j)) x a (SameShape-refl (a.mem j))
      (push_front-SameShape x a j) (push_back-SameShape x a j)
