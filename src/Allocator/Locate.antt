-- ===== src/Allocator/Locate.antt =====
-- The free chunk of `Allocator` that starts at a block.
use corosig.Prelude.{
  ℕ, ◌+◌, ◌==◌, ◌≡◌, refl, ap, ◌≢◌, ◌⊎◌, inl, inr, List, [], ◌∷◌, ◌++◌, true, false, Bool,
  Bool-cases, All, arith, ==_iff,
}
use mathlib.Core.List.{Perm}
use corosig.Allocator.Chunks.{Chunk, total, frees}
use corosig.Allocator.Members.{Perm-differ, not_all_differ}

pub record IsAt (x s : ℕ) (cs : List Chunk) : Type 0 where
  pub front : List Chunk
  pub size : ℕ
  pub back : List Chunk
  pub eq : cs ≡ front ++ (size, false) ∷ back
  pub start : x ≡ s + total front

behind : {x s k : ℕ} {cs : List Chunk} (u : Bool) → IsAt x (s + k) cs → IsAt x s ((k, u) ∷ cs)
behind {x} {s} {k} u h =
    let start = h.start in
    record {
      front = (k, u) ∷ h.front;
      size = h.size;
      back = h.back;
      eq = ap (◌∷◌ (k, u)) h.eq;
      start = omega arith;
    }

locate : (x s : ℕ) (cs : List Chunk) → IsAt x s cs ⊎ All (λ y. x ≢ y) (frees s cs)
locate x s [] = inr tt
locate x s ((k, true) ∷ cs) = elim (locate x (s + k) cs) [
  | inl h ↦ inl (behind true h)
  | inr h ↦ inr h
]
locate x s ((k, false) ∷ cs) = elim (Bool-cases (x == s)) [
  | inl e ↦
      let q = (==_iff x s).0 e in
      inl (record { front = []; size = k; back = cs; eq = refl; start = omega arith })
  | inr e ↦ elim (locate x (s + k) cs) [
    | inl h ↦ inl (behind false h)
    | inr h ↦ inr ((λ q. let t = (==_iff x s).1 q in cc), h)
  ]
]

-- A block of the free list starts a free chunk.
pub listed-IsAt :
    (x : ℕ) (cs : List Chunk) (before after : List ℕ)
    → Perm (before ++ x ∷ after) (frees 0 cs)
    → IsAt x 0 cs
listed-IsAt x cs before after p = elim (locate x 0 cs) [
  | inl h ↦ h
  | inr n ↦ absurd (not_all_differ x before after (Perm-differ x p n))
]
