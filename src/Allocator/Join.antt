-- ===== src/Allocator/Join.antt =====
-- What `Allocator::deallocate` does to the chunks: the one that is given back and the free ones
-- beside it become one.
use corosig.Prelude.{
  ℕ, ◌+◌, ◌≡◌, refl, ap, ◌⊎◌, inl, inr, List, [], ◌∷◌, ◌++◌, true, false, Bool, arith,
}
use corosig.Allocator.Chunks.{Chunk}
use corosig.Allocator.Sizes.{used_blocks}

-- A free chunk of `k` blocks in front of others.
unfoldable pub join_back : ℕ → List Chunk → List Chunk
join_back k [] = (k, false) ∷ []
join_back k ((j, true) ∷ cs) = (k, false) ∷ (j, true) ∷ cs
join_back k ((j, false) ∷ cs) = (k + j, false) ∷ cs

pub join_back-nil : (k : ℕ) → (k, false) ∷ [] ≡ join_back k []
unfolding join_back
join_back-nil k = refl

pub join_back-used :
    (k j : ℕ) (cs : List Chunk) → (k, false) ∷ (j, true) ∷ cs ≡ join_back k ((j, true) ∷ cs)
unfolding join_back
join_back-used k j cs = refl

pub join_back-free :
    (k j : ℕ) (cs : List Chunk) → (k + j, false) ∷ cs ≡ join_back k ((j, false) ∷ cs)
unfolding join_back
join_back-free k j cs = refl

unfoldable pub join : List Chunk → ℕ → List Chunk → List Chunk
unfolding join_back
join [] k back = join_back k back
join ((j, false) ∷ []) k back = join_back (j + k) back
join ((j, true) ∷ []) k back = (j, true) ∷ join_back k back
join (c ∷ c' ∷ cs) k back = c ∷ join (c' ∷ cs) k back

pub join-nil : (k : ℕ) (back : List Chunk) → join_back k back ≡ join [] k back
unfolding join
join-nil k back = refl

pub join-free :
    (front : List Chunk) (j k : ℕ) (back : List Chunk)
    → join (front ++ (j, false) ∷ []) k back ≡ front ++ join_back (j + k) back
unfolding join
join-free [] j k back = refl
join-free (c ∷ []) j k back = refl
join-free (c ∷ c' ∷ cs) j k back = ap (◌∷◌ c) (join-free (c' ∷ cs) j k back)

pub join-used :
    (front : List Chunk) (j k : ℕ) (back : List Chunk)
    → join (front ++ (j, true) ∷ []) k back ≡ (front ++ (j, true) ∷ []) ++ join_back k back
unfolding join
join-used [] j k back = refl
join-used (c ∷ []) j k back = refl
join-used (c ∷ c' ∷ cs) j k back = ap (◌∷◌ c) (join-used (c' ∷ cs) j k back)

used_blocks-join_back :
    (k : ℕ) (back : List Chunk) → used_blocks (join_back k back) ≡ used_blocks back
unfolding join_back
used_blocks-join_back k [] = refl
used_blocks-join_back k ((j, true) ∷ cs) = refl
used_blocks-join_back k ((j, false) ∷ cs) = refl

pub used_blocks-join :
    (front : List Chunk) (k : ℕ) (back : List Chunk)
    → used_blocks (join front k back) ≡ used_blocks front + used_blocks back
unfolding join
used_blocks-join [] k back = omega (arith, used_blocks-join_back k back)
used_blocks-join ((j, false) ∷ []) k back = omega (arith, used_blocks-join_back (j + k) back)
used_blocks-join ((j, true) ∷ []) k back = omega (arith, used_blocks-join_back k back)
used_blocks-join ((j, false) ∷ c ∷ cs) k back = used_blocks-join (c ∷ cs) k back
used_blocks-join ((j, true) ∷ c ∷ cs) k back = omega (arith, used_blocks-join (c ∷ cs) k back)

-- A list is empty or has a last element.
pub last_of :
    (cs : List Chunk)
    → (cs ≡ []) ⊎ ((front : List Chunk) × (k : ℕ) × (u : Bool) × (cs ≡ front ++ (k, u) ∷ []))
last_of [] = inl refl
last_of ((k, u) ∷ cs) = elim (last_of cs) [
  | inl e ↦ inr ([], k, u, ap (◌∷◌ (k, u)) e)
  | inr (front, j, v, e) ↦ inr ((k, u) ∷ front, j, v, ap (◌∷◌ (k, u)) e)
]

-- No two free chunks are neighbours.
abbrev pub IsCoalesced : List Chunk → Type 0
IsCoalesced [] = Unit {0}
IsCoalesced ((k, true) ∷ cs) = IsCoalesced cs
IsCoalesced ((k, false) ∷ []) = Unit {0}
IsCoalesced ((k, false) ∷ (j, true) ∷ cs) = IsCoalesced cs
IsCoalesced ((k, false) ∷ (j, false) ∷ cs) = ⊥

pub two_free : (k j : ℕ) (cs : List Chunk) → IsCoalesced ((k, false) ∷ (j, false) ∷ cs) → ⊥
two_free k j cs h = h

pub tail-IsCoalesced : (c : Chunk) (cs : List Chunk) → IsCoalesced (c ∷ cs) → IsCoalesced cs
tail-IsCoalesced (k, true) cs h = h
tail-IsCoalesced (k, false) [] h = tt
tail-IsCoalesced (k, false) ((j, true) ∷ cs) h = h
tail-IsCoalesced (k, false) ((j, false) ∷ cs) h = absurd h

pub right-IsCoalesced : (xs ys : List Chunk) → IsCoalesced (xs ++ ys) → IsCoalesced ys
right-IsCoalesced [] ys h = h
right-IsCoalesced (x ∷ xs) ys h = right-IsCoalesced xs ys (tail-IsCoalesced x (xs ++ ys) h)

join_back-IsCoalesced :
    (k j : ℕ) (back : List Chunk) → IsCoalesced ((j, true) ∷ back) → IsCoalesced (join_back k back)
unfolding join_back
join_back-IsCoalesced k j [] h = tt
join_back-IsCoalesced k j ((i, true) ∷ cs) h = h
join_back-IsCoalesced k j ((i, false) ∷ []) h = tt
join_back-IsCoalesced k j ((i, false) ∷ (n, true) ∷ cs) h = h
join_back-IsCoalesced k j ((i, false) ∷ (n, false) ∷ cs) h = h

-- A chunk that is given back leaves no two free neighbours.
pub join-IsCoalesced :
    (front : List Chunk) (k : ℕ) (back : List Chunk)
    → IsCoalesced (front ++ (k, true) ∷ back)
    → IsCoalesced (join front k back)
unfolding join
join-IsCoalesced [] k back h = join_back-IsCoalesced k k back h
join-IsCoalesced ((j, false) ∷ []) k back h = join_back-IsCoalesced (j + k) k back h
join-IsCoalesced ((j, true) ∷ []) k back h = join_back-IsCoalesced k k back h
join-IsCoalesced ((j, true) ∷ c ∷ cs) k back h = join-IsCoalesced (c ∷ cs) k back h
join-IsCoalesced ((j, false) ∷ (i, false) ∷ cs) k back h = absurd h
join-IsCoalesced ((j, false) ∷ (i, true) ∷ []) k back h = join_back-IsCoalesced k k back h
join-IsCoalesced ((j, false) ∷ (i, true) ∷ c ∷ cs) k back h = join-IsCoalesced (c ∷ cs) k back h
