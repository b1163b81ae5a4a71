-- ===== src/Allocator/FirstFit.antt =====
-- The loop of `Allocator::allocate` over the free list.
use corosig.Prelude.{
  ℕ, zero, suc, ◌≤◌, ◌<◌, ltb, not, if◌then◌else◌, ◌≡◌, refl, sym, ap, ◌∙◌, inl, inr, List, [], ◌∷◌,
  ◌++◌, ◌⊎◌, true, false, Bool, Bool-cases, All, length, arith, lt→ltb, ltb→ge, ltb→lt,
}
use corosig.Allocator.{Allocator, invalid_idx, blocks_amount}
use corosig.Allocator.Allocating.{blocks_needed, Search, found, exhausted, diverge, search_free}
use corosig.Allocator.Distinct.{hd}
use corosig.Allocator.Chain.{Chain}

-- The test of the loop: the chunk has enough blocks.
unfoldable pub is_fitting : ℕ → ℕ → Allocator → ℕ → Bool
is_fitting size alignment a idx =
    not (ltb (a.mem idx).blocks_owned (blocks_needed idx size alignment a))

-- The first chunk of a list that passes the test.
pub first_fit : (ℕ → Bool) → List ℕ → Search
first_fit fits [] = exhausted
first_fit fits (x ∷ xs) = if fits x then found x else first_fit fits xs

index : Search → ℕ
index (found x) = x
index exhausted = 0
index diverge = 0

was_found : Search → Bool
was_found (found x) = true
was_found exhausted = false
was_found diverge = false

differ : {x : ℕ} → exhausted ≡ found x → ⊥
unfolding was_found
differ h = let e : false ≡ true = ap was_found h in cc

-- With any fuel, the loop runs out of it or does the same.
pub search-cases :
    (fuel start size alignment : ℕ) (a : Allocator) (list : List ℕ)
    → blocks_amount a ≤ invalid_idx
    → Chain a.mem start list invalid_idx
    → All (λ x. x < blocks_amount a) list
    → (search_free fuel (hd list invalid_idx) size alignment a ≡ diverge)
      ⊎ (search_free fuel (hd list invalid_idx) size alignment a
          ≡ first_fit (is_fitting size alignment a) list)
unfolding search_free first_fit is_fitting
search-cases zero start size alignment a list small c v = inl refl
search-cases (suc fuel) start size alignment a [] small c v =
    let e : ltb invalid_idx (blocks_amount a) ≡ false = ground arith in inr (rw e)
search-cases (suc fuel) start size alignment a (x ∷ xs) small (p, n, c) (i, v) =
    let inside = lt→ltb x (blocks_amount a) i in
    let rest = search-cases fuel x size alignment a xs small c v in
    let step = ap (λ (k : ℕ). search_free fuel k size alignment a) n in
    elim (Bool-cases (ltb (a.mem x).blocks_owned (blocks_needed x size alignment a))) [
      | inl e ↦ rw (inside, e) (elim rest [ inl d ↦ inl (step ∙ d) | inr d ↦ inr (step ∙ d) ])
      | inr e ↦ inr (rw (inside, e))
    ]

-- On headers that are linked from the first to the last, all inside the memory, and with more
-- rounds than there are headers, the loop of `allocate` ends, and finds the first chunk in the
-- order of the list with as many blocks as are needed, or none when there is no such chunk.
pub search-first_fit :
    (fuel start size alignment : ℕ) (a : Allocator) (list : List ℕ)
    → blocks_amount a ≤ invalid_idx
    → Chain a.mem start list invalid_idx
    → All (λ x. x < blocks_amount a) list
    → length list < fuel
    → search_free fuel (hd list invalid_idx) size alignment a
      ≡ first_fit (is_fitting size alignment a) list
unfolding search_free first_fit is_fitting
search-first_fit zero start size alignment a list small c v l = absurd (omega arith)
search-first_fit (suc fuel) start size alignment a [] small c v l =
    let e : ltb invalid_idx (blocks_amount a) ≡ false = ground arith in rw e
search-first_fit (suc fuel) start size alignment a (x ∷ xs) small (p, n, c) (i, v) l =
    let inside = lt→ltb x (blocks_amount a) i in
    let rest = search-first_fit fuel x size alignment a xs small c v (omega arith) in
    let step = ap (λ (k : ℕ). search_free fuel k size alignment a) n in
    elim (Bool-cases (ltb (a.mem x).blocks_owned (blocks_needed x size alignment a))) [
      | inl e ↦ rw (inside, e) (step ∙ rest)
      | inr e ↦ rw (inside, e)
    ]

-- What is found is in the list and passes the test.
pub first_fit-found :
    (fits : ℕ → Bool) (list : List ℕ) (x : ℕ)
    → first_fit fits list ≡ found x
    → (fits x ≡ true) × (before : List ℕ) × (after : List ℕ) × (list ≡ before ++ x ∷ after)
unfolding first_fit index
first_fit-found fits [] x h = absurd (differ h)
first_fit-found fits (y ∷ ys) x h = elim (Bool-cases (fits y)) [
  | inl e ↦
      let h' : found y ≡ found x = rw e at h in
      let q : y ≡ x = ap index h' in (ap fits (sym q) ∙ e, [], ys, ap (λ (z : ℕ). z ∷ ys) q)
  | inr e ↦
      let h' : first_fit fits ys ≡ found x = rw e at h in
      let (t, before, after, q) = first_fit-found fits ys x h' in
      (t, y ∷ before, after, ap (◌∷◌ y) q)
]

-- Otherwise no chunk of the list passes the test.
pub first_fit-exhausted :
    (fits : ℕ → Bool) (list : List ℕ)
    → first_fit fits list ≡ exhausted
    → All (λ x. fits x ≡ false) list
unfolding first_fit
first_fit-exhausted fits [] h = tt
first_fit-exhausted fits (y ∷ ys) h = elim (Bool-cases (fits y)) [
  | inl e ↦ let h' : found y ≡ exhausted = rw e at h in absurd (differ (sym h'))
  | inr e ↦ (e, first_fit-exhausted fits ys (rw e at h))
]

pub first_fit-cases :
    (fits : ℕ → Bool) (list : List ℕ)
    → ((x : ℕ) × (first_fit fits list ≡ found x)) ⊎ (first_fit fits list ≡ exhausted)
unfolding first_fit
first_fit-cases fits [] = inr refl
first_fit-cases fits (y ∷ ys) = elim (Bool-cases (fits y)) [
  | inl e ↦ inl (y, rw e)
  | inr e ↦ rw e (first_fit-cases fits ys)
]

pub is_fitting-true :
    (size alignment : ℕ) (a : Allocator) (x : ℕ)
    → is_fitting size alignment a x ≡ true
    → blocks_needed x size alignment a ≤ (a.mem x).blocks_owned
unfolding is_fitting
is_fitting-true size alignment a x h =
    elim (Bool-cases (ltb (a.mem x).blocks_owned (blocks_needed x size alignment a))) [
      | inl e ↦ let h' = rw e at h in absurd cc
      | inr e ↦ ltb→ge (a.mem x).blocks_owned (blocks_needed x size alignment a) e
    ]

pub is_fitting-false :
    (size alignment : ℕ) (a : Allocator) (x : ℕ)
    → is_fitting size alignment a x ≡ false
    → (a.mem x).blocks_owned < blocks_needed x size alignment a
unfolding is_fitting
is_fitting-false size alignment a x h =
    elim (Bool-cases (ltb (a.mem x).blocks_owned (blocks_needed x size alignment a))) [
      | inl e ↦ ltb→lt (a.mem x).blocks_owned (blocks_needed x size alignment a) e
      | inr e ↦ let h' = rw e at h in absurd cc
    ]
