-- ===== src/Vector/Grows.antt =====
-- `Vector::reserve` and `Vector::push_back` on a vector that holds a list.
use Prim.Native.Nat.{max}
use corosig.Prelude.{
  ℕ, zero, suc, ◌+◌, ◌*◌, ◌%◌, ◌^◌, ◌≤◌, ◌<◌, ◌==◌, leb, leb→le, Bool-cases, Option-cases, ◌≡◌,
  refl, sym, ap, ◌∙◌, ◌⊎◌, inl, inr, List, [], ◌∷◌, ◌++◌, length, length-append, Option, none, some,
  false, arith, ==_iff, differ-==,
}
use corosig.Vector.{
  Slot, Vector, Outcome, done, failed, holds, raw, set_slot, or_undefined, move_all, moved_to,
  reserve, construct_back, push_back,
}
use corosig.Vector.Slots.{
  Slots, Slots-same, Slots-set_slot, Slots-append, Slots-holds, set_slot-same,
}

pub record IsVector {A S : Type 0} (v : Vector A S) (xs : List A) : Type 0 where
  pub slots : Slots v.data_at 0 xs
  pub size : v.size ≡ length xs
  pub fits : v.size ≤ v.capacity

smaller : (i n : ℕ) → i < suc n → (i == n) ≡ false → i < n
smaller i n l e = ground arith

module _ {A S : Type 0} (try_allocate : S → ℕ → Option S) (give_back : S → S) where
  -- All objects are moved when there are objects in all slots.
  pub move_all_lem :
      (n : ℕ) (f : ℕ → Slot A)
      → ((i : ℕ) → i < n → (a : A) × (f i ≡ holds a))
      → (g : ℕ → Slot A) × (move_all try_allocate give_back n f ≡ some g)
        × ((i : ℕ) → i < n → g i ≡ f i)
  unfolding move_all
  move_all_lem zero f h = ((λ i. raw), refl, (λ i l. absurd (omega arith)))
  move_all_lem (suc n) f h =
      let (g, e, same) = move_all_lem n f (λ i l. h i (omega arith)) in
      let (a, q) = h n (omega arith) in
      (
        set_slot n (holds a) g,
        rw (e, q),
        λ i l. elim (Bool-cases (i == n)) [
          | inl z ↦ rw z (sym (ap f ((==_iff i n).0 z) ∙ q))
          | inr z ↦ rw z (same i (smaller i n l z))
        ],
      )

  -- A vector with memory for `count` elements, or the failure of the allocator.
  pub record IsReserved (count : ℕ) (v : Vector A S) (xs : List A) (outcome : Outcome A S)
      : Type 0 where
    pub result : Vector A S
    pub eq : outcome ≡ done result
    pub holds_same : IsVector result xs
    pub enough : count ≤ result.capacity
    pub larger : v.capacity ≤ result.capacity

  moved_to_lem :
      (count : ℕ) (alloc : S) (v : Vector A S) (xs : List A)
      → IsVector v xs
      → v.capacity ≤ count
      → IsReserved count v xs (or_undefined (moved_to try_allocate give_back count alloc v))
  unfolding moved_to
  moved_to_lem count alloc v xs h l =
      let size = h.size in
      let fits = h.fits in
      let (g, e, same) =
        move_all_lem v.size v.data_at
          (λ i r. Slots-holds v.data_at 0 xs i h.slots (omega arith) (omega arith)) in
      record {
        result = record v { data_at = g; capacity = count; alloc = give_back alloc };
        eq = rw e;
        holds_same = record {
          slots = Slots-same v.data_at g 0 xs (λ i a b. same i (omega arith)) h.slots;
          size = size;
          fits = omega arith;
        };
        enough = omega arith;
        larger = l;
      }

  -- `reserve` either gives a vector with the same elements and memory for `count` of them, or it
  -- fails, leaves the vector as it was, and the allocator had no memory.
  pub reserve_lem :
      (count : ℕ) (v : Vector A S) (xs : List A)
      → IsVector v xs
      → IsReserved count v xs (reserve try_allocate give_back count v)
        ⊎ ((reserve try_allocate give_back count v ≡ failed v)
            × (try_allocate v.alloc count ≡ none))
  unfolding reserve
  reserve_lem count v xs h = elim (Bool-cases (leb count v.capacity)) [
    | inl e ↦
        let l = leb→le count v.capacity e in
        inl (record { result = v; eq = rw e; holds_same = h; enough = l; larger = omega arith })
    | inr e ↦
        let l : v.capacity ≤ count = ground arith in
        elim (Option-cases (try_allocate v.alloc count)) [
          | inl n ↦ inr ((rw (e, n)), n)
          | inr (alloc, s) ↦ inl (rw (e, s) (moved_to_lem count alloc v xs h l))
        ]
  ]

  construct_back-IsVector :
      (a : A) (v : Vector A S) (xs : List A)
      → IsVector v xs
      → v.size < v.capacity
      → IsVector (construct_back try_allocate give_back a v) (xs ++ a ∷ [])
  unfolding construct_back
  construct_back-IsVector a v xs h l =
      let size = h.size in
      let at : 0 + length xs ≡ v.size = omega arith in
      record {
        slots =
            Slots-append (set_slot v.size (holds a) v.data_at) 0 xs (a ∷ [])
              (Slots-set_slot v.size (holds a) v.data_at 0 xs (inr (omega arith)) h.slots)
              (
                ap (set_slot v.size (holds a) v.data_at) at
                    ∙ set_slot-same v.size (holds a) v.data_at,
                tt,
              );
        size = omega (arith, length-append xs (a ∷ []));
        fits = l;
      }

  -- With room for one more element, `push_back` appends and keeps the capacity.
  pub push_back-room :
      (a : A) (v : Vector A S) (xs : List A)
      → IsVector v xs
      → v.size < v.capacity
      → (w : Vector A S) × (push_back try_allocate give_back a v ≡ done w)
        × IsVector w (xs ++ a ∷ [])
        × (w.capacity ≡ v.capacity)
  unfolding push_back construct_back
  push_back-room a v xs h l =
      let e = differ-== v.size v.capacity (λ q. omega arith) in
      (construct_back try_allocate give_back a v, rw e, construct_back-IsVector a v xs h l, refl)

  -- `push_back` on a vector that holds a list of fewer than 2^63 elements: it appends the element
  -- to the list, or it fails, leaves the vector as it was, and the vector was full and the
  -- allocator had no memory for twice as many elements, and at least 16.
  pub push_back_lem :
      (a : A) (v : Vector A S) (xs : List A)
      → v.size < 2 ^ 63
      → IsVector v xs
      → ((w : Vector A S) × (push_back try_allocate give_back a v ≡ done w)
          × IsVector w (xs ++ a ∷ []))
        ⊎ ((push_back try_allocate give_back a v ≡ failed v)
            × (v.size ≡ v.capacity)
            × (try_allocate v.alloc (max 16 (v.size * 2)) ≡ none))
  unfolding push_back
  push_back_lem a v xs bound h =
      let two : v.size * 2 % 2 ^ 64 ≡ v.size * 2 = omega arith in
      elim (Bool-cases (v.size == v.capacity)) [
        | inr e ↦
            let fits = h.fits in
            let room : v.size < v.capacity = ground arith in
            let (w, q, i, c) = push_back-room a v xs h room in inl (w, q, i)
        | inl e ↦ elim (reserve_lem (max 16 (v.size * 2)) v xs h) [
          | inr (f, n) ↦ inr (
            (rw (e, ap (λ (k : ℕ). reserve try_allocate give_back (max 16 k) v) two ∙ f)),
            (==_iff v.size v.capacity).0 e,
            n,
          )
          | inl r ↦
              let w = r.result in
              let size = h.size in
              let size' = r.holds_same.size in
              let enough = r.enough in
              let q = r.eq in
              inl (
                construct_back try_allocate give_back a w,
                rw (e, ap (λ (k : ℕ). reserve try_allocate give_back (max 16 k) v) two ∙ q),
                construct_back-IsVector a w xs r.holds_same (omega arith),
              )
        ]
      ]
