-- ===== src/Vector/Inserts.antt =====
-- `Vector::insert` on a vector that holds a list.
use Prim.Native.Nat.{max}
use mathlib.Core.Path.{subst}
use corosig.Prelude.{
  ℕ, zero, suc, ◌+◌, ◌-◌, ◌*◌, ◌%◌, ◌^◌, ◌≤◌, ◌<◌, ◌==◌, ltb, Bool-cases, ◌≡◌, refl, sym, ap, ◌∙◌,
  ◌≢◌, ◌⊎◌, inl, inr, List, [], ◌∷◌, ◌++◌, length, length-append, Option, some, false, arith,
  ==_iff, differ-==,
}
use corosig.Vector.{
  Slot, Vector, Outcome, done, failed, undefined, holds, raw, set_slot, then_do,
  resize_uninitialized, move_up, fill, insert, insert_moved,
}
use corosig.Vector.Slots.{
  Slots, Slots-same, Slots-append, Slots-split, Slots-holds, set_slot-same, set_slot-other,
}
use corosig.Vector.Grows.{IsVector, reserve_lem}

below : (j n : ℕ) → j < suc n → (j == n) ≡ false → j < n
below j n l e = ground arith

-- Either the list with the values in it, or a failure that leaves the list.
abbrev pub IsInserted : {A S : Type 0} → Outcome A S → List A → List A → List A → Type 0
IsInserted (done w) xs values zs = IsVector w (xs ++ (values ++ zs))
IsInserted (failed w) xs values zs = IsVector w (xs ++ zs)
IsInserted undefined xs values zs = ⊥

module _ {A S : Type 0} (try_allocate : S → ℕ → Option S) (give_back : S → S) where
  -- The objects come to stand `n` slots higher, and the slots outside stay.
  move_up_lem :
      (from n count : ℕ) (f : ℕ → Slot A)
      → 0 < n
      → ((j : ℕ) → j < count → (a : A) × (f (from + j) ≡ holds a))
      → (g : ℕ → Slot A) × (move_up try_allocate give_back from n count f ≡ some g)
        × ((j : ℕ) → j < count → g (from + j + n) ≡ f (from + j))
        × ((i : ℕ) → (i < from) ⊎ (from + count + n ≤ i) → g i ≡ f i)
  unfolding move_up
  move_up_lem from n zero f p h = (f, refl, (λ j l. absurd (omega arith)), (λ i l. refl))
  move_up_lem from n (suc count) f p h =
      let (a, e) = h count (omega arith) in
      let f1 = set_slot (from + count + n) (holds a) f in
      let f2 = set_slot (from + count) raw f1 in
      let kept : (i : ℕ) → i ≢ from + count → i ≢ from + count + n → f2 i ≡ f i = λ i q q'.
        set_slot-other (from + count) i raw f1 q
        ∙ set_slot-other (from + count + n) i (holds a) f q' in
      let low : (j : ℕ) → j < count → f2 (from + j) ≡ f (from + j) =
        λ j l. kept (from + j) (λ z. omega arith) (λ z. omega arith) in
      let (g, q, up, same) =
        move_up_lem from n count f2 p
          (λ j l. let (b, e') = h j (omega arith) in (b, low j l ∙ e')) in
      let top : g (from + count + n) ≡ f (from + count) =
        same (from + count + n) (inr (omega arith))
        ∙ set_slot-other (from + count) (from + count + n) raw f1 (λ z. omega arith)
        ∙ set_slot-same (from + count + n) (holds a) f
        ∙ sym e in
      (
        g,
        rw e q,
        λ j l. elim (Bool-cases (j == count)) [
          | inl z ↦
              let z' = (==_iff j count).0 z in
              subst (λ (k : ℕ). g (from + k + n) ≡ f (from + k)) (sym z') top
          | inr z ↦ let l' = below j count l z in up j l' ∙ low j l'
        ],
        λ i l. same i (ground arith) ∙ kept i (λ z. ground arith) (λ z. ground arith),
      )

  fill_lem :
      (xs : List A) (at : ℕ) (f : ℕ → Slot A)
      → Slots (fill try_allocate give_back at xs f) at xs
        × ((i : ℕ) → (i < at) ⊎ (at + length xs ≤ i) → fill try_allocate give_back at xs f i ≡ f i)
  unfolding fill
  fill_lem [] at f = (tt, λ i l. refl)
  fill_lem (x ∷ xs) at f =
      let f' = set_slot at (holds x) f in
      let (slots, same) = fill_lem xs (suc at) f' in
      (
        (same at (inl (omega arith)) ∙ set_slot-same at (holds x) f, slots),
        λ i l. same i (ground arith) ∙ set_slot-other at i (holds x) f (λ z. ground arith),
      )

  -- Slots that are moved up hold the same list.
  shifted :
      (f g : ℕ → Slot A) (from n : ℕ) (xs : List A)
      → ((j : ℕ) → j < length xs → g (from + j + n) ≡ f (from + j))
      → Slots f from xs
      → Slots g (from + n) xs
  shifted f g from n [] h t = tt
  shifted f g from n (x ∷ xs) h (e, t) =
      let z : from + 0 ≡ from = omega arith in
      let up : suc from + n ≡ suc (from + n) = omega arith in
      let first : g (from + n) ≡ f from =
        subst (λ (k : ℕ). g (k + n) ≡ f k) z (h 0 (omega arith)) in
      (
        first ∙ e,
        subst (λ (k : ℕ). Slots g k xs) up
            (shifted f g (suc from) n xs
              (λ j l.
                let w : from + suc j ≡ suc from + j = omega arith in
                subst (λ (k : ℕ). g (k + n) ≡ f k) w (h (suc j) (omega arith)))
              t),
      )

  -- The vector has its new size, and the elements are still in the first slots.
  record IsWidened (v : Vector A S) (xs : List A) (n : ℕ) (w : Vector A S) : Type 0 where
    slots : Slots w.data_at 0 xs
    size : w.size ≡ length xs + n
    fits : w.size ≤ w.capacity

  insert_steps :
      (at : ℕ) (values : List A) (old count : ℕ) (w : Vector A S) (g : ℕ → Slot A)
      → (at + length values == 0) ≡ false
      → old - at ≡ count
      → move_up try_allocate give_back at (length values) count w.data_at ≡ some g
      → insert_moved try_allocate give_back at values old w
        ≡ done (record w { data_at = fill try_allocate give_back at values g })
  unfolding insert_moved
  insert_steps at values old count w g a b e = rw (a, b, e)

  insert_moved_lem :
      (v w : Vector A S) (xs values zs : List A)
      → 0 < length values
      → IsWidened v (xs ++ zs) (length values) w
      → (u : Vector A S) × (insert_moved try_allocate give_back
            (length xs)
            values
            (length (xs ++ zs))
            w
          ≡ done u)
        × IsVector u (xs ++ (values ++ zs))
  insert_moved_lem v w xs values zs p h =
      let at = length xs in
      let n = length values in
      let size = h.size in
      let fits = h.fits in
      let (front, back) = Slots-split w.data_at 0 xs zs h.slots in
      let start : 0 + at ≡ at = omega arith in
      let back' = subst (λ (k : ℕ). Slots w.data_at k zs) start back in
      let behind : length (xs ++ zs) - at ≡ length zs = omega (arith, length-append xs zs) in
      let (g, e, up, same) =
        move_up_lem at n (length zs) w.data_at p
          (λ j l. Slots-holds w.data_at at zs (at + j) back' (omega arith) (omega arith)) in
      let (middle, kept) = fill_lem values at g in
      let f = fill try_allocate give_back at values g in
      let some_values = differ-== (at + n) 0 (λ q. omega arith) in
      let front' =
        Slots-same w.data_at f 0 xs
          (λ i a b. kept i (inl (omega arith)) ∙ same i (inl (omega arith))) front in
      let back'' =
        Slots-same g f (at + n) zs (λ i a b. kept i (inr a))
          (shifted w.data_at g at n zs up back') in
      (
        record w { data_at = f },
        insert_steps at values (length (xs ++ zs)) (length zs) w g some_values behind e,
        record {
          slots = Slots-append f 0 xs (values ++ zs) front' (
              subst (λ (k : ℕ). Slots f k (values ++ zs)) (sym start)
                (Slots-append f at values zs middle back''));
          size = omega (
            arith,
            length-append xs zs,
            length-append xs (values ++ zs),
            length-append values zs,
          );
          fits = fits;
        },
      )

  -- Room is made, or the allocator has no memory.
  widen_lem :
      (u : Vector A S) (xs : List A) (n : ℕ)
      → 0 < n
      → u.size + n < 2 ^ 64
      → IsVector u xs
      → ((w : Vector A S) × (resize_uninitialized try_allocate give_back ((u.size + n) % 2 ^ 64) u
            ≡ done w)
          × IsWidened u xs n w)
        ⊎ (resize_uninitialized try_allocate give_back ((u.size + n) % 2 ^ 64) u ≡ failed u)
  unfolding resize_uninitialized
  widen_lem u xs n p bound h =
      let sum : (u.size + n) % 2 ^ 64 ≡ u.size + n = omega arith in
      let differ = differ-== (u.size + n) u.size (λ q. omega arith) in
      let more : ltb (u.size + n) u.size ≡ false = ground arith in
      elim (reserve_lem try_allocate give_back (u.size + n) u xs h) [
        | inr (f, e) ↦ inr (
            ap (λ (k : ℕ). resize_uninitialized try_allocate give_back k u) sum
            ∙ rw (differ, more, f) refl)
        | inl r ↦
            let w = r.result in
            let e = r.eq in
            let size = h.size in
            inl (
              record w { size = u.size + n },
              ap (λ (k : ℕ). resize_uninitialized try_allocate give_back k u) sum
                  ∙ rw (differ, more, e) refl,
              record { slots = r.holds_same.slots; size = omega arith; fits = r.enough },
            )
      ]

  -- The steps of `insert` behind its first call of `reserve`.
  insert_rest : ℕ → List A → Vector A S → Outcome A S
  unfolding resize_uninitialized insert_moved
  insert_rest at values u =
      then_do (resize_uninitialized try_allocate give_back ((u.size + length values) % 2 ^ 64) u)
        (insert_moved try_allocate give_back at values u.size)

  insert_rest_lem :
      (u : Vector A S) (xs values zs : List A)
      → 0 < length values
      → u.size + length values < 2 ^ 64
      → IsVector u (xs ++ zs)
      → IsInserted (insert_rest (length xs) values u) xs values zs
  unfolding insert_rest
  insert_rest_lem u xs values zs p bound h =
      let size = h.size in
      elim (widen_lem u (xs ++ zs) (length values) p bound h) [
        | inr f ↦ rw f h
        | inl (w, e, i) ↦ let (r, q, j) = insert_moved_lem u w xs values zs p i in rw (e, size, q) j
      ]

  -- `insert` of a range that is not empty, in front of any element of a vector that holds a list,
  -- or at its end, when the new size is below 2^64: either the values come to stand there, or the
  -- insertion fails and the vector holds the same list as before. It is never undefined.
  pub insert_lem :
      (v : Vector A S) (xs values zs : List A)
      → 0 < length values
      → v.size + length values < 2 ^ 64
      → IsVector v (xs ++ zs)
      → IsInserted (insert try_allocate give_back (length xs) values v) xs values zs
  unfolding insert insert_rest
  insert_lem v xs values zs p bound h =
      let size = h.size in
      elim (Bool-cases (ltb ((v.size + length values) % 2 ^ 64) v.capacity)) [
        | inr e ↦ rw e (insert_rest_lem v xs values zs p bound h)
        | inl e ↦
            elim (reserve_lem try_allocate give_back (max 16 (v.size * 2 % 2 ^ 64)) v (xs ++ zs)
              h) [
                | inr (f, n) ↦ rw (e, f) h
                | inl r ↦
                    let q = r.eq in
                    let size' = r.holds_same.size in
                    rw (e, q) (insert_rest_lem r.result xs values zs p (omega arith) r.holds_same)
              ]
      ]
