-- ===== src/Vector/Copies.antt =====
-- `Vector::clone`, `Vector::assign` and `Vector::shrink_to_fit`, for elements whose copy has no error.
use mathlib.Core.Path.{subst}
use mathlib.Core.List.{append_assoc, append-nil}
use corosig.Prelude.{
  ℕ, zero, suc, ◌+◌, ◌≤◌, ◌>>=◌, ◌≡◌, refl, sym, ap, ◌∙◌, ◌⊎◌, inl, inr, List, [], ◌∷◌, ◌++◌,
  length, length-append, Option, none, some, arith,
}
use corosig.Vector.{
  Vector, Outcome, done, failed, undefined, raw, content, or_undefined, then_do, reserve, push_back,
  move_all, resize_uninitialized, clear,
}
use corosig.Vector.Slots.{Slots}
use corosig.Vector.Grows.{IsVector, reserve_lem, push_back-room}
use corosig.Vector.Resizes.{clear_lem}

module _ {A S : Type 0} (try_allocate : S → ℕ → Option S) (give_back : S → S) where
  pub empty_vector : S → Vector A S
  empty_vector alloc = record { data_at = λ i. raw; size = 0; capacity = 0; alloc = alloc }

  -- The elements of a range are appended to `v`.
  pub push_all : List A → Vector A S → Outcome A S
  push_all [] v = done v
  push_all (a ∷ xs) v = then_do (push_back try_allocate give_back a v) (push_all xs)

  push_content : Option A → Vector A S → Outcome A S
  push_content none v = undefined
  push_content (some a) v = push_back try_allocate give_back a v

  -- The elements of `v` from index `i` on are appended to `copies`.
  pub push_from : ℕ → ℕ → Vector A S → Vector A S → Outcome A S
  push_from i zero v copies = done copies
  push_from i (suc n) v copies =
      then_do (push_content (content (v.data_at i)) copies) (push_from (suc i) n v)

  -- `clone`, when the copy of an element has no error. A failure comes with the copies so far.
  pub clone : Vector A S → Outcome A S
  clone v =
      then_do (reserve try_allocate give_back v.size (empty_vector v.alloc)) (push_from 0 v.size v)

  -- The assignment `*this = std::move(new_this)`, or the end of a `new_this` that is incomplete.
  pub replace : Vector A S → Outcome A S → Outcome A S
  replace v (done w) =
      then_do (clear try_allocate give_back v) (λ c. done (record w { alloc = give_back w.alloc }))
  replace v (failed w) = failed (record v { alloc = give_back w.alloc })
  replace v undefined = undefined

  -- `assign` of a range whose size is known.
  pub assign : List A → Vector A S → Outcome A S
  assign values v = replace v (
      then_do (reserve try_allocate give_back (length values) (empty_vector v.alloc))
        (push_all values))

  -- The objects are moved into the vector that is new; `replace` then destroys what is left of them.
  pub moved_into : Vector A S → Vector A S → Option (Vector A S)
  moved_into v w =
      move_all try_allocate give_back v.size v.data_at >>= λ f. some (record w { data_at = f })

  -- `shrink_to_fit` moves the objects to memory for just as many.
  pub shrink_to_fit : Vector A S → Outcome A S
  shrink_to_fit v = replace v (
      then_do (resize_uninitialized try_allocate give_back v.size (empty_vector v.alloc))
        (λ w. or_undefined (moved_into v w)))

  empty-IsVector : (alloc : S) → IsVector (empty_vector alloc) []
  unfolding empty_vector
  empty-IsVector alloc = record { slots = tt; size = refl; fits = omega arith }

  -- With room for all, the elements of a list are appended.
  push_all_lem :
      (values : List A) (v : Vector A S) (xs : List A)
      → IsVector v xs
      → v.size + length values ≤ v.capacity
      → (w : Vector A S) × (push_all values v ≡ done w) × IsVector w (xs ++ values)
  unfolding push_all
  push_all_lem [] v xs h l = (v, refl, subst (IsVector v) (sym (append-nil xs)) h)
  push_all_lem (a ∷ values) v xs h l =
      let (w, q, i, c) = push_back-room try_allocate give_back a v xs h (omega arith) in
      let size = h.size in
      let size' = i.size in
      let (u, q', i') =
        push_all_lem values w (xs ++ a ∷ []) i (omega (arith, c, length-append xs (a ∷ []))) in
      (u, rw q q', subst (IsVector u) (append_assoc xs (a ∷ []) values) i')

  push_from_lem :
      (values : List A) (i : ℕ) (v copies : Vector A S) (xs : List A)
      → Slots v.data_at i values
      → IsVector copies xs
      → copies.size + length values ≤ copies.capacity
      → (w : Vector A S) × (push_from i (length values) v copies ≡ done w)
        × IsVector w (xs ++ values)
  unfolding push_from push_content
  push_from_lem [] i v copies xs t h l =
      (copies, refl, subst (IsVector copies) (sym (append-nil xs)) h)
  push_from_lem (a ∷ values) i v copies xs (e, t) h l =
      let (w, q, j, c) = push_back-room try_allocate give_back a copies xs h (omega arith) in
      let size = h.size in
      let size' = j.size in
      let (u, q', j') =
        push_from_lem values (suc i) v w (xs ++ a ∷ []) t j
          (omega (arith, c, length-append xs (a ∷ []))) in
      (u, rw (e, q) q', subst (IsVector u) (append_assoc xs (a ∷ []) values) j')

  -- `clone` of a vector that holds a list: a vector that holds the same list, unless the allocator
  -- has no memory for as many elements.
  pub clone_lem :
      (v : Vector A S) (xs : List A)
      → IsVector v xs
      → ((w : Vector A S) × (clone v ≡ done w) × IsVector w xs)
        ⊎ ((clone v ≡ failed (empty_vector v.alloc)) × (try_allocate v.alloc v.size ≡ none))
  unfolding clone empty_vector
  clone_lem v xs h =
      let e = empty_vector v.alloc in
      elim (reserve_lem try_allocate give_back v.size e [] (empty-IsVector v.alloc)) [
        | inr (f, n) ↦ inr (rw f, n)
        | inl r ↦
            let u = r.result in
            let q = r.eq in
            let size = h.size in
            let none_yet = r.holds_same.size in
            let enough = r.enough in
            let (w, q', i) = push_from_lem xs 0 v u [] h.slots r.holds_same (omega arith) in
            inl (w, rw q (ap (λ (n : ℕ). push_from 0 n v u) size ∙ q'), i)
      ]

  replace_lem :
      (v w : Vector A S) (xs ys : List A)
      → IsVector v xs
      → IsVector w ys
      → (u : Vector A S) × (replace v (done w) ≡ done u) × IsVector u ys
  unfolding replace
  replace_lem v w xs ys h i =
      let (c, q, j, k) = clear_lem try_allocate give_back v xs h in
      (
        record w { alloc = give_back w.alloc },
        rw q,
        record { slots = i.slots; size = i.size; fits = i.fits },
      )

  -- `assign` of a range to a vector that holds a list: it holds the range, or it fails and holds
  -- the list as before, and the allocator had no memory for the range.
  pub assign_lem :
      (values : List A) (v : Vector A S) (xs : List A)
      → IsVector v xs
      → ((w : Vector A S) × (assign values v ≡ done w) × IsVector w values)
        ⊎ ((w : Vector A S) × (assign values v ≡ failed w)
            × IsVector w xs
            × (try_allocate v.alloc (length values) ≡ none))
  unfolding assign replace empty_vector
  assign_lem values v xs h =
      let e = empty_vector v.alloc in
      elim (reserve_lem try_allocate give_back (length values) e [] (empty-IsVector v.alloc)) [
        | inr (f, n) ↦ inr (
          record v { alloc = give_back e.alloc },
          rw f,
          record { slots = h.slots; size = h.size; fits = h.fits },
          n,
        )
        | inl r ↦
            let u = r.result in
            let q = r.eq in
            let none_yet = r.holds_same.size in
            let enough = r.enough in
            let (w, q', i) = push_all_lem values u [] r.holds_same (omega arith) in
            let (z, q'', j) = replace_lem v w xs values h i in inl (z, rw (q, q') q'', j)
      ]
