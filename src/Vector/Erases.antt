-- ===== src/Vector/Erases.antt =====
-- `Vector::pop_back`, `Vector::resize` and `Vector::erase` on a vector that holds a list.
use mathlib.Core.Path.{subst}
use corosig.Prelude.{
  ℕ, zero, suc, ◌+◌, ◌-◌, ◌≤◌, ◌<◌, ◌≡◌, refl, sym, ap, ◌∙◌, ◌⊎◌, inl, inr, List, [], ◌∷◌, ◌++◌,
  length, length-append, take, differ-==, Option, some, arith,
}
use corosig.Vector.{
  Slot, Vector, done, holds, raw, moved, set_slot, pop_back, popped, pop_times, destroy, move_down,
  erase,
}
use corosig.Vector.Slots.{
  Slots, Slots-same, Slots-set_slot, Slots-append, Slots-split, set_slot-same, set_slot-other,
}
use corosig.Vector.Grows.{IsVector}

module _ {A : Type 0} where
  take_all : (xs : List A) (n : ℕ) → n ≡ length xs → take n xs ≡ xs
  take_all [] zero e = refl
  take_all [] (suc n) e = absurd (omega arith)
  take_all (x ∷ xs) zero e = absurd (omega arith)
  take_all (x ∷ xs) (suc n) e = ap (◌∷◌ x) (take_all xs n (omega arith))

  take_shorter :
      (ys : List A) (x : A) (n m : ℕ) → n ≡ m → m ≤ length ys → take n (ys ++ x ∷ []) ≡ take m ys
  take_shorter ys x n zero e l = ap (λ (k : ℕ). take k (ys ++ x ∷ [])) e
  take_shorter [] x n (suc m) e l = absurd (omega arith)
  take_shorter (y ∷ ys) x n (suc m) e l =
      ap (λ (k : ℕ). take k (y ∷ ys ++ x ∷ [])) e
      ∙ ap (◌∷◌ y) (take_shorter ys x m m refl (omega arith))

  last_of : (xs : List A) → 0 < length xs → (ys : List A) × (x : A) × (xs ≡ ys ++ x ∷ [])
  last_of [] l = absurd (omega arith)
  last_of (x ∷ []) l = ([], x, refl)
  last_of (x ∷ y ∷ ys) l =
      let (zs, z, e) = last_of (y ∷ ys) (omega arith) in (x ∷ zs, z, ap (◌∷◌ x) e)

module _ {A S : Type 0} (try_allocate : S → ℕ → Option S) (give_back : S → S) where
  -- The elements are destroyed one after another.
  destroy_lem :
      (xs : List A) (first : ℕ) (f : ℕ → Slot A)
      → Slots f first xs
      → (g : ℕ → Slot A) × (destroy try_allocate give_back first (length xs) f ≡ some g)
        × ((i : ℕ) → (i < first) ⊎ (first + length xs ≤ i) → g i ≡ f i)
  unfolding destroy
  destroy_lem [] first f t = (f, refl, λ i h. refl)
  destroy_lem (x ∷ xs) first f (e, t) =
      let f' = set_slot first raw f in
      let (g, q, same) =
        destroy_lem xs (suc first) f'
          (Slots-set_slot first raw f (suc first) xs (inl (omega arith)) t) in
      (
        g,
        rw (e, q),
        λ i h. same i (ground arith) ∙ set_slot-other first i raw f (λ z. ground arith),
      )

  -- Elements are moved to lower places; what is in front of these stays.
  move_down_lem :
      (xs : List A) (to from : ℕ) (f : ℕ → Slot A)
      → to < from
      → Slots f from xs
      → (g : ℕ → Slot A) × (move_down try_allocate give_back to from (length xs) f ≡ some g)
        × Slots g to xs
        × ((i : ℕ) → i < to → g i ≡ f i)
  unfolding move_down
  move_down_lem [] to from f l t = (f, refl, tt, λ i h. refl)
  move_down_lem (x ∷ xs) to from f l (e, t) =
      let f1 = set_slot from moved f in
      let f2 = set_slot to (holds x) f1 in
      let t1 = Slots-set_slot from moved f (suc from) xs (inl (omega arith)) t in
      let t2 = Slots-set_slot to (holds x) f1 (suc from) xs (inl (omega arith)) t1 in
      let differ = differ-== to from (λ z. omega arith) in
      let (g, q, slots, same) = move_down_lem xs (suc to) (suc from) f2 (omega arith) t2 in
      (
        g,
        rw (differ, e, q),
        (same to (omega arith) ∙ set_slot-same to (holds x) f1, slots),
        λ i h.
            same i (omega arith)
            ∙ set_slot-other to i (holds x) f1 (λ z. omega arith)
            ∙ set_slot-other from i moved f (λ z. omega arith),
      )

  popped_lem :
      (v : Vector A S) (n : ℕ) (x : A)
      → v.data_at n ≡ holds x
      → popped try_allocate give_back (suc n) v
        ≡ done (record v { data_at = set_slot n raw v.data_at; size = n })
  unfolding popped
  popped_lem v n x e = rw e

  pop_back_lem :
      (v : Vector A S) (xs : List A) (x : A)
      → IsVector v (xs ++ x ∷ [])
      → (w : Vector A S) × (pop_back try_allocate give_back v ≡ done w)
        × IsVector w xs
        × (w.capacity ≡ v.capacity)
  unfolding pop_back
  pop_back_lem v xs x h =
      let size = h.size in
      let fits = h.fits in
      let n = length xs in
      let (front, (last, t)) = Slots-split v.data_at 0 xs (x ∷ []) h.slots in
      let z : 0 + n ≡ n = omega arith in
      let holds_x : v.data_at n ≡ holds x = ap v.data_at (sym z) ∙ last in
      let some_size : v.size ≡ suc n = omega (arith, length-append xs (x ∷ [])) in
      (
        record v { data_at = set_slot n raw v.data_at; size = n },
        ap (λ (k : ℕ). popped try_allocate give_back k v) some_size ∙ popped_lem v n x holds_x,
        record {
          slots = Slots-set_slot n raw v.data_at 0 xs (inr (omega arith)) front;
          size = refl;
          fits = omega arith;
        },
        refl,
      )

  erase_steps :
      (v : Vector A S) (first last n m : ℕ) (f g : ℕ → Slot A)
      → last - first ≡ n
      → v.size - last ≡ m
      → destroy try_allocate give_back first n v.data_at ≡ some f
      → move_down try_allocate give_back first last m f ≡ some g
      → erase try_allocate give_back first last v
        ≡ done (record v { data_at = g; size = v.size - n })
  unfolding erase
  erase_steps v first last n m f g a b e q = rw (a, b, e, q)

  -- As many elements as there are behind the first ones are taken away.
  pub pop_times_lem :
      (n : ℕ) (v : Vector A S) (xs : List A)
      → IsVector v xs
      → n ≤ length xs
      → (w : Vector A S) × (pop_times try_allocate give_back n v ≡ done w)
        × IsVector w (take (length xs - n) xs)
        × (w.capacity ≡ v.capacity)
  unfolding pop_times
  pop_times_lem zero v xs h l =
      (v, refl, subst (IsVector v) (sym (take_all xs (length xs - 0) (omega arith))) h, refl)
  pop_times_lem (suc n) v xs h l =
      let (ys, x, e) = last_of xs (omega arith) in
      let counted : length xs ≡ length ys + 1 = ap length e ∙ length-append ys (x ∷ []) in
      let (w, q, i, c) = pop_back_lem v ys x (subst (IsVector v) e h) in
      let (u, q', i', c') = pop_times_lem n w ys i (omega arith) in
      let rest : take (length xs - suc n) xs ≡ take (length ys - n) ys =
        ap (take (length xs - suc n)) e
        ∙ take_shorter ys x (length xs - suc n) (length ys - n) (omega arith) (omega arith) in
      (u, rw q q', subst (IsVector u) (sym rest) i', c' ∙ c)

  -- `erase` of the elements from one index up to a later one, in a vector that holds a list: the
  -- rest of the list is what it holds then, and the capacity is as it was.
  pub erase_lem :
      (v : Vector A S) (xs ys zs : List A)
      → 0 < length ys
      → IsVector v (xs ++ (ys ++ zs))
      → (w : Vector A S) × (erase try_allocate give_back (length xs) (length xs + length ys) v
          ≡ done w)
        × IsVector w (xs ++ zs)
        × (w.capacity ≡ v.capacity)
  erase_lem v xs ys zs some_erased h =
      let first = length xs in
      let last = length xs + length ys in
      let size = h.size in
      let fits = h.fits in
      let (front, rest) = Slots-split v.data_at 0 xs (ys ++ zs) h.slots in
      let (middle, back) = Slots-split v.data_at (0 + first) ys zs rest in
      let z : 0 + first ≡ first = omega arith in
      let z' : 0 + first + length ys ≡ last = omega arith in
      let count : last - first ≡ length ys = omega arith in
      let behind : v.size - last ≡ length zs =
        omega (arith, length-append xs (ys ++ zs), length-append ys zs) in
      let (f, e, same) =
        destroy_lem ys first v.data_at (subst (λ (n : ℕ). Slots v.data_at n ys) z middle) in
      let front' = Slots-same v.data_at f 0 xs (λ i a b. same i (inl (omega arith))) front in
      let back' =
        Slots-same v.data_at f last zs (λ i a b. same i (inr a))
          (subst (λ (n : ℕ). Slots v.data_at n zs) z' back) in
      let (g, q, moved_slots, kept) = move_down_lem zs first last f (omega arith) back' in
      (
        record v { data_at = g; size = v.size - length ys },
        erase_steps v first last (length ys) (length zs) f g count behind e q,
        record {
          slots =
              Slots-append g 0 xs zs (Slots-same f g 0 xs (λ i a b. kept i (omega arith)) front')
                (subst (λ (n : ℕ). Slots g n zs) (sym z) moved_slots);
          size =
              omega (arith, length-append xs (ys ++ zs), length-append ys zs, length-append xs zs);
          fits = omega arith;
        },
        refl,
      )
