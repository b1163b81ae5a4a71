-- ===== src/Vector/Resizes.antt =====
-- `Vector::clear` and `Vector::resize` on a vector that holds a list.
use mathlib.Core.Path.{subst}
use corosig.Prelude.{ℕ, ◌-◌, ◌≡◌, ap, List, [], ◌++◌, length, take, replicate, Option, arith}
use corosig.Vector.{Vector, done, clear}
use corosig.Vector.Grows.{IsVector}
use corosig.Vector.Erases.{pop_times_lem}

module _ {A : Type 0} where
  -- What `resize` makes of a list.
  abbrev pub resized : ℕ → A → List A → List A
  resized count a xs = take count xs ++ replicate (count - length xs) a

module _ {A S : Type 0} (try_allocate : S → ℕ → Option S) (give_back : S → S) where
  -- `clear` of a vector that holds a list destroys all elements, and keeps the capacity.
  pub clear_lem :
      (v : Vector A S) (xs : List A)
      → IsVector v xs
      → (w : Vector A S) × (clear try_allocate give_back v ≡ done w)
        × IsVector w []
        × (w.capacity ≡ v.capacity)
  unfolding clear
  clear_lem v xs h =
      let size = h.size in
      let (w, q, i, c) = pop_times_lem try_allocate give_back v.size v xs h (omega arith) in
      let none_left : length xs - v.size ≡ 0 = omega arith in
      (w, q, subst (IsVector w) (ap (λ (n : ℕ). take n xs) none_left) i, c)
