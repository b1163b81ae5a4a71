-- ===== src/Vector/Slots.antt =====
-- Slots of `Vector` that hold the elements of a list.
use corosig.Prelude.{
  ℕ, suc, ◌+◌, ◌≤◌, ◌<◌, ◌==◌, Bool-cases, ◌≡◌, refl, ap, ◌∙◌, ◌≢◌, ◌⊎◌, inl, inr, List, [], ◌∷◌,
  ◌++◌, length, arith, ==_iff, differ-==,
}
use mathlib.Core.Path.{subst}
use corosig.Vector.{Slot, holds, set_slot}

module _ {A : Type 0} where
  abbrev pub Slots : (ℕ → Slot A) → ℕ → List A → Type 0
  Slots f s [] = Unit {0}
  Slots f s (x ∷ xs) = (f s ≡ holds x) × Slots f (suc s) xs

above : (s i : ℕ) → s ≤ i → i ≢ s → suc s ≤ i
above s i l ne = ground arith

module _ {A : Type 0} where
  pub set_slot-same : (i : ℕ) (b : Slot A) (f : ℕ → Slot A) → set_slot i b f i ≡ b
  set_slot-same i b f = rw ((==_iff i i).1 refl)

  pub set_slot-other : (i j : ℕ) (b : Slot A) (f : ℕ → Slot A) → j ≢ i → set_slot i b f j ≡ f j
  set_slot-other i j b f h = rw (differ-== j i h)

  pub Slots-same :
      (f g : ℕ → Slot A) (s : ℕ) (xs : List A)
      → ((i : ℕ) → s ≤ i → i < s + length xs → g i ≡ f i)
      → Slots f s xs
      → Slots g s xs
  Slots-same f g s [] h t = tt
  Slots-same f g s (x ∷ xs) h (e, t) = (
    h s (omega arith) (omega arith) ∙ e,
    Slots-same f g (suc s) xs (λ i l r. h i (omega arith) (omega arith)) t,
  )

  pub Slots-set_slot :
      (i : ℕ) (b : Slot A) (f : ℕ → Slot A) (s : ℕ) (xs : List A)
      → ((i < s) ⊎ (s + length xs ≤ i))
      → Slots f s xs
      → Slots (set_slot i b f) s xs
  Slots-set_slot i b f s xs h t =
      Slots-same f (set_slot i b f) s xs (λ j l r. set_slot-other i j b f (λ e. ground arith)) t

  pub Slots-append :
      (f : ℕ → Slot A) (s : ℕ) (xs ys : List A)
      → Slots f s xs
      → Slots f (s + length xs) ys
      → Slots f s (xs ++ ys)
  Slots-append f s [] ys t u =
      let e : s + 0 ≡ s = omega arith in subst (λ (n : ℕ). Slots f n ys) e u
  Slots-append f s (x ∷ xs) ys (e, t) u =
      let q : s + suc (length xs) ≡ suc s + length xs = omega arith in
      (e, Slots-append f (suc s) xs ys t (subst (λ (n : ℕ). Slots f n ys) q u))

  pub Slots-split :
      (f : ℕ → Slot A) (s : ℕ) (xs ys : List A)
      → Slots f s (xs ++ ys)
      → Slots f s xs × Slots f (s + length xs) ys
  Slots-split f s [] ys t =
      let e : s ≡ s + 0 = omega arith in (tt, subst (λ (n : ℕ). Slots f n ys) e t)
  Slots-split f s (x ∷ xs) ys (e, t) =
      let q : suc s + length xs ≡ s + suc (length xs) = omega arith in
      let (l, r) = Slots-split f (suc s) xs ys t in ((e, l), subst (λ (n : ℕ). Slots f n ys) q r)

  pub Slots-holds :
      (f : ℕ → Slot A) (s : ℕ) (xs : List A) (i : ℕ)
      → Slots f s xs
      → s ≤ i
      → i < s + length xs
      → (a : A) × (f i ≡ holds a)
  Slots-holds f s [] i t l r = absurd (omega arith)
  Slots-holds f s (x ∷ xs) i (e, t) l r = elim (Bool-cases (i == s)) [
    | inl q ↦ (x, ap f ((==_iff i s).0 q) ∙ e)
    | inr q ↦
        let ne : i ≢ s = λ z. let w = (==_iff i s).1 z in cc in
        Slots-holds f (suc s) xs i t (above s i l ne) (omega arith)
  ]
