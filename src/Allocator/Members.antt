-- ===== src/Allocator/Members.antt =====
-- Lists of block numbers that are permutations of one another.
use mathlib.Core.Path.{subst}
use mathlib.Core.Logic.Or
use mathlib.Core.List.{
  Mem, Perm, mem-cons, not-mem-nil, mem-cons_self, mem-cons_of_mem, perm_middle, append-nil,
}
use mathlib.Core.HLevel.{¬_prop}
use mathlib.Core.List.Perm
use corosig.Prelude.{
  ℕ, ◌==◌, ◌≡◌, refl, sym, ap, ◌≢◌, ◌⊎◌, inl, inr, List, [], ◌∷◌, ◌++◌, true, false, Bool,
  Bool-cases, All, ==_iff,
}
use corosig.Allocator.FreeList.{pushed}

All-Mem :
    (P : ℕ → Type 0) (p : (a : ℕ) → IsProp (P a)) {a : ℕ} (xs : List ℕ) → All P xs → Mem a xs → P a
All-Mem P p [] h m = absurd (not-mem-nil m)
All-Mem P p {a} (x ∷ xs) h m =
    Or.elim (p a) (mem-cons.0 m) (λ e. subst P (sym e) h.0) (All-Mem P p xs h.1)

Mem-All : (P : ℕ → Type 0) (xs : List ℕ) → ((a : ℕ) → Mem a xs → P a) → All P xs
Mem-All P [] h = tt
Mem-All P (x ∷ xs) h = (h x mem-cons_self, Mem-All P xs (λ a m. h a (mem-cons_of_mem x m)))

pub Perm-All :
    (P : ℕ → Type 0) (p : (a : ℕ) → IsProp (P a)) {xs ys : List ℕ}
    → Perm xs ys
    → All P ys
    → All P xs
Perm-All P p {xs} {ys} h all = Mem-All P xs (λ a m. All-Mem P p ys all (Perm.subset h a m))

pub Perm-differ : (x : ℕ) {xs ys : List ℕ} → Perm xs ys → All (λ y. x ≢ y) ys → All (λ y. x ≢ y) xs
Perm-differ x = Perm-All (λ y. x ≢ y) (λ y. ¬_prop)

pub record Split (x : ℕ) (xs : List ℕ) : Type 0 where
  pub before : List ℕ
  pub after : List ℕ
  pub eq : xs ≡ before ++ x ∷ after

search-Split : (x : ℕ) (xs : List ℕ) → Split x xs ⊎ All (λ y. x ≢ y) xs
search-Split x [] = inr tt
search-Split x (y ∷ ys) = elim (Bool-cases (x == y)) [
  | inl e ↦
      inl (record { before = []; after = ys; eq = ap (λ (z : ℕ). z ∷ ys) (sym ((==_iff x y).0 e)) })
  | inr e ↦ elim (search-Split x ys) [
    | inl s ↦ inl (record { before = y ∷ s.before; after = s.after; eq = ap (◌∷◌ y) s.eq })
    | inr n ↦ inr ((λ q. let t = (==_iff x y).1 q in cc), n)
  ]
]

pub not_all_differ : (x : ℕ) (xs ys : List ℕ) → All (λ y. x ≢ y) (xs ++ x ∷ ys) → ⊥
not_all_differ x [] ys (h, t) = h refl
not_all_differ x (z ∷ xs) ys (h, t) = not_all_differ x xs ys t

pub Perm-Split : (x : ℕ) (xs ys zs : List ℕ) → Perm xs (ys ++ x ∷ zs) → Split x xs
Perm-Split x xs ys zs p = elim (search-Split x xs) [
  | inl s ↦ s
  | inr n ↦ absurd (not_all_differ x ys zs (Perm-differ x (Perm.symm p) n))
]

pub Perm-remove :
    (x : ℕ) (before after ys zs : List ℕ)
    → Perm (before ++ x ∷ after) (ys ++ x ∷ zs)
    → Perm (before ++ after) (ys ++ zs)
Perm-remove x before after ys zs p =
    Perm.cons_inv
      (Perm.trans (Perm.symm (perm_middle before after)) (Perm.trans p (perm_middle ys zs)))

pub Perm-pushed :
    (large : Bool) (x : ℕ) (list ys zs : List ℕ)
    → Perm list (ys ++ zs)
    → Perm (pushed large x list) (ys ++ x ∷ zs)
Perm-pushed true x list ys zs p = Perm.trans (Perm.cons x p) (Perm.symm (perm_middle ys zs))
Perm-pushed false x list ys zs p = Perm.trans (perm_middle list []) (
    Perm.trans (Perm.cons x (subst (λ l. Perm l (ys ++ zs)) (sym (append-nil list)) p))
      (Perm.symm (perm_middle ys zs)))
