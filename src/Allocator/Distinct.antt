-- ===== src/Allocator/Distinct.antt =====
-- Lists of block numbers without repetition, with their first and last elements.
use corosig.Prelude.{
  ℕ, ◌≡◌, refl, sym, ◌≢◌, List, [], ◌∷◌, ◌++◌, All, All-weaken, All-append, All-left, All-right,
}

abbrev pub hd : List ℕ → ℕ → ℕ
hd [] end = end
hd (x ∷ xs) end = x

abbrev pub lst : ℕ → List ℕ → ℕ
lst start [] = start
lst start (x ∷ xs) = lst x xs

abbrev pub Distinct : List ℕ → Type 0
Distinct [] = Unit {0}
Distinct (x ∷ xs) = All (λ y. x ≢ y) xs × Distinct xs

pub lst-All : (P : ℕ → Type 0) (x : ℕ) (xs : List ℕ) → P x → All P xs → P (lst x xs)
lst-All P x [] h a = h
lst-All P x (x' ∷ xs) h (h', a) = lst-All P x' xs h' a

pub lst-append : (start : ℕ) (xs ys : List ℕ) → lst start (xs ++ ys) ≡ lst (lst start xs) ys
lst-append start [] ys = refl
lst-append start (x ∷ xs) ys = lst-append x xs ys

pub differ_sym : (x : ℕ) (xs : List ℕ) → All (λ y. x ≢ y) xs → All (λ y. y ≢ x) xs
differ_sym x = All-weaken (λ y. x ≢ y) (λ y. y ≢ x) (λ y k q. k (sym q))

-- An element may be taken to the front, and brought back.
pub Distinct-middle :
    (xs : List ℕ) (y : ℕ) (ys : List ℕ) → Distinct (xs ++ y ∷ ys) → Distinct (y ∷ xs ++ ys)
Distinct-middle [] y ys d = d
Distinct-middle (x ∷ xs) y ys (n, d) =
    let (n', d') = Distinct-middle xs y ys d in
    let right = All-right (λ z. x ≢ z) xs (y ∷ ys) n in
    (
      ((λ q. right.0 (sym q)), n'),
      (All-append (λ z. x ≢ z) xs ys (All-left (λ z. x ≢ z) xs (y ∷ ys) n) right.1, d'),
    )

pub Distinct-snoc :
    (xs : List ℕ) (y : ℕ) → Distinct xs → All (λ x. y ≢ x) xs → Distinct (xs ++ y ∷ [])
Distinct-snoc [] y d n = (tt, tt)
Distinct-snoc (x ∷ xs) y (n, d) (yx, m) =
    (All-append (λ z. x ≢ z) xs (y ∷ []) n ((λ q. yx (sym q)), tt), Distinct-snoc xs y d m)

pub Distinct-left : (xs ys : List ℕ) → Distinct (xs ++ ys) → Distinct xs
Distinct-left [] ys d = tt
Distinct-left (x ∷ xs) ys (n, d) = (All-left (λ z. x ≢ z) xs ys n, Distinct-left xs ys d)

pub Distinct-right : (xs ys : List ℕ) → Distinct (xs ++ ys) → Distinct ys
Distinct-right [] ys d = d
Distinct-right (x ∷ xs) ys (n, d) = Distinct-right xs ys d

pub lst-Distinct : (x : ℕ) (xs ys : List ℕ) → Distinct (x ∷ xs ++ ys) → All (λ y. lst x xs ≢ y) ys
lst-Distinct x [] ys (n, d) = n
lst-Distinct x (x' ∷ xs) ys (n, d) = lst-Distinct x' xs ys d
