-- ===== src/Text/Splits.antt =====
-- What `split_view` makes of words with dots between them, and back.
use corosig.Prelude.{
  ℕ, suc, ◌+◌, ◌≡◌, ◌≢◌, refl, List, [], ◌∷◌, ◌++◌, length, All, ◌==◌, ==_iff, Bool-cases, inl, inr,
  arith,
}
use corosig.Text.{Part, dot, split_dots}

abbrev pub IsNoDot : ℕ → Type 0
IsNoDot c = c ≢ dot

pub split_dots-word :
    (at : ℕ) (w rest : List ℕ)
    → All IsNoDot w
    → split_dots at (w ++ dot ∷ rest) ≡ (
      w,
      record { begin = at + length w + 1; text = (split_dots (at + length w + 1) rest).0 }
          ∷ (split_dots (at + length w + 1) rest).1,
    )
unfolding split_dots
split_dots-word at [] rest h = let e : at + 0 + 1 ≡ at + 1 = omega arith in rw e refl
split_dots-word at (c ∷ cs) rest (x, h) = elim (Bool-cases (c == dot)) [
  | inl e ↦ absurd (x ((==_iff c dot).0 e))
  | inr e ↦
      let p : at + suc (length cs) + 1 ≡ at + 1 + length cs + 1 = omega arith in
      rw (e, split_dots-word (at + 1) cs rest h, p) refl
]

pub split_dots-last : (at : ℕ) (w : List ℕ) → All IsNoDot w → split_dots at w ≡ (w, [])
unfolding split_dots
split_dots-last at [] h = refl
split_dots-last at (c ∷ cs) (x, h) = elim (Bool-cases (c == dot)) [
  | inl e ↦ absurd (x ((==_iff c dot).0 e))
  | inr e ↦ rw (e, split_dots-last (at + 1) cs h) refl
]

-- The parts with a dot in front of each.
abbrev pub rejoin : List Part → List ℕ
rejoin [] = []
rejoin (p ∷ ps) = dot ∷ (p.text ++ rejoin ps)

pub rejoin-split_dots :
    (at : ℕ) (xs : List ℕ) → (split_dots at xs).0 ++ rejoin (split_dots at xs).1 ≡ xs
unfolding split_dots
rejoin-split_dots at [] = refl
rejoin-split_dots at (c ∷ cs) = elim (Bool-cases (c == dot)) [
  | inl e ↦ let is : c ≡ dot = (==_iff c dot).0 e in rw (e, rejoin-split_dots (at + 1) cs, is) refl
  | inr e ↦ rw (e, rejoin-split_dots (at + 1) cs) refl
]
