-- ===== src/Dns/Encode/Names.antt =====
-- The octets of the labels that `encode_domain_name` of Protocol.hpp writes.
use mathlib.Core.List.{append_assoc}
use corosig.Text.{Part, dot, split_dots, split_view, texts}
use corosig.Prelude.{
  ℕ, suc, ◌+◌, ◌≤◌, ◌≡◌, refl, ap, ◌∙◌, List, [], ◌∷◌, ◌++◌, none, length, drop, All, All-append,
  ltb, ◌==◌, Bool-cases, length-append, drop-append_exact, inl, inr, arith,
}
use corosig.Dns.Span.{Span, subspan, IsByte, IsBytes}
use corosig.Dns.Name.Denotes.{Denotes, root, label, name_len}
use corosig.Dns.Header.{Header}
use corosig.Dns.Decoder.Headers.{IsWord16, header_octets}
use corosig.Dns.Encode.{strip_dot, split_into_labels}
use corosig.Dns.Encode.Loop.{plain_name, first_bad}

pub length-plain_name : (ls : List (List ℕ)) → length (plain_name ls) ≡ name_len ls
length-plain_name [] = refl
length-plain_name (l ∷ ls) = omega (arith, length-append l (plain_name ls), length-plain_name ls)

-- Labels written in full are a name of RFC 1035 wherever they stand.
pub plain_name-Denotes :
    (m : List ℕ) (ls : List (List ℕ)) (s : Span) (rest : List ℕ)
    → s.octets ≡ plain_name ls ++ rest
    → first_bad ls ≡ none
    → Denotes m (length ls) s ls (name_len ls)
plain_name-Denotes m [] s rest e h = root rest e refl refl
plain_name-Denotes m ([] ∷ ls) s rest e h = cc
plain_name-Denotes m ((c ∷ cs) ∷ ls) s rest e h = elim (Bool-cases (ltb 63 (length (c ∷ cs)))) [
  | inl big ↦ let h' = rw big at h in cc
  | inr small ↦
      let split : s.octets ≡ length (c ∷ cs) ∷ ((c ∷ cs) ++ (plain_name ls ++ rest)) =
        e ∙ simp append_assoc refl in
      label (plain_name ls ++ rest) split (omega arith) (ground arith)
        (plain_name-Denotes m ls (subspan (suc (length (c ∷ cs))) s) rest
          (ap (drop (suc (length (c ∷ cs)))) split
            ∙ drop-append_exact (c ∷ cs) (plain_name ls ++ rest) (length (c ∷ cs)) refl)
          (rw small at h))
        refl
]

pub length-texts : (ls : List Part) → length (texts ls) ≡ length ls
length-texts [] = refl
length-texts (l ∷ ls) = ap suc (length-texts ls)

name_len-split_dots :
    (at : ℕ) (xs : List ℕ)
    → length (split_dots at xs).0 + name_len (texts (split_dots at xs).1) ≡ length xs + 1
unfolding split_dots
name_len-split_dots at [] = refl
name_len-split_dots at (c ∷ cs) = elim (Bool-cases (c == dot)) [
  | inl e ↦ rw e (omega (arith, name_len-split_dots (at + 1) cs))
  | inr e ↦ rw e (omega (arith, name_len-split_dots (at + 1) cs))
]

pub name_len-split_view : (xs : List ℕ) → name_len (texts (split_view xs)) ≤ length xs + 2
unfolding split_view
name_len-split_view [] = omega arith
name_len-split_view (c ∷ cs) = omega (arith, name_len-split_dots 0 (c ∷ cs))

pub name_len-split_into_labels :
    (xs : List ℕ) → name_len (texts (split_into_labels xs)) ≤ length (strip_dot xs) + 2
unfolding split_into_labels
name_len-split_into_labels xs = name_len-split_view (strip_dot xs)

-- Two octets more than the characters, when there are any.
pub length-lt-name_len :
    (xs : List ℕ)
    → 1 ≤ length (strip_dot xs)
    → length (strip_dot xs) + 2 ≤ name_len (texts (split_into_labels xs))
unfolding split_into_labels
length-lt-name_len xs h = full (strip_dot xs) h
  where
    full : (ys : List ℕ) → 1 ≤ length ys → length ys + 2 ≤ name_len (texts (split_view ys))
    full [] h = absurd (omega arith)
    full (c ∷ cs) h = unfold split_view in omega (arith, name_len-split_dots 0 (c ∷ cs))

pub length-le-strip_dot : (xs : List ℕ) → length xs ≤ length (strip_dot xs) + 1
unfolding strip_dot
length-le-strip_dot [] = omega arith
length-le-strip_dot (c ∷ []) = omega arith
length-le-strip_dot (c ∷ d ∷ cs) = omega (arith, length-le-strip_dot (d ∷ cs))

-- The characters of the labels are characters of the name.
strip_dot-IsBytes : (xs : List ℕ) → IsBytes xs → IsBytes (strip_dot xs)
unfolding strip_dot
strip_dot-IsBytes [] h = tt
strip_dot-IsBytes (c ∷ []) (x, h) = elim (Bool-cases (c == dot)) [
  | inl e ↦ rw e tt
  | inr e ↦ rw e (x, tt)
]
strip_dot-IsBytes (c ∷ d ∷ cs) (x, h) = (x, strip_dot-IsBytes (d ∷ cs) h)

split_dots-IsBytes :
    (at : ℕ) (xs : List ℕ)
    → IsBytes xs
    → IsBytes (split_dots at xs).0 × All IsBytes (texts (split_dots at xs).1)
unfolding split_dots
split_dots-IsBytes at [] h = (tt, tt)
split_dots-IsBytes at (c ∷ cs) (x, h) =
    let (word, others) = split_dots-IsBytes (at + 1) cs h in
    elim (Bool-cases (c == dot)) [
      | inl e ↦ rw e (tt, (word, others))
      | inr e ↦ rw e ((x, word), others)
    ]

split_view-IsBytes : (xs : List ℕ) → IsBytes xs → All IsBytes (texts (split_view xs))
unfolding split_view
split_view-IsBytes [] h = tt
split_view-IsBytes (c ∷ cs) h = split_dots-IsBytes 0 (c ∷ cs) h

pub split_into_labels-IsBytes :
    (xs : List ℕ) → IsBytes xs → All IsBytes (texts (split_into_labels xs))
unfolding split_into_labels
split_into_labels-IsBytes xs h = split_view-IsBytes (strip_dot xs) (strip_dot-IsBytes xs h)

pub plain_name-IsBytes :
    (ls : List (List ℕ)) → All IsBytes ls → first_bad ls ≡ none → IsBytes (plain_name ls)
plain_name-IsBytes [] h e = (omega arith, tt)
plain_name-IsBytes ([] ∷ ls) h e = cc
plain_name-IsBytes ((c ∷ cs) ∷ ls) (l, h) e = elim (Bool-cases (ltb 63 (length (c ∷ cs)))) [
  | inl big ↦ let h' = rw big at e in cc
  | inr small ↦ (
    ground arith,
    All-append IsByte (c ∷ cs) (plain_name ls) l (plain_name-IsBytes ls h (rw small at e)),
  )
]

pub header_octets-IsBytes : (h : Header) → IsWord16 h → IsBytes (header_octets h [])
header_octets-IsBytes h w = omega arith
