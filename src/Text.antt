-- ===== src/Text.antt =====
-- `std::views::split` of a string view at the dots, as split_into_labels of Protocol.hpp and
-- Ipv4Addr::parse of Sockaddr.cpp use it. A character is its octet.
pub mod Splits
use corosig.Prelude.{ℕ, ◌+◌, List, [], ◌∷◌, ◌==◌, if◌then◌else◌, map}

abbrev pub dot : ℕ
dot = 46

-- A view into the text: where it begins, and its characters.
pub record Part : Type 0 where
  pub begin : ℕ
  pub text : List ℕ

-- The characters up to the next dot, and the views behind it. `at` is the place in the text.
unfoldable pub split_dots : ℕ → List ℕ → List ℕ × List Part
split_dots at [] = ([], [])
split_dots at (c ∷ cs) =
    let (word, others) = split_dots (at + 1) cs in
    if c == dot then ([], record { begin = at + 1; text = word } ∷ others) else (c ∷ word, others)

-- `sv | std::views::split('.')`: an empty range has no part.
unfoldable pub split_view : List ℕ → List Part
unfolding split_dots
split_view [] = []
split_view (c ∷ cs) =
    let (word, others) = split_dots 0 (c ∷ cs) in record { begin = 0; text = word } ∷ others

abbrev pub texts : List Part → List (List ℕ)
texts ls = map (λ l. l.text) ls
