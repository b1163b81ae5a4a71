-- ===== src/Dns/Labels.antt =====
-- `DomainName::LabelsIterator` of Protocol.cpp and the loop over a name's labels. The iterator has
-- pointers only, so it reads the buffer that the message lies at the start of, `memory`; `fault`
-- is a read outside that buffer, and `diverge` means that the fuel of a loop ran out.
pub mod Iterates
use corosig.Prelude.{
  ℕ, zero, suc, ◌+◌, List, [], ◌∷◌, Option, none, some, length, take, drop, ltb, ◌==◌,
  if◌then◌else◌,
}
use corosig.Dns.Wire.{decode_compression_ptr}

-- Where the iterator stands: `m_label_start`, with `end` for the null pointer.
pub data Position : Type 0 where
  at : ℕ → Position
  end fault diverge : Position

-- The octets of `{m_label_start, 2}`.
window : List ℕ → ℕ → List ℕ
window memory p = take 2 (drop p memory)

-- `if (*m_label_start == 0) m_label_start = nullptr;`
settle : ℕ → List ℕ → Position
settle p [] = fault
settle p (x ∷ xs) = if x == 0 then end else at p

-- A round of the loop on the two octets `here`: `next` is the loop from a pointer's target.
look : List ℕ → ℕ → (ℕ → Position) → Position
unfolding settle
look here p next = elim (decode_compression_ptr here) [
  | none ↦ if ltb (length here) 2 then fault else settle p here
  | some ptr ↦ next ptr
]

pub adwance : List ℕ → ℕ → ℕ → Position
unfolding window look
adwance memory zero p = diverge
adwance memory (suc fuel) p = look (window memory p) p (adwance memory fuel)

pub data Collected : Type 0 where
  labels : List (List ℕ) → Collected
  fault diverge : Collected

cons_label : List ℕ → Collected → Collected
cons_label l (labels ls) = labels (l ∷ ls)
cons_label l fault = fault
cons_label l diverge = diverge

-- `*it` on the octets from `m_label_start` on, and then `++it`, whose rest is `next`.
deref : List ℕ → (ℕ → Collected) → Collected
unfolding cons_label
deref [] next = fault
deref (len ∷ octets) next =
    if ltb (length octets) len then fault else cons_label (take len octets) (next len)

-- `for (auto label : name)`, from a position of the iterator.
pub collect : List ℕ → ℕ → ℕ → Position → Collected
unfolding deref adwance
collect memory fuel rounds end = labels []
collect memory fuel rounds fault = fault
collect memory fuel rounds diverge = diverge
collect memory fuel zero (at p) = diverge
collect memory fuel (suc rounds) (at p) =
    deref (drop p memory) (λ len. collect memory fuel rounds (adwance memory fuel (p + len + 1)))

-- The labels of the name that starts at an offset. `begin()` moves to the first label.
pub labels_of : List ℕ → ℕ → ℕ → ℕ → Collected
unfolding collect
labels_of memory fuel rounds self_start =
    collect memory fuel rounds (adwance memory fuel self_start)
