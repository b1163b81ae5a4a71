-- ===== src/Dns/Labels/Iterates.antt =====
-- `LabelsIterator` of Protocol.cpp on octets that denote labels.
use mathlib.Core.Path.{subst}
use mathlib.Core.List.{append_assoc, append-nil}
use corosig.Prelude.{
  ℕ, zero, suc, ◌+◌, ◌-◌, ◌*◌, ◌≤◌, ◌<◌, ◌≡◌, refl, ap, ◌∙◌, List, [], ◌∷◌, ◌++◌, none, some,
  length, take, drop, length-append, drop-append, take-append_exact, All-drop, All-left, All-right,
  ◌==◌, if◌then◌else◌, arith,
}
use corosig.Dns.Span.{Span, whole, subspan, IsByte, IsBytes, IsWithin, IsWithin-subspan}
use corosig.Dns.Wire.{decode_compression_ptr}
use corosig.Dns.Wire.Octets.{decode_compression_ptr-none, decode_compression_ptr-some}
use corosig.Dns.Name.Denotes.{IsMessage, Denotes, root, label, pointer}
use corosig.Dns.Labels.{at, end, labels, look, adwance, cons_label, deref, collect, labels_of}

module _ (m : List ℕ) (wf : IsMessage m) where
  IsWithin-jump : (ptr : ℕ) → ptr < length m → IsWithin m (subspan ptr (whole m))
  IsWithin-jump ptr h =
      let e : 0 + ptr ≡ ptr = omega arith in
      record { beyond = []; here = rw (e, append-nil); inside = omega arith }

-- One round of `adwance` at a place that no pointer stands at, and at a pointer.
module _ (memory : List ℕ) (fuel p : ℕ) (ys : List ℕ) where
  adwance_plain :
      (x y : ℕ)
      → drop p memory ≡ x ∷ y ∷ ys
      → IsByte x
      → IsByte y
      → x < 192
      → adwance memory (suc fuel) p ≡ (if x == 0 then end else at p)
  unfolding adwance
  adwance_plain x y e bx by small =
      let plain : decode_compression_ptr (x ∷ y ∷ []) ≡ none =
        decode_compression_ptr-none (x ∷ y ∷ []) (bx, (by, tt)) refl small in
      ap (λ (o : List ℕ). look (take 2 o) p (adwance memory fuel)) e ∙ rw (plain, look)

  adwance_ptr :
      (hi lo : ℕ)
      → drop p memory ≡ hi ∷ lo ∷ ys
      → IsByte hi
      → IsByte lo
      → 192 ≤ hi
      → adwance memory (suc fuel) p ≡ adwance memory fuel ((hi - 192) * 256 + lo)
  unfolding adwance
  adwance_ptr hi lo e bh bl marked =
      let found : decode_compression_ptr (hi ∷ lo ∷ []) ≡ some ((hi - 192) * 256 + lo) =
        decode_compression_ptr-some (hi ∷ lo ∷ []) (bh, (bl, tt)) refl marked in
      ap (λ (o : List ℕ). look (take 2 o) p (adwance memory fuel)) e ∙ rw (found, look)

-- Something stands behind the octets of a span, if the buffer goes on behind the message.
second :
    (xs beyond pad : List ℕ)
    → 1 ≤ length pad
    → IsBytes xs
    → IsBytes beyond
    → IsBytes pad
    → (y : ℕ) × (ys : List ℕ) × (xs ++ (beyond ++ pad) ≡ y ∷ ys) × IsByte y
second (x ∷ xs) beyond pad more b c d = (x, xs ++ (beyond ++ pad), refl, b.0)
second [] (x ∷ xs) pad more b c d = (x, xs ++ pad, refl, c.0)
second [] [] (x ∷ xs) more b c d = (x, xs, refl, d.0)
second [] [] [] more b c d = absurd (omega arith)

module _ (m pad : List ℕ) (wf : IsMessage m) (padded : IsBytes pad) (more : 1 ≤ length pad) where
  -- The buffer at a place of the message.
  memory_at :
      (s : Span) (w : IsWithin m s) → drop s.start (m ++ pad) ≡ s.octets ++ (w.beyond ++ pad)
  memory_at s w =
      drop-append s.start m pad w.inside
      ∙ ap (λ (xs : List ℕ). xs ++ pad) w.here
      ∙ append_assoc s.octets w.beyond pad

  within-IsBytes : (s : Span) (w : IsWithin m s) → IsBytes (s.octets ++ w.beyond)
  within-IsBytes s w = rw w.here at (All-drop IsByte s.start m wf.bytes)

  collect_label :
      (fuel rounds p : ℕ) (l rest : List ℕ)
      → drop p (m ++ pad) ≡ length l ∷ (l ++ rest)
      → collect (m ++ pad) fuel (suc rounds) (at p)
        ≡ cons_label l (collect (m ++ pad) fuel rounds (adwance (m ++ pad) fuel (p + length l + 1)))
  unfolding collect
  collect_label fuel rounds p l rest e =
      let room : length l ≤ length (l ++ rest) = omega (arith, length-append l rest) in
      let cut : take (length l) (l ++ rest) ≡ l = take-append_exact l rest (length l) refl in
      rw (e, deref) (ground (arith, cut))

  fits_label :
      {xs : List ℕ} (l rest : List ℕ) → xs ≡ length l ∷ (l ++ rest) → suc (length l) ≤ length xs
  fits_label l rest e = rw e (omega (arith, length-append l rest))

  -- The octets at a place, with one more behind the first.
  two_octets :
      (s : Span) (w : IsWithin m s) (x : ℕ) (rest : List ℕ)
      → s.octets ≡ x ∷ rest
      → (y : ℕ) × (ys : List ℕ) × (drop s.start (m ++ pad) ≡ x ∷ y ∷ ys) × IsByte x × IsByte y
  two_octets s w x rest e =
      let all : IsBytes (x ∷ (rest ++ w.beyond)) =
        subst (λ (o : List ℕ). IsBytes (o ++ w.beyond)) e (within-IsBytes s w) in
      let (y, ys, q, b) =
        second rest w.beyond pad more (All-left IsByte rest w.beyond all.1)
          (All-right IsByte rest w.beyond all.1) padded in
      (
        y,
        ys,
        memory_at s w ∙ ap (λ (o : List ℕ). o ++ (w.beyond ++ pad)) e ∙ ap (◌∷◌ x) q,
        all.0,
        b,
      )

  collect-Denotes :
      (f fuel rounds : ℕ) {h : ℕ} {s : Span} {ls : List (List ℕ)} {n : ℕ}
      → Denotes m h s ls n
      → IsWithin m s
      → h < f
      → h < fuel
      → length ls < rounds
      → collect (m ++ pad) fuel rounds (adwance (m ++ pad) f s.start) ≡ labels ls
  collect-Denotes zero fuel rounds d w lt lt' left = absurd (omega arith)
  collect-Denotes (suc f) fuel zero d w lt lt' left = absurd (omega arith)
  collect-Denotes (suc f) fuel (suc rounds) {s} (root rest e z o) w lt lt' left =
      let (y, ys, q, bx, by) = two_octets s w 0 rest e in
      ap (collect (m ++ pad) fuel (suc rounds))
        (adwance_plain (m ++ pad) f s.start ys 0 y q bx by (omega arith))
      ∙ unfold collect in refl
  collect-Denotes (suc f) fuel (suc rounds) {s} (label {l} rest e pos short d k) w lt lt' left =
      let (y, ys, q, bx, by) = two_octets s w (length l) (l ++ rest) e in
      let stay : (if length l == 0 then end else at s.start) ≡ at s.start = ground arith in
      let place : s.start + length l + 1 ≡ s.start + suc (length l) = omega arith in
      ap (collect (m ++ pad) fuel (suc rounds))
        (adwance_plain (m ++ pad) f s.start ys (length l) y q bx by (omega arith) ∙ stay)
      ∙ collect_label fuel rounds s.start l (rest ++ (w.beyond ++ pad)) (
          memory_at s w
          ∙ ap (λ (o : List ℕ). o ++ (w.beyond ++ pad)) e
          ∙ ap (◌∷◌ (length l)) (append_assoc l rest (w.beyond ++ pad)))
      ∙ ap (λ (j : ℕ). cons_label l (collect (m ++ pad) fuel rounds (adwance (m ++ pad) fuel j)))
          place
      ∙ ap (cons_label l) (
          collect-Denotes fuel fuel rounds d
            (IsWithin-subspan m s (suc (length l)) (fits_label l rest e) w) (omega arith)
            (omega arith) (omega arith))
      ∙ unfold cons_label in refl
  collect-Denotes (suc f) fuel (suc rounds) {s} (pointer ptr hi lo rest e marked o inside d two) w
        lt lt' left =
      let (y, ys, q, bh, by) = two_octets s w hi (lo ∷ rest) e in
      let q' = memory_at s w ∙ ap (λ (t : List ℕ). t ++ (w.beyond ++ pad)) e in
      let bl : IsByte lo = (rw e at (All-left IsByte s.octets w.beyond (within-IsBytes s w))).1.0 in
      let to : (hi - 192) * 256 + lo ≡ 0 + ptr = omega (arith, o) in
      ap (collect (m ++ pad) fuel (suc rounds)) (
        adwance_ptr (m ++ pad) f s.start (rest ++ (w.beyond ++ pad)) hi lo q' bh bl marked
        ∙ ap (adwance (m ++ pad) f) to)
      ∙ collect-Denotes f fuel (suc rounds) d (IsWithin-jump m wf ptr inside) (omega arith)
          (omega arith) left

-- The labels of a name of RFC 1035, read by the iterator in a buffer that goes on behind the
-- message by an octet at least, are the labels that the name denotes, in their order: the loop
-- terminates and reads nothing outside the buffer.
pub labels_of-Denotes :
    (m pad : List ℕ) (fuel rounds h : ℕ) (s : Span) (ls : List (List ℕ)) (n : ℕ)
    → IsMessage m
    → IsBytes pad
    → 1 ≤ length pad
    → Denotes m h s ls n
    → IsWithin m s
    → h < fuel
    → length ls < rounds
    → labels_of (m ++ pad) fuel rounds s.start ≡ labels ls
unfolding labels_of
labels_of-Denotes m pad fuel rounds h s ls n wf padded more d w lt left =
    collect-Denotes m pad wf padded more fuel fuel rounds d w lt lt left
