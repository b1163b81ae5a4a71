-- ===== src/Dns/Name/Termination.antt =====
-- `parse_domain_name` of Protocol.cpp on names whose pointers all point backwards, as RFC 1035 has
-- it ("a prior occurrence of the same name").
use mathlib.Core.Path.{subst}
use corosig.Prelude.{
  ℕ, zero, suc, ◌+◌, ◌%◌, ◌≤◌, ◌<◌, ◌≡◌, ◌≢◌, refl, inl, inr, List, [], ◌∷◌, some, length,
  if◌then◌else◌, arith, Option-cases,
}
use corosig.Dns.Errors.{Outcome, ok, diverge, >>=-ne-diverge}
use corosig.Dns.Span.{Span, whole, subspan}
use corosig.Dns.Wire.{decode_compression_ptr}
use corosig.Dns.Name.Denotes.{IsMessage}
use corosig.Dns.Name.Rounds.{decode_label-IsLabel, in_message}
use corosig.Dns.Name.{
  decode_label, Cursor, ParseDomainNameSuccess, jump, follow_ptrs, no_ptr, count_label, skip_label,
  label_size_with_len, finish_round, walk, start_cursor, parse_domain_name,
}

-- The places from which a label is read when a name is read from `s` on: a place behind a label that
-- is not the root, and the place that a pointer leads to.
pub data Visits (m : List ℕ) (s : Span) : Span → Type 0 where
  here : Visits m s s
  behind :
      {t : Span} (lab : Span)
      → Visits m s t
      → decode_label t ≡ ok lab
      → 1 ≤ length lab.octets
      → Visits m s (subspan (suc (length lab.octets)) t)
  through :
      {t : Span} (ptr : ℕ)
      → Visits m s t
      → decode_compression_ptr t.octets ≡ some ptr
      → Visits m s (subspan ptr (whole m))

-- Each pointer that is met when a name is read from `s` on points before itself. Octets of the
-- message that are no part of the name may look like any pointer.
abbrev pub PointsBack : List ℕ → Span → Type 0
PointsBack m s =
    (t : Span) (ptr : ℕ) → Visits m s t → decode_compression_ptr t.octets ≡ some ptr → ptr < t.start

module _ (m : List ℕ) (wf : IsMessage m) (s : Span) (back : PointsBack m s) where
  follow_ptrs-ends_at :
      (fuel first : ℕ) (c : Cursor)
      → Visits m s c.label_position
      → c.label_position.start < fuel
      → follow_ptrs m fuel first c ≢ diverge
  unfolding follow_ptrs jump
  follow_ptrs-ends_at zero first c v lt = absurd (omega arith)
  follow_ptrs-ends_at (suc fuel) first c v lt =
      elim (Option-cases (decode_compression_ptr c.label_position.octets)) [
        | inl e ↦ rw (e, follow_ptrs) (λ h. cc)
        | inr (ptr, e) ↦
            rw (e, follow_ptrs)
              (ground (
                arith,
                back c.label_position ptr v e,
                follow_ptrs-ends_at fuel (if c.first_ptr then ptr else first) (jump m ptr c)
                    (through ptr v e),
              ))
      ]

  follow_ptrs-ends :
      (fuel first : ℕ) (c : Cursor)
      → Visits m s c.label_position
      → length m < fuel
      → follow_ptrs m (suc fuel) first c ≢ diverge
  unfolding follow_ptrs jump
  follow_ptrs-ends fuel first c v lt =
      elim (Option-cases (decode_compression_ptr c.label_position.octets)) [
        | inl e ↦ rw (e, follow_ptrs) (λ h. cc)
        | inr (ptr, e) ↦
            rw (e, follow_ptrs)
              (ground (
                arith,
                in_message m wf ptr,
                follow_ptrs-ends_at fuel (if c.first_ptr then ptr else first) (jump m ptr c)
                    (through ptr v e),
              ))
      ]

  follow_ptrs-Visits :
      (fuel first : ℕ) (c : Cursor) {c' : Cursor}
      → Visits m s c.label_position
      → follow_ptrs m fuel first c ≡ ok c'
      → Visits m s c'.label_position
  unfolding follow_ptrs jump
  follow_ptrs-Visits zero first c v h = cc
  follow_ptrs-Visits (suc fuel) first c {c'} v h =
      elim (Option-cases (decode_compression_ptr c.label_position.octets)) [
        | inl e ↦
            let q : c ≡ c' = ground arith in subst (λ (k : Cursor). Visits m s k.label_position) q v
        | inr (ptr, e) ↦
            let q : follow_ptrs m fuel (if c.first_ptr then ptr else first) (jump m ptr c) ≡ ok c' =
              ground arith in
            follow_ptrs-Visits fuel (if c.first_ptr then ptr else first) (jump m ptr c) {c' = c'}
              (through ptr v e) q
      ]

decode_label-ends : (s : Span) → decode_label s ≢ diverge
decode_label-ends s = by_octets s.octets refl
  where
    by_octets : (xs : List ℕ) → s.octets ≡ xs → decode_label s ≢ diverge
    by_octets [] e h = unfold decode_label in ground arith
    by_octets (x ∷ xs) e h = unfold decode_label in ground arith

finish_round-ends :
    (name_start start : ℕ) (l : List ℕ) (c : Cursor)
    (again : Cursor → Outcome ParseDomainNameSuccess)
    → (1 ≤ length l
        → c.domain_name_len ≤ 255
        → again (skip_label (record { start = start; octets = l }) c) ≢ diverge)
    → finish_round name_start (record { start = start; octets = l }) c again ≢ diverge
unfolding finish_round
finish_round-ends name_start start [] c again h = ground arith
finish_round-ends name_start start (x ∷ xs) c again h =
    let go = h (omega arith) in ground (arith, go)

-- The name grows by an octet at least in every round that goes on.
count_label-grows :
    (lab : Span) (c : Cursor)
    → length lab.octets ≤ 63
    → (count_label lab c).domain_name_len ≡ c.domain_name_len + length lab.octets + 1
unfolding count_label label_size_with_len
count_label-grows lab c short = omega arith

follow_ptrs-len :
    (m : List ℕ) (fuel first : ℕ) (c : Cursor) {c' : Cursor}
    → follow_ptrs m fuel first c ≡ ok c'
    → c'.domain_name_len ≡ c.domain_name_len
unfolding follow_ptrs jump
follow_ptrs-len m zero first c h = cc
follow_ptrs-len m (suc fuel) first c {c'} h =
    elim (Option-cases (decode_compression_ptr c.label_position.octets)) [
      | inl e ↦ ground arith
      | inr (ptr, e) ↦ ground (
        arith,
        follow_ptrs-len m fuel (if c.first_ptr then ptr else first) (jump m ptr c) {c' = c'},
      )
    ]

module _ (m : List ℕ) (wf : IsMessage m) (s : Span) (back : PointsBack m s) (k : ℕ)
    (enough : length m < k) where
  skip_label-Visits :
      (c : Cursor) (lab : Span)
      → Visits m s c.label_position
      → decode_label c.label_position ≡ ok lab
      → 1 ≤ length lab.octets
      → Visits m s (skip_label lab (count_label lab c)).label_position
  unfolding skip_label count_label label_size_with_len
  skip_label-Visits c lab v e pos =
      let l = decode_label-IsLabel c.label_position e in
      let short = l.short in
      let size : suc (length lab.octets) ≡ (length lab.octets + 1) % 256 = omega arith in
      subst (λ (n : ℕ). Visits m s (subspan n c.label_position)) size (behind lab v e pos)

  walk-ends :
      (rounds name_start : ℕ) (xs : List ℕ) (c : Cursor)
      → 256 ≤ c.domain_name_len + rounds
      → c.domain_name_len ≤ 255
      → Visits m s c.label_position
      → walk m (suc k) rounds name_start xs c ≢ diverge
  unfolding walk
  walk-ends rounds name_start [] c left small v = λ p. cc
  walk-ends zero name_start (x ∷ xs) c left small v = absurd (omega arith)
  walk-ends (suc rounds) name_start (x ∷ xs) c left small v =
      >>=-ne-diverge (follow_ptrs m (suc k) no_ptr c) _
        (follow_ptrs-ends m wf s back k no_ptr c v enough)
        λ c' e.
          >>=-ne-diverge (decode_label c'.label_position) _ (decode_label-ends c'.label_position)
            λ lab e'.
              let grows =
                count_label-grows lab c' (decode_label-IsLabel c'.label_position e').short in
              let same = follow_ptrs-len m (suc k) no_ptr c e in
              finish_round-ends name_start lab.start lab.octets (count_label lab c')
                (λ n. walk m (suc k) rounds name_start n.label_position.octets n)
                λ pos fits.
                  walk-ends rounds name_start
                    (skip_label lab (count_label lab c')).label_position.octets
                    (skip_label lab (count_label lab c')) (unfold skip_label in omega arith)
                    (unfold skip_label in omega arith)
                    (skip_label-Visits c' lab (follow_ptrs-Visits m wf s back (suc k) no_ptr c v e)
                      e' pos)

-- When each pointer that is met from the name on points before itself, `parse_domain_name`
-- terminates: its pointer loop needs two rounds more than the message has octets at most, and the
-- loop over the labels is done within the model's 256 rounds.
pub parse_domain_name-terminates :
    (m : List ℕ) (s : Span) (ptr_fuel : ℕ)
    → IsMessage m
    → PointsBack m s
    → length m + 2 ≤ ptr_fuel
    → parse_domain_name ptr_fuel m s ≢ diverge
unfolding parse_domain_name
parse_domain_name-terminates m s zero wf back enough = absurd (omega arith)
parse_domain_name-terminates m s (suc k) wf back enough =
    walk-ends m wf s back k (omega arith) 256 s.start s.octets (start_cursor s) (omega arith)
      (omega arith) here
