-- ===== src/Dns/Name/Tests.antt =====
-- `parse_domain_name` at concrete messages.
use mathlib.Core.Path.{subst}
use corosig.Prelude.{
  ℕ, ◌%◌, ◌≤◌, ◌≡◌, ◌≢◌, ◌⊎◌, inl, inr, refl, ap, some, List, [], ◌∷◌, ◌++◌, replicate, length,
  arith,
}
use corosig.Dns.Errors.{ok, fail, diverge, compression_ptr_infinite_loop}
use corosig.Dns.Span.{Span, whole, subspan}
use corosig.Dns.Wire.{read_ntoh, decode_compression_ptr}
use corosig.Dns.Name.Denotes.{IsMessage, Denotes, root, label, pointer, name_len}
use corosig.Dns.Name.Sound.{parse_domain_name_sound, parse_domain_name-in_bounds}
use corosig.Dns.Name.Complete.{parse_domain_name_complete, parse_domain_name-bytes_to_consume}
use corosig.Dns.Name.Termination.{
  Visits, here, behind, through, PointsBack, parse_domain_name-terminates,
}
use corosig.Dns.Name.Loops.{Trap, parse_domain_name-diverges}
use corosig.Dns.Name.{ParseDomainNameSuccess, decode_label, parse_domain_name}

-- At 0 the name "abc", at 5 the name "x.abc" with a pointer to it, and an octet behind.
abbrev two_names : List ℕ
two_names = 3 ∷ 97 ∷ 98 ∷ 99 ∷ 0 ∷ 1 ∷ 120 ∷ 0xC0 ∷ 0 ∷ 7 ∷ []

abbrev second_name : Span
second_name = subspan 5 (whole two_names)

abbrev read_second : ParseDomainNameSuccess
read_second = record { bytes_to_consume = 4; domain_name = record { self_start = 5 } }

parses : parse_domain_name 2 two_names second_name ≡ ok read_second
unfolding parse_domain_name decode_label decode_compression_ptr read_ntoh
parses = refl

two_names-IsMessage : IsMessage two_names
two_names-IsMessage = omega arith

second_name-Denotes : Denotes two_names 3 second_name ((120 ∷ []) ∷ (97 ∷ 98 ∷ 99 ∷ []) ∷ []) 4
second_name-Denotes =
    label (0xC0 ∷ 0 ∷ 7 ∷ []) refl (omega arith) (omega arith)
      (pointer 0 0xC0 0 (7 ∷ []) refl (omega arith) refl (omega arith)
        (label (0 ∷ 1 ∷ 120 ∷ 0xC0 ∷ 0 ∷ 7 ∷ []) refl (omega arith) (omega arith)
          (root (1 ∷ 120 ∷ 0xC0 ∷ 0 ∷ 7 ∷ []) refl refl refl) refl)
        refl)
      refl

parse_domain_name_sound_example :
    (h : ℕ) × (ls : List (List ℕ)) × (n : ℕ) × Denotes two_names h second_name ls n
    × (name_len ls ≤ 255)
    × ◌≡◌ {A = ℕ} 5 5
    × ◌≡◌ {A = ℕ} 4 (n % 256)
parse_domain_name_sound_example =
    parse_domain_name_sound 2 two_names second_name read_second two_names-IsMessage (omega arith)
      parses

parse_domain_name-in_bounds_example : 4 ≤ length second_name.octets
parse_domain_name-in_bounds_example =
    parse_domain_name-in_bounds 2 two_names second_name read_second two_names-IsMessage
      (omega arith) parses

parse_domain_name_complete_example : parse_domain_name 4 two_names second_name ≡ ok read_second
parse_domain_name_complete_example =
    parse_domain_name_complete 4 two_names second_name 3 _ 4 two_names-IsMessage (omega arith)
      second_name-Denotes (omega arith) (omega arith)

parse_domain_name-bytes_to_consume_example :
    (r : ParseDomainNameSuccess) × (parse_domain_name 4 two_names second_name ≡ ok r)
    × (((◌≡◌ {A = ℕ} 4 256) × (r.bytes_to_consume ≡ 0)) ⊎ ((4 ≤ 255) × (r.bytes_to_consume ≡ 4)))
parse_domain_name-bytes_to_consume_example =
    parse_domain_name-bytes_to_consume 4 two_names second_name 3 _ 4 two_names-IsMessage
      (omega arith) second_name-Denotes (omega arith) (omega arith)

-- A root label, a pointer to it, and data that looks like a pointer far behind the message.
abbrev back_message : List ℕ
back_message = 0 ∷ 0xC0 ∷ 0 ∷ 0xFF ∷ 0xFF ∷ []

abbrev back_name : Span
back_name = subspan 1 (whole back_message)

-- The name has two places.
back_message-Visits :
    (t : Span)
    → Visits back_message back_name t
    → (t ≡ back_name) ⊎ (t ≡ subspan 0 (whole back_message))
unfolding decode_compression_ptr read_ntoh decode_label
back_message-Visits t here = inl refl
back_message-Visits t (behind {t = u} lab v e pos) = elim (back_message-Visits u v) [
  | inl q ↦
      let e' : decode_label back_name ≡ ok lab =
        subst (λ (w : Span). decode_label w ≡ ok lab) q e in
      absurd cc
  | inr q ↦
      let e' : decode_label (subspan 0 (whole back_message)) ≡ ok lab =
        subst (λ (w : Span). decode_label w ≡ ok lab) q e in
      absurd (ground arith)
]
back_message-Visits t (through {t = u} ptr v e) = elim (back_message-Visits u v) [
  | inl q ↦
      let e' : decode_compression_ptr back_name.octets ≡ some ptr =
        subst (λ (w : Span). decode_compression_ptr w.octets ≡ some ptr) q e in
      let z : ptr ≡ 0 = ground arith in inr (ap (λ (n : ℕ). subspan n (whole back_message)) z)
  | inr q ↦
      let e' : decode_compression_ptr back_message ≡ some ptr =
        subst (λ (w : Span). decode_compression_ptr w.octets ≡ some ptr) q e in
      absurd cc
]

back_message-PointsBack : PointsBack back_message back_name
unfolding decode_compression_ptr read_ntoh
back_message-PointsBack t ptr v e = elim (back_message-Visits t v) [
  | inl q ↦
      let e' : decode_compression_ptr back_name.octets ≡ some ptr =
        subst (λ (w : Span). decode_compression_ptr w.octets ≡ some ptr) q e in
      let z : ptr ≡ 0 = ground arith in omega (arith, ap (λ (w : Span). w.start) q)
  | inr q ↦
      let e' : decode_compression_ptr back_message ≡ some ptr =
        subst (λ (w : Span). decode_compression_ptr w.octets ≡ some ptr) q e in
      absurd cc
]

parse_domain_name-terminates_example : parse_domain_name 7 back_message back_name ≢ diverge
parse_domain_name-terminates_example =
    parse_domain_name-terminates back_message back_name 7 (omega arith) back_message-PointsBack
      (omega arith)

-- Pointers 0 → 2 → 4 → 6 → 4: the cycle does not come back to 2, the first target.
abbrev cycle : List ℕ
cycle = 0xC0 ∷ 2 ∷ 0xC0 ∷ 4 ∷ 0xC0 ∷ 6 ∷ 0xC0 ∷ 4 ∷ []

abbrev OnCycle : ℕ → Type 0
OnCycle p = (p ≡ 2) ⊎ ((p ≡ 4) ⊎ (p ≡ 6))

cycle-Trap : Trap cycle 2 OnCycle
unfolding decode_compression_ptr read_ntoh
cycle-Trap p (inl e) = (4, rw e, inr (inl refl), omega arith, omega arith)
cycle-Trap p (inr (inl e)) = (6, rw e, inr (inr refl), omega arith, omega arith)
cycle-Trap p (inr (inr e)) = (4, rw e, inr (inl refl), omega arith, omega arith)

parse_domain_name-diverges_example : parse_domain_name 1000 cycle (whole cycle) ≡ diverge
unfolding decode_compression_ptr read_ntoh
parse_domain_name-diverges_example =
    parse_domain_name-diverges cycle (omega arith) 1000 2 (whole cycle) OnCycle refl (omega arith)
      cycle-Trap (inl refl)

-- A pointer to itself is refused.
self_pointer :
    parse_domain_name 9 (0xC0 ∷ 0 ∷ []) (whole (0xC0 ∷ 0 ∷ [])) ≡ fail compression_ptr_infinite_loop
unfolding parse_domain_name decode_label decode_compression_ptr read_ntoh
self_pointer = refl

-- Labels of 63, 63, 63 and 61 octets and a pointer to a root label: 256 octets, consumed as none.
abbrev wide_name : List ℕ
wide_name =
    63
    ∷ (replicate 63 97
        ++ 63
          ∷ (replicate 63 97 ++ 63 ∷ (replicate 63 97 ++ 61 ∷ (replicate 61 97 ++ 0xC0 ∷ 0 ∷ []))))

wide_name_consumed :
    parse_domain_name 3 (0 ∷ wide_name) (subspan 1 (whole (0 ∷ wide_name)))
    ≡ ok (record { bytes_to_consume = 0; domain_name = record { self_start = 1 } })
unfolding parse_domain_name decode_label decode_compression_ptr read_ntoh
wide_name_consumed = refl
