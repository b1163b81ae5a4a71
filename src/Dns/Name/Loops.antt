-- ===== src/Dns/Name/Loops.antt =====
-- Pointer cycles. `parse_domain_name` compares a pointer with the first one of the name only, and in
-- a later round of the outer loop with none.
use corosig.Prelude.{
  ℕ, zero, suc, ◌^◌, ◌<◌, ◌≡◌, ◌≢◌, refl, ap, ◌∙◌, true, false, List, [], ◌∷◌, none, some, length,
  drop, ltb, if◌then◌else◌, arith,
}
use corosig.Dns.Errors.{diverge}
use corosig.Dns.Span.{Span}
use corosig.Dns.Wire.{decode_compression_ptr}
use corosig.Dns.Wire.Octets.{decode_compression_ptr-lt}
use corosig.Dns.Name.Denotes.{IsMessage}
use corosig.Dns.Name.{
  Cursor, jump, follow_ptrs, last_index, no_ptr, walk, start_cursor, parse_domain_name,
}

-- Places of the message that hold pointers to one another, and none to `first`.
abbrev pub Trap : List ℕ → ℕ → (ℕ → Type 0) → Type 0
Trap m first T =
    (p : ℕ)
    → T p
    → (q : ℕ) × (decode_compression_ptr (drop p m) ≡ some q) × T q × (q < length m) × (q ≢ first)

no_octets : decode_compression_ptr [] ≡ none
unfolding decode_compression_ptr
no_octets = refl

module _ (m : List ℕ) (wf : IsMessage m) where
  in_bounds : (ptr : ℕ) → ptr < length m → ltb (last_index m) ptr ≡ false
  unfolding last_index
  in_bounds ptr h = let f : length m < 2 ^ 64 = wf.fits in ground arith

  -- A round at a pointer that the two checks let pass.
  round_at :
      (fuel first ptr : ℕ) (c : Cursor)
      → decode_compression_ptr c.label_position.octets ≡ some ptr
      → ptr < length m
      → ptr ≢ first
      → follow_ptrs m (suc fuel) first c
        ≡ follow_ptrs m fuel (if c.first_ptr then ptr else first) (jump m ptr c)
  unfolding follow_ptrs
  round_at fuel first ptr c e inside new =
      rw (e, follow_ptrs) (rw (in_bounds ptr inside) (ground arith))

  follow_ptrs_trapped :
      (fuel first p : ℕ) (T : ℕ → Type 0) (c : Cursor)
      → Trap m first T
      → T p
      → c.label_position.octets ≡ drop p m
      → c.first_ptr ≡ false
      → follow_ptrs m fuel first c ≡ diverge
  follow_ptrs_trapped zero first p T c trap t q met = unfold follow_ptrs in refl
  follow_ptrs_trapped (suc fuel) first p T c trap t q met =
      let (ptr, e, t', inside, new) = trap p t in
      round_at fuel first ptr c (rw q e) inside new
      ∙ ap (λ (f : ℕ). follow_ptrs m fuel f (jump m ptr c))
          (let same : (if c.first_ptr then ptr else first) ≡ first = ground arith in same)
      ∙ follow_ptrs_trapped fuel first ptr T (jump m ptr c) trap t' (unfold jump in refl)
          (unfold jump in refl)

  -- Into the trap by the first pointer of a name.
  follow_ptrs_entered :
      (fuel ptr : ℕ) (T : ℕ → Type 0) (c : Cursor)
      → decode_compression_ptr c.label_position.octets ≡ some ptr
      → ptr < length m
      → Trap m ptr T
      → T ptr
      → c.first_ptr ≡ true
      → follow_ptrs m fuel no_ptr c ≡ diverge
  follow_ptrs_entered zero ptr T c e inside trap t fresh = unfold follow_ptrs in refl
  follow_ptrs_entered (suc fuel) ptr T c e inside trap t fresh =
      let small = decode_compression_ptr-lt c.label_position.octets e in
      round_at fuel no_ptr ptr c e inside (omega arith)
      ∙ ap (λ (f : ℕ). follow_ptrs m fuel f (jump m ptr c))
          (let same : (if c.first_ptr then ptr else no_ptr) ≡ ptr = ground arith in same)
      ∙ follow_ptrs_trapped fuel ptr ptr T (jump m ptr c) trap t (unfold jump in refl)
          (unfold jump in refl)

  -- Where the pointer at the place leads into a cycle of pointers that does not come back to that
  -- pointer's own target, `parse_domain_name` follows pointers for ever: no fuel is enough.
  pub parse_domain_name-diverges :
      (ptr_fuel ptr : ℕ) (s : Span) (T : ℕ → Type 0)
      → decode_compression_ptr s.octets ≡ some ptr
      → ptr < length m
      → Trap m ptr T
      → T ptr
      → parse_domain_name ptr_fuel m s ≡ diverge
  unfolding parse_domain_name
  parse_domain_name-diverges ptr_fuel ptr s T e inside trap t = by_octets s.octets refl
    where
      by_octets :
          (xs : List ℕ) → s.octets ≡ xs → walk m ptr_fuel 256 s.start xs (start_cursor s) ≡ diverge
      by_octets [] q = cc (ap decode_compression_ptr q, no_octets)
      by_octets (x ∷ xs) q =
          rw (follow_ptrs_entered ptr_fuel ptr T (start_cursor s) e inside trap t refl, walk)
