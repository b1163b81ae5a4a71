-- ===== src/Dns/Name/Rounds.antt =====
-- One round of each loop of `parse_domain_name`, with what it says of the octets.
use corosig.Prelude.{
  ℕ, zero, suc, ◌+◌, ◌%◌, ◌^◌, ◌≤◌, ◌<◌, ◌≡◌, refl, ◌∙◌, inl, inr, false, List, [], ◌∷◌, ◌++◌,
  length, take, drop, length-take, length-append, take-append_exact, take-append-drop, All-drop,
  ltb, if◌then◌else◌, arith, Option-cases,
}
use mathlib.Core.Path.{subst}
use corosig.Dns.Errors.{ok}
use corosig.Dns.Span.{Span, IsByte, IsBytes}
use corosig.Dns.Wire.{decode_compression_ptr}
use corosig.Dns.Wire.Octets.{IsPointer, decode_compression_ptr-IsPointer}
use corosig.Dns.Name.Denotes.{IsMessage, Denotes, pointer}
use corosig.Dns.Name.{decode_label, Cursor, jump, follow_ptrs, last_index}

-- The number of octets that the caller must skip, if a name of `n` octets starts at the cursor.
abbrev pub consumed : Cursor → ℕ → ℕ
consumed c n = if c.first_ptr then (c.bytes_to_consume + n) % 256 else c.bytes_to_consume

-- The octets of a label that was decoded.
pub record IsLabel (octets : List ℕ) (label : List ℕ) : Type 0 where
  pub behind : List ℕ
  pub reads : octets ≡ length label ∷ (label ++ behind)
  pub short : length label ≤ 63

decode_label_at-IsLabel :
    (s : Span) {lab : Span} (len : ℕ) (rest : List ℕ)
    → s.octets ≡ len ∷ rest
    → decode_label s ≡ ok lab
    → IsLabel s.octets lab.octets
unfolding decode_label
decode_label_at-IsLabel s {lab} len rest e h =
    let fits : len ≤ length rest = ground arith in
    let short : len ≤ 63 = ground arith in
    let lab_is : lab.octets ≡ take len rest = ground arith in
    let size : length (take len rest) ≡ len = omega (arith, length-take len rest) in
    record {
      behind = drop len rest;
      reads = e ∙ rw (lab_is, size, take-append-drop len rest);
      short = rw (lab_is, size) short;
    }

pub decode_label-IsLabel :
    (s : Span) {lab : Span} → decode_label s ≡ ok lab → IsLabel s.octets lab.octets
decode_label-IsLabel s {lab} h = by_octets s.octets refl
  where
    by_octets : (xs : List ℕ) → s.octets ≡ xs → IsLabel s.octets lab.octets
    by_octets [] e = absurd (unfold decode_label in ground arith)
    by_octets (len ∷ rest) e = decode_label_at-IsLabel s len rest e h

-- A length octet up to 63 and as many octets behind it are a label.
pub decode_label-ok :
    (s : Span) (l rest : List ℕ)
    → s.octets ≡ length l ∷ (l ++ rest)
    → length l ≤ 63
    → decode_label s ≡ ok (record { start = s.start + 1; octets = l })
unfolding decode_label
decode_label-ok s l rest e short =
    let room : length l ≤ length (l ++ rest) = omega (arith, length-append l rest) in
    let cut : take (length l) (l ++ rest) ≡ l = take-append_exact l rest (length l) refl in
    rw e (ground (arith, cut))

-- Through the pointers at `c` the loop comes to `c'`, where the name goes on.
pub record Followed (m : List ℕ) (c c' : Cursor) : Type 0 where
  pub len_same : c'.domain_name_len ≡ c.domain_name_len
  pub bytes : IsBytes c'.label_position.octets
  pub back :
      (h : ℕ) (ls : List (List ℕ)) (n : ℕ)
      → Denotes m h c'.label_position ls n
      → (h' : ℕ) × (n' : ℕ) × Denotes m h' c.label_position ls n' × (consumed c n' ≡ consumed c' n)

module _ (m : List ℕ) (wf : IsMessage m) where
  pub in_message : (ptr : ℕ) → ltb (last_index m) ptr ≡ false → ptr < length m
  unfolding last_index
  in_message ptr h =
      let f : length m < 2 ^ 64 = wf.fits in let g : 0 < length m = wf.nonempty in ground arith

  pub jump-IsBytes : (ptr : ℕ) (c : Cursor) → IsBytes (jump m ptr c).label_position.octets
  unfolding jump
  jump-IsBytes ptr c = All-drop IsByte ptr m wf.bytes

  Followed-refl : (c : Cursor) → IsBytes c.label_position.octets → Followed m c c
  Followed-refl c b = record { len_same = refl; bytes = b; back = λ h ls n d. (h, n, d, refl) }

  jump-Followed :
      (c : Cursor) {c' : Cursor} (ptr : ℕ)
      → IsPointer c.label_position.octets ptr
      → ptr < length m
      → Followed m (jump m ptr c) c'
      → Followed m c c'
  unfolding jump
  jump-Followed c ptr p inside f = record {
    len_same = f.len_same;
    bytes = f.bytes;
    back = λ h ls n d.
        let (h', n', d', e) = f.back h ls n d in
        (
          suc h',
          2,
          pointer ptr p.hi p.lo p.behind p.reads p.hi_marked p.offset_is inside d' refl,
          e,
        );
  }

  pub follow_ptrs-Followed :
      (fuel first : ℕ) (c : Cursor) {c' : Cursor}
      → IsBytes c.label_position.octets
      → follow_ptrs m fuel first c ≡ ok c'
      → Followed m c c'
  unfolding follow_ptrs
  follow_ptrs-Followed zero first c b h = cc
  follow_ptrs-Followed (suc fuel) first c {c'} b h =
      elim (Option-cases (decode_compression_ptr c.label_position.octets)) [
        | inl e ↦
            let same : c ≡ c' = ground arith in
            subst (λ (d : Cursor). Followed m c d) same (Followed-refl c b)
        | inr (ptr, e) ↦
            let inside : ltb (last_index m) ptr ≡ false = ground arith in
            let next : follow_ptrs m fuel (if c.first_ptr then ptr else first) (jump m ptr c)
                ≡ ok c' =
              ground arith in
            jump-Followed c ptr (decode_compression_ptr-IsPointer _ b e) (in_message ptr inside)
              (follow_ptrs-Followed fuel _ (jump m ptr c) (jump-IsBytes ptr c) next)
      ]
