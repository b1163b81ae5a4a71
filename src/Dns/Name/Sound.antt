-- ===== src/Dns/Name/Sound.antt =====
-- `parse_domain_name` of Protocol.cpp when it succeeds: the octets that its rounds have read.
use mathlib.Core.Path.{subst}
use corosig.Prelude.{
  ℕ, zero, suc, ◌+◌, ◌%◌, ◌≤◌, ◌<◌, ◌≡◌, refl, sym, ap, ◌∙◌, List, [], ◌∷◌, length, All-drop, arith,
}
use corosig.Dns.Errors.{Outcome, ok, fail, no_root_label, >>=-eq-ok}
use corosig.Dns.Span.{Span, subspan, IsByte, IsBytes}
use corosig.Dns.Name.Denotes.{IsMessage, Denotes, root, label, name_len, Denotes-fits}
use corosig.Dns.Name.Rounds.{
  consumed, IsLabel, decode_label-IsLabel, Followed, follow_ptrs-Followed,
}
use corosig.Dns.Name.{
  decode_label, Cursor, ParseDomainNameSuccess, follow_ptrs, no_ptr, label_size_with_len,
  count_label, skip_label, finish_round, walk, start_cursor, parse_domain_name,
}

-- The name that a run of the loop has read from the cursor on.
pub record Reads (m : List ℕ) (name_start : ℕ) (c : Cursor) (r : ParseDomainNameSuccess)
    : Type 0 where
  pub labels : List (List ℕ)
  pub hops : ℕ
  pub size : ℕ
  pub denotes : Denotes m hops c.label_position labels size
  pub starts : r.domain_name.self_start ≡ name_start
  pub bytes_are : r.bytes_to_consume ≡ consumed c size
  pub within_limit : c.domain_name_len + name_len labels ≤ 255

-- A round that ends well has met the root, or has left the rest to the next round.
data RoundEnd (name_start : ℕ) (lab : Span) (c : Cursor)
    (again : Cursor → Outcome ParseDomainNameSuccess) (r : ParseDomainNameSuccess) : Type 0 where
  returned :
      lab.octets ≡ []
      → c.domain_name_len ≤ 255
      → r.domain_name.self_start ≡ name_start
      → r.bytes_to_consume ≡ c.bytes_to_consume
      → RoundEnd name_start lab c again r
  continued :
      1 ≤ length lab.octets → again (skip_label lab c) ≡ ok r → RoundEnd name_start lab c again r

finish_round-RoundEnd :
    (name_start start : ℕ) (octets : List ℕ) (c : Cursor)
    (again : Cursor → Outcome ParseDomainNameSuccess) {r : ParseDomainNameSuccess}
    → finish_round name_start (record { start = start; octets = octets }) c again ≡ ok r
    → RoundEnd name_start (record { start = start; octets = octets }) c again r
unfolding finish_round
finish_round-RoundEnd name_start start [] c again h =
    returned refl (ground arith) (ground arith) (ground arith)
finish_round-RoundEnd name_start start (x ∷ xs) c again h = continued (omega arith) (ground arith)

label_size :
    (lab : Span) → length lab.octets ≤ 63 → label_size_with_len lab ≡ suc (length lab.octets)
unfolding label_size_with_len
label_size lab h = omega arith

consumed_label :
    (lab : Span) (c : Cursor)
    → length lab.octets ≤ 63
    → (n : ℕ)
    → consumed (skip_label lab (count_label lab c)) n ≡ consumed c (length lab.octets + 1 + n)
unfolding count_label skip_label
consumed_label lab c short n = ground (arith, label_size lab short)

module _ (m : List ℕ) (wf : IsMessage m) (k name_start : ℕ) where
  -- The next round reads on behind the label that this one has counted.
  continue_Reads :
      (c c' : Cursor) (lab : Span) {r : ParseDomainNameSuccess}
      → Followed m c c'
      → IsLabel c'.label_position.octets lab.octets
      → 1 ≤ length lab.octets
      → Reads m name_start (skip_label lab (count_label lab c')) r
      → Reads m name_start c r
  unfolding count_label skip_label
  continue_Reads c c' lab f l pos p =
      let size : label_size_with_len lab ≡ suc (length lab.octets) = label_size lab l.short in
      let here =
        label l.behind l.reads pos l.short
          (subst (λ (j : ℕ). Denotes m p.hops (subspan j c'.label_position) p.labels p.size) size
            p.denotes)
          refl in
      let (h, n, d, e) = f.back (suc p.hops) (lab.octets ∷ p.labels) _ here in
      record {
        labels = lab.octets ∷ p.labels;
        hops = h;
        size = n;
        denotes = d;
        starts = p.starts;
        bytes_are = p.bytes_are ∙ consumed_label lab c' l.short p.size ∙ sym e;
        within_limit = omega arith;
      }

  -- The name ends here, at the root label.
  return_Reads :
      (c c' : Cursor) (lab : Span) {r : ParseDomainNameSuccess}
      → Followed m c c'
      → IsLabel c'.label_position.octets lab.octets
      → lab.octets ≡ []
      → (count_label lab c').domain_name_len ≤ 255
      → r.domain_name.self_start ≡ name_start
      → r.bytes_to_consume ≡ (count_label lab c').bytes_to_consume
      → Reads m name_start c r
  unfolding count_label
  return_Reads c c' lab f l empty small starts bytes =
      let size : label_size_with_len lab ≡ suc (length lab.octets) = label_size lab l.short in
      let none_left : length lab.octets ≡ 0 = ap length empty in
      let reads : c'.label_position.octets ≡ 0 ∷ l.behind = ground arith in
      let (h, n, d, e) = f.back 0 [] 1 (root l.behind reads refl refl) in
      record {
        labels = [];
        hops = h;
        size = n;
        denotes = d;
        starts = starts;
        bytes_are = bytes ∙ ground arith ∙ sym e;
        within_limit = omega arith;
      }

  walk-Reads :
      (rounds : ℕ) (xs : List ℕ) (c : Cursor) {r : ParseDomainNameSuccess}
      → IsBytes c.label_position.octets
      → walk m k rounds name_start xs c ≡ ok r
      → Reads m name_start c r
  unfolding walk
  walk-Reads rounds [] c b h = cc
  walk-Reads zero (x ∷ xs) c b h = cc
  walk-Reads (suc rounds) (x ∷ xs) c {r} b h =
      let (c', e, h') = >>=-eq-ok (follow_ptrs m k no_ptr c) _ h in
      let (lab, e', h'') = >>=-eq-ok (decode_label c'.label_position) _ h' in
      let f = follow_ptrs-Followed m wf k no_ptr c b e in
      let l = decode_label-IsLabel c'.label_position e' in
      elim (finish_round-RoundEnd name_start lab.start lab.octets (count_label lab c')
        (λ n. walk m k rounds name_start n.label_position.octets n) h'') [
          | returned empty small starts bytes ↦ return_Reads c c' lab f l empty small starts bytes
          | continued pos again ↦ continue_Reads c c' lab f l pos (
              walk-Reads rounds (skip_label lab (count_label lab c')).label_position.octets
                (skip_label lab (count_label lab c')) (skipped c' lab f.bytes) again)
        ]
    where
      skipped :
          (c : Cursor) (lab : Span)
          → IsBytes c.label_position.octets
          → IsBytes (skip_label lab (count_label lab c)).label_position.octets
      skipped c lab b = unfold skip_label in unfold count_label in All-drop IsByte _ _ b

-- In a message of octets that a span can hold: if `parse_domain_name` succeeds, the octets at its
-- place denote labels by `Denotes`, the notation of RFC 1035 in which a pointer may also lead
-- forward. The name takes at most 255 octets uncompressed, the result begins there, and `bytes_to_consume` is the number of octets that the name takes in place, taken modulo
-- 256.
pub parse_domain_name_sound :
    (ptr_fuel : ℕ) (m : List ℕ) (s : Span) (r : ParseDomainNameSuccess)
    → IsMessage m
    → IsBytes s.octets
    → parse_domain_name ptr_fuel m s ≡ ok r
    → (h : ℕ) × (ls : List (List ℕ)) × (n : ℕ) × Denotes m h s ls n
      × (name_len ls ≤ 255)
      × (r.domain_name.self_start ≡ s.start)
      × (r.bytes_to_consume ≡ n % 256)
unfolding parse_domain_name
parse_domain_name_sound ptr_fuel m s r wf b h =
    let p = walk-Reads m wf ptr_fuel s.start 256 s.octets (start_cursor s) b h in
    (
      p.hops,
      p.labels,
      p.size,
      p.denotes,
      omega (arith, p.within_limit),
      p.starts,
      p.bytes_are ∙ omega arith,
    )

-- In a message of octets that a span can hold, `bytes_to_consume` of a name that is accepted stays
-- within the span that the name was read from.
pub parse_domain_name-in_bounds :
    (ptr_fuel : ℕ) (m : List ℕ) (s : Span) (r : ParseDomainNameSuccess)
    → IsMessage m
    → IsBytes s.octets
    → parse_domain_name ptr_fuel m s ≡ ok r
    → r.bytes_to_consume ≤ length s.octets
parse_domain_name-in_bounds ptr_fuel m s r wf b h =
    let (_, _, n, d, _, _, e) = parse_domain_name_sound ptr_fuel m s r wf b h in
    omega (arith, Denotes-fits d)

-- A name is read only where there are octets.
pub parse_domain_name-nonempty :
    (ptr_fuel : ℕ) (m : List ℕ) (s : Span) {r : ParseDomainNameSuccess}
    → parse_domain_name ptr_fuel m s ≡ ok r
    → 0 < length s.octets
unfolding parse_domain_name
parse_domain_name-nonempty ptr_fuel m s {r} h = by_octets s.octets refl
  where
    by_octets : (xs : List ℕ) → s.octets ≡ xs → 0 < length s.octets
    by_octets [] e =
        cc (ap (λ (o : List ℕ). walk m ptr_fuel 256 s.start o (start_cursor s)) e, no_octets)
      where
        no_octets : walk m ptr_fuel 256 s.start [] (start_cursor s) ≡ fail no_root_label
        no_octets = refl
    by_octets (x ∷ xs) e = omega (arith, ap length e)
