-- ===== src/Dns/Name/Complete.antt =====
-- `parse_domain_name` on a name of RFC 1035: the rounds of its outer loop in Protocol.cpp.
use corosig.Prelude.{
  ℕ, zero, suc, ◌+◌, ◌%◌, ◌≤◌, ◌<◌, ◌≡◌, ◌≢◌, refl, sym, ap, ◌∙◌, ◌⊎◌, inl, inr, List, [], ◌∷◌,
  ◌++◌, length, All-drop, ◌==◌, arith, Bool-cases,
}
use corosig.Dns.Errors.{Outcome, ok}
use corosig.Dns.Span.{Span, IsByte, IsBytes}
use corosig.Dns.Name.Denotes.{IsMessage, Denotes, name_len, Denotes-occupies}
use corosig.Dns.Name.Rounds.{consumed, decode_label-ok}
use corosig.Dns.Name.{
  Cursor, ParseDomainNameSuccess, follow_ptrs, no_ptr, label_size_with_len, count_label, skip_label,
  finish_round, walk, start_cursor, parse_domain_name,
}
use corosig.Dns.Name.Inversion.{Denotes-nonempty, label_of, root_of}
use corosig.Dns.Name.Follows.{passed, follow_ptrs-Arrives, label_at, passed_place}

finish_label :
    (name_start start : ℕ) (l : List ℕ) (c : Cursor)
    (again : Cursor → Outcome ParseDomainNameSuccess)
    → 1 ≤ length l
    → c.domain_name_len ≤ 255
    → finish_round name_start (record { start = start; octets = l }) c again
      ≡ again (skip_label (record { start = start; octets = l }) c)
unfolding finish_round
finish_label name_start start [] c again pos small = absurd (omega arith)
finish_label name_start start (x ∷ xs) c again pos small = ground arith

finish_root :
    (name_start start : ℕ) (c : Cursor) (again : Cursor → Outcome ParseDomainNameSuccess)
    → c.domain_name_len ≤ 255
    → finish_round name_start (record { start = start; octets = [] }) c again
      ≡ ok (record {
        bytes_to_consume = c.bytes_to_consume;
        domain_name = record { self_start = name_start };
      })
unfolding finish_round
finish_root name_start start c again small = ground arith

module _ (m : List ℕ) (k rounds name_start : ℕ) (c c' : Cursor) (x : ℕ) (xs rest : List ℕ) where
  again : Cursor → Outcome ParseDomainNameSuccess
  again n = walk m k rounds name_start n.label_position.octets n

  -- One round of the outer loop, at a label and at the root.
  pub round_label :
      (l : List ℕ)
      → follow_ptrs m k no_ptr c ≡ ok c'
      → c'.label_position.octets ≡ length l ∷ (l ++ rest)
      → 1 ≤ length l
      → length l ≤ 63
      → c'.domain_name_len + length l + 1 ≤ 255
      → walk m k (suc rounds) name_start (x ∷ xs) c
        ≡ (let n = passed l c' in walk m k rounds name_start n.label_position.octets n)
  unfolding walk passed again
  round_label l e reads pos short len =
      rw (e, decode_label-ok c'.label_position l rest reads short)
        (finish_label name_start (c'.label_position.start + 1) l (count_label (label_at l c') c')
          again pos (unfold count_label label_size_with_len in omega arith))

  round_root :
      follow_ptrs m k no_ptr c ≡ ok c'
      → c'.label_position.octets ≡ 0 ∷ rest
      → c'.domain_name_len + 1 ≤ 255
      → walk m k (suc rounds) name_start (x ∷ xs) c
        ≡ ok (record {
          bytes_to_consume = consumed c' 1;
          domain_name = record { self_start = name_start };
        })
  unfolding walk again
  round_root e reads len =
      rw (e, decode_label-ok c'.label_position [] rest reads (omega arith))
        (finish_root name_start (c'.label_position.start + 1) (count_label (label_at [] c') c')
            again (unfold count_label label_size_with_len in omega arith)
          ∙ unfold count_label label_size_with_len in ground arith)

-- The success that a name of `n` octets at the cursor gives.
abbrev success : ℕ → Cursor → ℕ → ParseDomainNameSuccess
success name_start c n = record {
  bytes_to_consume = consumed c n;
  domain_name = record { self_start = name_start };
}

consumed-passed :
    (l : List ℕ) (c : Cursor)
    → length l ≤ 63
    → (n : ℕ) → consumed (passed l c) n ≡ consumed c (length l + 1 + n)
unfolding passed skip_label count_label label_size_with_len
consumed-passed l c short n = ground arith

pub passed_len :
    (l : List ℕ) (c : Cursor)
    → length l ≤ 63
    → (passed l c).domain_name_len ≡ c.domain_name_len + length l + 1
unfolding passed skip_label count_label label_size_with_len
passed_len l c short = omega arith

length-le-name_len : (ls : List (List ℕ)) → length ls < name_len ls
length-le-name_len [] = omega arith
length-le-name_len (l ∷ ls) = omega (arith, length-le-name_len ls)

same_success :
    (name_start a b : ℕ)
    → a ≡ b
    → ◌≡◌ {A = Outcome ParseDomainNameSuccess}
        (ok (record { bytes_to_consume = a; domain_name = record { self_start = name_start } }))
        (ok (record { bytes_to_consume = b; domain_name = record { self_start = name_start } }))
same_success name_start a b e = rw e

module _ (m : List ℕ) (wf : IsMessage m) (k name_start : ℕ) where
  walk-success :
      (ls : List (List ℕ)) (rounds : ℕ) (xs : List ℕ) (c : Cursor) (h n : ℕ)
      → c.label_position.octets ≡ xs
      → IsBytes c.label_position.octets
      → Denotes m h c.label_position ls n
      → h < k
      → length ls < rounds
      → c.domain_name_len + name_len ls ≤ 255
      → walk m k rounds name_start xs c ≡ ok (success name_start c n)
  walk-success ls rounds [] c h n q b d lt more len =
      absurd (omega (arith, ap length q, Denotes-nonempty d))
  walk-success ls zero (x ∷ xs) c h n q b d lt more len = absurd (omega arith)
  walk-success [] (suc rounds) (x ∷ xs) c h n q b d lt more len =
      let a = follow_ptrs-Arrives m wf k no_ptr c d refl lt b (inl refl) in
      let (rest, reads, one) = root_of a.here a.bytes a.plain in
      round_root m k rounds name_start c a.stop x xs rest a.result reads (omega (arith, a.len_same))
      ∙ same_success name_start _ _ (ap (consumed a.stop) (sym one) ∙ sym a.eats)
  walk-success (l ∷ ls) (suc rounds) (x ∷ xs) c h n q b d lt more len =
      let a = follow_ptrs-Arrives m wf k no_ptr c d refl lt b (inl refl) in
      let t = label_of a.here a.bytes a.plain in
      let place = passed_place l a.stop t.short in
      round_label m k rounds name_start c a.stop x xs t.rest l a.result t.reads t.pos t.short
        (omega (arith, a.len_same))
      ∙ walk-success ls rounds (passed l a.stop).label_position.octets (passed l a.stop) t.hops
          t.size refl (rw place (All-drop IsByte (suc (length l)) _ a.bytes)) (rw place t.tail)
          (omega (arith, a.earlier, t.fewer)) (omega arith)
          (omega (arith, a.len_same, passed_len l a.stop t.short))
      ∙ same_success name_start _ _
          (consumed-passed l a.stop t.short t.size ∙ ap (consumed a.stop) (sym t.adds) ∙ sym a.eats)

-- In a message of octets that a span can hold, a name of RFC 1035 (or one
-- whose pointers lead forward) that takes at most 255 octets uncompressed is accepted with its place and its length in octets modulo 256, as soon as the
-- pointer loop may make more rounds than the name has steps: the loop terminates, and the check for
-- pointer loops never refuses it.
pub parse_domain_name_complete :
    (ptr_fuel : ℕ) (m : List ℕ) (s : Span) (h : ℕ) (ls : List (List ℕ)) (n : ℕ)
    → IsMessage m
    → IsBytes s.octets
    → Denotes m h s ls n
    → name_len ls ≤ 255
    → h < ptr_fuel
    → parse_domain_name ptr_fuel m s
      ≡ ok (record { bytes_to_consume = n % 256; domain_name = record { self_start = s.start } })
unfolding parse_domain_name
parse_domain_name_complete ptr_fuel m s h ls n wf b d small lt =
    walk-success m wf ptr_fuel s.start ls 256 s.octets (start_cursor s) h n refl b d lt
      (omega (arith, length-le-name_len ls)) (omega arith)
    ∙ same_success s.start _ _ (omega arith)

-- A name that takes 256 octets in place, the largest number that the size limit leaves room for,
-- with 254 octets of labels and a pointer to a root label, is accepted as one of no octets:
-- `bytes_to_consume` is an uint8_t. A shorter name is accepted with its true length.
pub parse_domain_name-bytes_to_consume :
    (ptr_fuel : ℕ) (m : List ℕ) (s : Span) (h : ℕ) (ls : List (List ℕ)) (n : ℕ)
    → IsMessage m
    → IsBytes s.octets
    → Denotes m h s ls n
    → name_len ls ≤ 255
    → h < ptr_fuel
    → (r : ParseDomainNameSuccess) × (parse_domain_name ptr_fuel m s ≡ ok r)
      × (((n ≡ 256) × (r.bytes_to_consume ≡ 0)) ⊎ ((n ≤ 255) × (r.bytes_to_consume ≡ n)))
parse_domain_name-bytes_to_consume ptr_fuel m s h ls n wf b d small lt = (
  record { bytes_to_consume = n % 256; domain_name = record { self_start = s.start } },
  parse_domain_name_complete ptr_fuel m s h ls n wf b d small lt,
  (let fits = Denotes-occupies d in
      elim (Bool-cases (n == 256)) [
        | inl e ↦ let q : n ≡ 256 = ground arith in inl (q, omega arith)
        | inr e ↦ let q : n ≢ 256 = ground arith in inr (omega arith, omega arith)
      ]),
)
