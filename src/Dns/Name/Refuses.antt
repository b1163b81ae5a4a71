-- ===== src/Dns/Name/Refuses.antt =====
-- `parse_domain_name` of Protocol.cpp on a name that is too long.
use corosig.Prelude.{
  ℕ, zero, suc, ◌+◌, ◌≤◌, ◌<◌, ◌≡◌, refl, ap, ◌∙◌, inl, inr, List, [], ◌∷◌, ◌++◌, length, All-drop,
  ltb, true, arith, Bool-cases,
}
use corosig.Dns.Errors.{Outcome, ok, fail, name_len_too_big}
use corosig.Dns.Span.{Span, IsByte, IsBytes}
use corosig.Dns.Name.Denotes.{IsMessage, Denotes, name_len}
use corosig.Dns.Name.Rounds.{decode_label-ok}
use corosig.Dns.Name.{
  Cursor, ParseDomainNameSuccess, follow_ptrs, no_ptr, label_size_with_len, count_label,
  finish_round, walk, start_cursor, parse_domain_name,
}
use corosig.Dns.Name.Inversion.{Denotes-nonempty, label_of, root_of}
use corosig.Dns.Name.Follows.{passed, follow_ptrs-Arrives, label_at, passed_place}
use corosig.Dns.Name.Complete.{round_label, passed_len}

finish_too_long :
    (name_start : ℕ) (lab : Span) (c : Cursor) (again : Cursor → Outcome ParseDomainNameSuccess)
    → 256 ≤ c.domain_name_len
    → finish_round name_start lab c again ≡ fail name_len_too_big
unfolding finish_round
finish_too_long name_start lab c again long =
    let e : ltb 255 c.domain_name_len ≡ true = ground arith in rw e refl

-- A round whose label makes the name too long.
round_too_long :
    (m : List ℕ) (k rounds name_start : ℕ) (c c' : Cursor) (x : ℕ) (xs l rest : List ℕ)
    → follow_ptrs m k no_ptr c ≡ ok c'
    → c'.label_position.octets ≡ length l ∷ (l ++ rest)
    → length l ≤ 63
    → 256 ≤ c'.domain_name_len + length l + 1
    → walk m k (suc rounds) name_start (x ∷ xs) c ≡ fail name_len_too_big
unfolding walk
round_too_long m k rounds name_start c c' x xs l rest e reads short len =
    rw (e, decode_label-ok c'.label_position l rest reads short)
      (finish_too_long name_start (label_at l c') (count_label (label_at l c') c')
        (λ n. walk m k rounds name_start n.label_position.octets n)
        (unfold count_label label_size_with_len in omega arith))

module _ (m : List ℕ) (wf : IsMessage m) (k name_start : ℕ) where
  walk-refuses :
      (ls : List (List ℕ)) (rounds : ℕ) (xs : List ℕ) (c : Cursor) (h n : ℕ)
      → c.label_position.octets ≡ xs
      → IsBytes c.label_position.octets
      → Denotes m h c.label_position ls n
      → h < k
      → 256 ≤ c.domain_name_len + rounds
      → c.domain_name_len ≤ 255
      → 256 ≤ c.domain_name_len + name_len ls
      → walk m k rounds name_start xs c ≡ fail name_len_too_big
  walk-refuses ls rounds [] c h n q b d lt more small len =
      absurd (omega (arith, ap length q, Denotes-nonempty d))
  walk-refuses ls zero (x ∷ xs) c h n q b d lt more small len = absurd (omega arith)
  walk-refuses [] (suc rounds) (x ∷ xs) c h n q b d lt more small len =
      let a = follow_ptrs-Arrives m wf k no_ptr c d refl lt b (inl refl) in
      let (rest, reads, one) = root_of a.here a.bytes a.plain in
      round_too_long m k rounds name_start c a.stop x xs [] rest a.result reads (omega arith)
        (omega (arith, a.len_same))
  walk-refuses (l ∷ ls) (suc rounds) (x ∷ xs) c h n q b d lt more small len =
      let a = follow_ptrs-Arrives m wf k no_ptr c d refl lt b (inl refl) in
      let t = label_of a.here a.bytes a.plain in
      let place = passed_place l a.stop t.short in
      let grows = passed_len l a.stop t.short in
      elim (Bool-cases (ltb 255 (a.stop.domain_name_len + length l + 1))) [
        | inl e ↦
            round_too_long m k rounds name_start c a.stop x xs l t.rest a.result t.reads t.short
              (ground arith)
        | inr e ↦
            let fits : a.stop.domain_name_len + length l + 1 ≤ 255 = ground arith in
            round_label m k rounds name_start c a.stop x xs t.rest l a.result t.reads t.pos t.short
              fits
            ∙ walk-refuses ls rounds (passed l a.stop).label_position.octets (passed l a.stop)
                t.hops t.size refl (rw place (All-drop IsByte (suc (length l)) _ a.bytes))
                (rw place t.tail) (omega (arith, a.earlier, t.fewer))
                (omega (arith, a.len_same, grows)) (omega (arith, a.len_same, grows))
                (omega (arith, a.len_same, grows))
      ]

-- In a message of octets that a span can hold, a name that takes 256 octets or more uncompressed is
-- refused for its length, when the pointer loop may make more rounds than the name has steps.
pub parse_domain_name-refuses :
    (ptr_fuel : ℕ) (m : List ℕ) (s : Span) (h : ℕ) (ls : List (List ℕ)) (n : ℕ)
    → IsMessage m
    → IsBytes s.octets
    → Denotes m h s ls n
    → 256 ≤ name_len ls
    → h < ptr_fuel
    → parse_domain_name ptr_fuel m s ≡ fail name_len_too_big
unfolding parse_domain_name
parse_domain_name-refuses ptr_fuel m s h ls n wf b d long lt =
    walk-refuses m wf ptr_fuel s.start ls 256 s.octets (start_cursor s) h n refl b d lt
      (omega arith) (omega arith) (omega arith)
