-- ===== src/Dns/Name/Follows.antt =====
-- Where the inner loop of `parse_domain_name` stops at a name of RFC 1035.
use corosig.Prelude.{
  ℕ, zero, suc, ◌+◌, ◌-◌, ◌*◌, ◌%◌, ◌^◌, ◌≤◌, ◌<◌, ◌≡◌, refl, sym, ap, ◌∙◌, ◌⊎◌, inl, inr, Bool,
  true, false, List, ◌∷◌, ◌++◌, none, some, length, ltb, ◌==◌, if◌then◌else◌, arith, Bool-cases,
}
use corosig.Dns.Errors.{Outcome, ok}
use corosig.Dns.Span.{Span, whole, subspan, IsByte, IsBytes}
use corosig.Dns.Wire.{decode_compression_ptr}
use corosig.Dns.Wire.Octets.{decode_compression_ptr-none, decode_compression_ptr-some}
use corosig.Dns.Name.Denotes.{IsMessage, Denotes, root, label, pointer, hops_unique}
use corosig.Dns.Name.Rounds.{consumed, jump-IsBytes}
use corosig.Dns.Name.{
  Cursor, jump, follow_ptrs, last_index, no_ptr, label_size_with_len, count_label, skip_label,
}

-- Where the inner loop stops at a name: not at a pointer, and no later in the name.
pub record Arrives (m : List ℕ) (c : Cursor) (h : ℕ) (ls : List (List ℕ)) (n : ℕ)
    (r : Outcome Cursor) : Type 0 where
  pub stop : Cursor
  pub result : r ≡ ok stop
  pub hops : ℕ
  pub size : ℕ
  pub here : Denotes m hops stop.label_position ls size
  pub earlier : hops ≤ h
  pub eats : consumed c n ≡ consumed stop size
  pub len_same : stop.domain_name_len ≡ c.domain_name_len
  pub bytes : IsBytes stop.label_position.octets
  pub plain : decode_compression_ptr stop.label_position.octets ≡ none

abbrev pub label_at : List ℕ → Cursor → Span
label_at l c = record { start = c.label_position.start + 1; octets = l }

-- The cursor behind a label that was counted.
unfoldable pub passed : List ℕ → Cursor → Cursor
passed l c = skip_label (label_at l c) (count_label (label_at l c) c)

pub passed_place :
    (l : List ℕ) (c : Cursor)
    → length l ≤ 63
    → (passed l c).label_position ≡ subspan (suc (length l)) c.label_position
unfolding passed skip_label count_label label_size_with_len
passed_place l c short =
    ap (λ (j : ℕ). subspan j c.label_position)
      (let e : (length l + 1) % 256 ≡ suc (length l) = omega arith in e)

module _ (m : List ℕ) (wf : IsMessage m) where
  -- `first` is a pointer that the name goes through before the place `h` steps from its end.
  abbrev Unseen : ℕ → ℕ → Type 0
  Unseen first h =
      (first ≡ no_ptr)
      ⊎ ((h' : ℕ) × (ls : List (List ℕ)) × (n : ℕ) × Denotes m h' (subspan first (whole m)) ls n
          × (h ≤ h'))

  stops :
      (fuel first : ℕ) (c : Cursor) {h : ℕ} {ls : List (List ℕ)} {n : ℕ}
      → IsBytes c.label_position.octets
      → Denotes m h c.label_position ls n
      → decode_compression_ptr c.label_position.octets ≡ none
      → Arrives m c h ls n (follow_ptrs m (suc fuel) first c)
  unfolding follow_ptrs
  stops fuel first c {h} {n} b d e = record {
    stop = c;
    result = rw (e, follow_ptrs);
    hops = h;
    size = n;
    here = d;
    earlier = omega arith;
    eats = refl;
    len_same = refl;
    bytes = b;
    plain = e;
  }

  not_first :
      (first ptr : ℕ) {h : ℕ} {ls : List (List ℕ)} {n : ℕ}
      → Unseen first (suc h)
      → ptr < 16384
      → Denotes m h (subspan ptr (whole m)) ls n
      → (ptr == first) ≡ false
  not_first first ptr (inl e) small d = ground arith
  not_first first ptr {h} (inr (h', ls, n, d', le)) small d = elim (Bool-cases (ptr == first)) [
    | inl same ↦
        let eq : ptr ≡ first = ground arith in
        absurd (omega (arith, hops_unique d d' (ap (λ (p : ℕ). subspan p (whole m)) eq)))
    | inr other ↦ other
  ]

  next_first :
      (first ptr : ℕ) (b : Bool) {h : ℕ} {ls : List (List ℕ)} {n : ℕ}
      → Unseen first (suc h)
      → Denotes m h (subspan ptr (whole m)) ls n
      → Unseen (if b then ptr else first) h
  next_first first ptr true {h} {ls} {n} u d = inr (h, ls, n, d, omega arith)
  next_first first ptr false (inl e) d = inl e
  next_first first ptr false (inr (h', ls, n, d', le)) d = inr (h', ls, n, d', omega arith)

  ptr_fits : (hi lo : ℕ) → IsByte hi → IsByte lo → (hi - 192) * 256 + lo < 16384
  ptr_fits hi lo h l = omega arith

  -- A round at a pointer that is in bounds and not `first` goes on behind it.
  follow_step :
      (fuel first ptr : ℕ) (c : Cursor)
      → decode_compression_ptr c.label_position.octets ≡ some ptr
      → ptr < length m
      → (ptr == first) ≡ false
      → follow_ptrs m (suc fuel) first c
        ≡ follow_ptrs m fuel (if c.first_ptr then ptr else first) (jump m ptr c)
  unfolding follow_ptrs last_index
  follow_step fuel first ptr c e inside new =
      let bounded : ltb (last_index m) ptr ≡ false =
        let f : length m < 2 ^ 64 = wf.fits in unfold last_index in ground arith in
      rw (e, follow_ptrs) (rw (bounded, new))

  jump-Arrives :
      (fuel first ptr hi lo : ℕ) (rest : List ℕ) (c : Cursor) {h : ℕ} {ls : List (List ℕ)} {n k : ℕ}
      → IsBytes c.label_position.octets
      → Unseen first (suc h)
      → c.label_position.octets ≡ hi ∷ lo ∷ rest
      → 192 ≤ hi
      → ptr ≡ (hi - 192) * 256 + lo
      → ptr < length m
      → Denotes m h (subspan ptr (whole m)) ls n
      → k ≡ 2
      → Arrives m
          (jump m ptr c)
          h
          ls
          n
          (follow_ptrs m fuel (if c.first_ptr then ptr else first) (jump m ptr c))
      → Arrives m c (suc h) ls k (follow_ptrs m (suc fuel) first c)
  unfolding jump
  jump-Arrives fuel first ptr hi lo rest c b u e marked o inside d two a =
      let all : IsBytes (hi ∷ lo ∷ rest) = rw e at b in
      let found : decode_compression_ptr c.label_position.octets ≡ some ptr =
        decode_compression_ptr-some c.label_position.octets b e marked ∙ ap some (sym o) in
      let new : (ptr == first) ≡ false =
        not_first first ptr u (rw o (ptr_fits hi lo all.0 all.1.0)) d in
      record {
        stop = a.stop;
        result = follow_step fuel first ptr c found inside new ∙ a.result;
        hops = a.hops;
        size = a.size;
        here = a.here;
        earlier = omega (arith, a.earlier);
        eats = rw two a.eats;
        len_same = a.len_same;
        bytes = a.bytes;
        plain = a.plain;
      }

  pub follow_ptrs-Arrives :
      (fuel first : ℕ) (c : Cursor) {h : ℕ} {s : Span} {ls : List (List ℕ)} {n : ℕ}
      → Denotes m h s ls n
      → c.label_position ≡ s
      → h < fuel
      → IsBytes c.label_position.octets
      → Unseen first h
      → Arrives m c h ls n (follow_ptrs m fuel first c)
  unfolding jump
  follow_ptrs-Arrives zero first c d q lt b u = absurd (omega arith)
  follow_ptrs-Arrives (suc fuel) first c (root rest e z o) q lt b u =
      let reads : c.label_position.octets ≡ 0 ∷ rest = ap (λ (t : Span). t.octets) q ∙ e in
      stops fuel first c b (rw q (root rest e z o))
        (decode_compression_ptr-none _ b reads (omega arith))
  follow_ptrs-Arrives (suc fuel) first c (label {l} rest e pos short d k) q lt b u =
      let reads : c.label_position.octets ≡ length l ∷ (l ++ rest) =
        ap (λ (t : Span). t.octets) q ∙ e in
      stops fuel first c b (rw q (label rest e pos short d k))
        (decode_compression_ptr-none _ b reads (omega arith))
  follow_ptrs-Arrives (suc fuel) first c (pointer ptr hi lo rest e marked o inside d two) q lt b u =
      jump-Arrives fuel first ptr hi lo rest c b u (ap (λ (t : Span). t.octets) q ∙ e) marked o
        inside d two
        (follow_ptrs-Arrives fuel (if c.first_ptr then ptr else first) (jump m ptr c) d refl
          (omega arith) (jump-IsBytes m wf ptr c) (next_first first ptr c.first_ptr u d))
