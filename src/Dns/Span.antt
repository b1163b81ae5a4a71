-- ===== src/Dns/Span.antt =====
-- std::span over the octets of one message. A pointer is the distance from the message's first
-- octet, which is how `m_original_message_start` and `m_self_start` are used.
use mathlib.Core.Path.{subst}
use mathlib.Core.List.{append-nil}
use corosig.Prelude.{
  ℕ, ◌+◌, ◌-◌, ◌≤◌, ◌<◌, ◌≡◌, sym, ap, ◌∙◌, List, [], ◌++◌, length, drop, All, All-left, All-drop,
  length-drop, length-append, drop-append, drop-drop, arith,
}

pub record Span : Type 0 where
  pub start : ℕ
  pub octets : List ℕ

-- The span of a whole message.
abbrev pub whole : List ℕ → Span
whole m = record { start = 0; octets = m }

-- `subspan(n)`, for n at most the size.
abbrev pub subspan : ℕ → Span → Span
subspan n s = record { start = s.start + n; octets = drop n s.octets }

abbrev pub IsByte : ℕ → Type 0
IsByte b = b < 256

abbrev pub IsBytes : List ℕ → Type 0
IsBytes = All IsByte

-- The octets of the span are octets of the message at its place.
pub record IsWithin (m : List ℕ) (s : Span) : Type 0 where
  pub beyond : List ℕ
  pub here : drop s.start m ≡ s.octets ++ beyond
  pub inside : s.start ≤ length m

-- A later part of a span of the message is a span of the message.
pub IsWithin-subspan :
    (m : List ℕ) (s : Span) (n : ℕ) → n ≤ length s.octets → IsWithin m s → IsWithin m (subspan n s)
IsWithin-subspan m s n fits w = record {
  beyond = w.beyond;
  here = sym (drop-drop n s.start m) ∙ ap (drop n) w.here ∙ drop-append n s.octets w.beyond fits;
  inside =
      omega
        (arith, ap length w.here, length-drop s.start m, length-append s.octets w.beyond, w.inside);
}

pub IsWithin-whole : (m : List ℕ) → IsWithin m (whole m)
IsWithin-whole m = record { beyond = []; here = sym (append-nil m); inside = omega arith }

pub IsWithin-IsBytes : (m : List ℕ) (s : Span) → IsBytes m → IsWithin m s → IsBytes s.octets
IsWithin-IsBytes m s b w =
    All-left IsByte s.octets w.beyond (subst IsBytes w.here (All-drop IsByte s.start m b))

-- `rest` is what is left of `s` behind at least `c` of its octets.
abbrev pub Advances : ℕ → Span → Span → Type 0
Advances c s rest = (k : ℕ) × (rest ≡ subspan k s) × (k ≤ length s.octets) × (c ≤ k)

pub Advances-trans :
    (a b : ℕ) (s t u : Span) → Advances a s t → Advances b t u → Advances (a + b) s u
Advances-trans a b s t u (k, e, f, g) (j, e', f', g') =
    let moved : subspan j (subspan k s) ≡ subspan (k + j) s = λ i. record {
      start = (let x : s.start + k + j ≡ s.start + (k + j) = omega arith in x) i;
      octets = drop-drop j k s.octets i;
    } in
    let left : length t.octets ≡ length s.octets - k =
      ap (λ (x : Span). length x.octets) e ∙ length-drop k s.octets in
    (k + j, e' ∙ ap (subspan j) e ∙ moved, omega arith, omega arith)

pub Advances-IsWithin :
    (m : List ℕ) (c : ℕ) (s t : Span) → Advances c s t → IsWithin m s → IsWithin m t
Advances-IsWithin m c s t (k, e, f, g) w = subst (IsWithin m) (sym e) (IsWithin-subspan m s k f w)
