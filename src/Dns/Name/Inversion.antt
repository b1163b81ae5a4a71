-- ===== src/Dns/Name/Inversion.antt =====
-- The labels that octets denote, taken apart, for `parse_domain_name` of Protocol.cpp.
use corosig.Prelude.{ℕ, suc, ◌+◌, ◌≤◌, ◌≡◌, List, [], ◌∷◌, ◌++◌, none, length, arith}
use corosig.Dns.Span.{Span, subspan, IsBytes}
use corosig.Dns.Wire.{decode_compression_ptr}
use corosig.Dns.Wire.Octets.{decode_compression_ptr-some}
use corosig.Dns.Name.Denotes.{Denotes, root, label, pointer}

pub record LabelOf (m : List ℕ) (h : ℕ) (s : Span) (l : List ℕ) (ls : List (List ℕ)) (n : ℕ)
    : Type 0 where
  pub rest : List ℕ
  pub reads : s.octets ≡ length l ∷ (l ++ rest)
  pub pos : 1 ≤ length l
  pub short : length l ≤ 63
  pub hops : ℕ
  pub size : ℕ
  pub tail : Denotes m hops (subspan (suc (length l)) s) ls size
  pub fewer : hops ≤ h
  pub adds : n ≡ length l + 1 + size

module _ {m : List ℕ} where
  -- A name at a place that is no pointer, taken apart.
  pub root_of :
      {h : ℕ} {s : Span} {n : ℕ}
      → Denotes m h s [] n
      → IsBytes s.octets
      → decode_compression_ptr s.octets ≡ none
      → (rest : List ℕ) × (s.octets ≡ 0 ∷ rest) × (n ≡ 1)
  root_of (root rest e _ o) b plain = (rest, e, o)
  root_of (pointer ptr hi lo rest e marked _ _ _ _) b plain =
      cc (decode_compression_ptr-some _ b e marked)

  pub label_of :
      {h : ℕ} {s : Span} {l : List ℕ} {ls : List (List ℕ)} {n : ℕ}
      → Denotes m h s (l ∷ ls) n
      → IsBytes s.octets
      → decode_compression_ptr s.octets ≡ none
      → LabelOf m h s l ls n
  label_of (label {h} {n} r e lo hi d k) b plain = record {
    rest = r;
    reads = e;
    pos = lo;
    short = hi;
    hops = h;
    size = n;
    tail = d;
    fewer = omega arith;
    adds = k;
  }
  label_of (pointer ptr hi lo rest e marked _ _ _ _) b plain =
      cc (decode_compression_ptr-some _ b e marked)

  pub Denotes-nonempty :
      {h : ℕ} {s : Span} {ls : List (List ℕ)} {n : ℕ} → Denotes m h s ls n → 1 ≤ length s.octets
  Denotes-nonempty (root r e _ _) = rw e (omega arith)
  Denotes-nonempty (label r e _ _ _ _) = rw e (omega arith)
  Denotes-nonempty (pointer _ _ _ r e _ _ _ _ _) = rw e (omega arith)
