-- ===== src/Allocator/Regions.antt =====
-- The regions that a client of `Allocator` holds, and when they do not meet.
use corosig.Prelude.{
  ℕ, ◌+◌, ◌*◌, ◌≤◌, ◌≡◌, sym, ◌≢◌, ◌⊎◌, inl, inr, List, [], ◌∷◌, ◌++◌, All, All-append, All-left,
  All-right, arith,
}
use corosig.Allocator.{block_size}
use corosig.Allocator.Chunks.{Chunk}
use corosig.Allocator.Used.{UsedAt, UsedAt-apart}

-- An address that the client holds, and the octets that it has asked for.
abbrev pub Region : Type 0
Region = ℕ × ℕ

-- The region lies in a used chunk, behind its header.
pub record IsOwned (address : ℕ) (cs : List Chunk) (region : Region) : Type 0 where
  pub block : ℕ
  pub blocks : ℕ
  pub used : UsedAt block blocks 0 cs
  pub exact : region.0 ≡ address + block * block_size + block_size
  pub fits : region.0 + region.1 ≤ address + (block + blocks) * block_size

-- Two regions do not meet, and between them is room for a header.
abbrev pub IsApart : Region → Region → Type 0
IsApart (p, size) (q, count) = (p + size + block_size ≤ q) ⊎ (q + count + block_size ≤ p)

abbrev pub AreApart : List Region → Type 0
AreApart [] = Unit {0}
AreApart (r ∷ rs) = All (IsApart r) rs × AreApart rs

abbrev pub AreDistinct : List Region → Type 0
AreDistinct [] = Unit {0}
AreDistinct (r ∷ rs) = All (λ q. r.0 ≢ q.0) rs × AreDistinct rs

-- Regions in different chunks do not meet.
owned-IsApart :
    (address : ℕ) (cs : List Chunk) (r q : Region)
    → IsOwned address cs r
    → IsOwned address cs q
    → r.0 ≢ q.0
    → IsApart r q
owned-IsApart address cs r q h g ne =
    let e = h.exact in
    let e' = g.exact in
    let f = h.fits in
    let f' = g.fits in
    let different : h.block ≢ g.block = λ z. ne (omega arith) in
    elim (UsedAt-apart h.block h.blocks g.block g.blocks 0 cs h.used g.used different) [
      | inl l ↦ inl (omega arith)
      | inr l ↦ inr (omega arith)
    ]

IsApart-from :
    (address : ℕ) (cs : List Chunk) (r : Region) (rs : List Region)
    → IsOwned address cs r
    → All (IsOwned address cs) rs
    → All (λ q. r.0 ≢ q.0) rs
    → All (IsApart r) rs
IsApart-from address cs r [] h hs n = tt
IsApart-from address cs r (q ∷ qs) h (g, gs) (n, ns) =
    (owned-IsApart address cs r q h g n, IsApart-from address cs r qs h gs ns)

pub owned-AreApart :
    (address : ℕ) (cs : List Chunk) (held : List Region)
    → All (IsOwned address cs) held
    → AreDistinct held
    → AreApart held
owned-AreApart address cs [] h d = tt
owned-AreApart address cs (r ∷ rs) (h, hs) (n, d) =
    (IsApart-from address cs r rs h hs n, owned-AreApart address cs rs hs d)

pub AreDistinct-middle :
    (xs : List Region) (y : Region) (ys : List Region)
    → AreDistinct (xs ++ y ∷ ys)
    → All (λ q. y.0 ≢ q.0) (xs ++ ys) × AreDistinct (xs ++ ys)
AreDistinct-middle [] y ys d = d
AreDistinct-middle (x ∷ xs) y ys (n, d) =
    let (n', d') = AreDistinct-middle xs y ys d in
    let right = All-right (λ q. x.0 ≢ q.0) xs (y ∷ ys) n in
    (
      ((λ e. right.0 (sym e)), n'),
      (All-append (λ q. x.0 ≢ q.0) xs ys (All-left (λ q. x.0 ≢ q.0) xs (y ∷ ys) n) right.1, d'),
    )
