-- ===== src/Allocator/Reachable.antt =====
-- What a client of `Allocator` does: it allocates, and gives back what it holds, in any order.
use mathlib.Core.Path.{subst}
use corosig.Prelude.{
  ℕ, ◌+◌, ◌*◌, ◌^◌, ◌≤◌, ◌<◌, ◌≡◌, sym, ◌≢◌, inl, inr, List, [], ◌∷◌, ◌++◌, true, false, All,
  All-weaken, All-append, All-left, All-right, arith,
}
use corosig.Allocator.{Allocator, block_size, blocks_amount}
use corosig.Allocator.Allocating.{allocate, pointer}
use corosig.Allocator.Releasing.{deallocate}
use corosig.Allocator.Chunks.{Chunk, total}
use corosig.Allocator.Allocated.{pointer-IsGranted}
use corosig.Allocator.Granted.{IsHeap, IsGranted, split_chunks}
use corosig.Allocator.Deallocate.{deallocate_lem, deallocate-SameMemory}
use corosig.Allocator.Join.{join}
use corosig.Allocator.Regions.{
  Region, IsOwned, AreApart, AreDistinct, owned-AreApart, AreDistinct-middle,
}
use corosig.Allocator.Used.{
  UsedAt, UsedAt-append, UsedAt-bounds, UsedAt-Around, UsedAt-join, UsedAt-split, split-UsedAt,
  split-differ, UsedAt-positive,
}

-- The states that a client reaches from `start`, with the regions that it holds.
pub data Reaches (start : Allocator) : Allocator → List Region → Type 0 where
  built : Reaches start start []
  granted :
      (fuel size m p : ℕ) {a a' : Allocator} {held : List Region}
      → Reaches start a held
      → m ≤ 63
      → a.address + a.size + size + 2 ^ m + block_size ≤ 2 ^ 64
      → allocate fuel size (2 ^ m) a ≡ pointer p a'
      → Reaches start a' ((p, size) ∷ held)
  released :
      (before : List Region) (p size : ℕ) (after : List Region) {a : Allocator}
      → Reaches start a (before ++ (p, size) ∷ after)
      → Reaches start (deallocate p a) (before ++ after)

pub record IsSafe (a : Allocator) (held : List Region) : Type 0 where
  pub chunks : List Chunk
  pub list : List ℕ
  pub heap : IsHeap a chunks list
  pub owned : All (IsOwned a.address chunks) held
  pub distinct : AreDistinct held

-- An allocation leaves the regions that are held, and adds one that is apart from them.
granted-IsSafe :
    (a : Allocator) (held : List Region) (size alignment p : ℕ) (a' : Allocator) (s : IsSafe a held)
    → IsGranted a s.chunks size alignment p a'
    → IsSafe a' ((p, size) ∷ held)
granted-IsSafe a held size alignment p a' s g =
    let start = total g.front + g.skip in
    let cs = split_chunks g.front g.skip g.n g.r g.back in
    let free = g.front ++ (g.skip + (g.n + g.r), false) ∷ g.back in
    let new = split-UsedAt g.front g.skip g.n g.r g.back in
    let positive : 0 < g.n = UsedAt-positive a'.mem start g.n 0 0 cs g.now.tiled.tiles new in
    let exact = g.exact in
    let upper = g.upper in
    let same = g.same_place in
    let old : (r : Region) (h : IsOwned a.address s.chunks r) → UsedAt h.block h.blocks 0 free =
      λ r h. subst (UsedAt h.block h.blocks 0) g.was h.used in
    let alive : (r : Region) (h : IsOwned a.address s.chunks r) → 0 < h.blocks =
      λ r h. UsedAt-positive a.mem h.block h.blocks 0 0 s.chunks s.heap.tiled.tiles h.used in
    record {
      chunks = cs;
      list = g.list;
      heap = g.now;
      owned = (
        record { block = start; blocks = g.n; used = new; exact = omega arith; fits = omega arith },
        All-weaken (IsOwned a.address s.chunks) (IsOwned a'.address cs)
            (λ r h. record {
              block = h.block;
              blocks = h.blocks;
              used = UsedAt-split h.block h.blocks g.front g.skip g.n g.r g.back (old r h);
              exact =
                  subst (λ (k : ℕ). r.0 ≡ k + h.block * block_size + block_size) (sym same) h.exact;
              fits =
                  subst (λ (k : ℕ). r.0 + r.1 ≤ k + (h.block + h.blocks) * block_size) (sym same)
                    h.fits;
            })
            held s.owned,
      );
      distinct = (
        All-weaken (IsOwned a.address s.chunks) (λ q. p ≢ q.0)
            (λ r h z.
              let e = h.exact in
              split-differ h.block h.blocks g.front g.skip g.n g.r g.back (old r h) (alive r h)
                positive (omega arith))
            held s.owned,
        s.distinct,
      );
    }

-- A used chunk other than the one that is given back stays used.
kept-UsedAt :
    (x j : ℕ) (front : List Chunk) (k : ℕ) (back : List Chunk)
    → UsedAt x j 0 (front ++ (k, true) ∷ back)
    → x ≢ total front
    → UsedAt x j 0 (join front k back)
kept-UsedAt x j front k back h ne =
    UsedAt-join x j 0 front k back (elim (UsedAt-append x j 0 front ((k, true) ∷ back) h) [
      | inl l ↦ inl l
      | inr (inl (e, f)) ↦ absurd (ne (omega arith))
      | inr (inr r) ↦ inr r
    ])

kept-IsOwned :
    (address address' p : ℕ) (cs front : List Chunk) (k : ℕ) (back : List Chunk)
    (held : List Region)
    → address' ≡ address
    → p ≡ address + total front * block_size + block_size
    → cs ≡ front ++ (k, true) ∷ back
    → All (IsOwned address cs) held
    → All (λ q. p ≢ q.0) held
    → All (IsOwned address' (join front k back)) held
kept-IsOwned address address' p cs front k back [] same e q h n = tt
kept-IsOwned address address' p cs front k back (r ∷ rs) same e q (h, hs) (n, ns) =
    let exact = h.exact in
    let fits = h.fits in
    let other : h.block ≢ total front = λ z. n (omega arith) in
    (
      record {
        block = h.block;
        blocks = h.blocks;
        used =
            kept-UsedAt h.block h.blocks front k back (subst (UsedAt h.block h.blocks 0) q h.used)
              other;
        exact = subst (λ (m : ℕ). r.0 ≡ m + h.block * block_size + block_size) (sym same) exact;
        fits = subst (λ (m : ℕ). r.0 + r.1 ≤ m + (h.block + h.blocks) * block_size) (sym same) fits;
      },
      kept-IsOwned address address' p cs front k back rs same e q hs ns,
    )

-- A region that is given back leaves the others.
released-IsSafe :
    (a : Allocator) (before : List Region) (p size : ℕ) (after : List Region)
    → IsSafe a (before ++ (p, size) ∷ after)
    → IsSafe (deallocate p a) (before ++ after)
released-IsSafe a before p size after s =
    let owner = IsOwned a.address s.chunks in
    let right = All-right owner before ((p, size) ∷ after) s.owned in
    let own = right.0 in
    let rest =
      All-append owner before after (All-left owner before ((p, size) ∷ after) s.owned) right.1 in
    let (differ, distinct) = AreDistinct-middle before (p, size) after s.distinct in
    let at = UsedAt-Around own.block own.blocks 0 s.chunks own.used in
    let start = at.start in
    let exact = own.exact in
    let heap = subst (λ cs. IsHeap a cs s.list) at.eq s.heap in
    let address : p ≡ a.address + total at.front * block_size + block_size = omega arith in
    let (list, done) = deallocate_lem a at.front own.blocks at.back s.list p heap address in
    let same = (deallocate-SameMemory p a).0 in
    let cs = join at.front own.blocks at.back in
    record {
      chunks = cs;
      list = list;
      heap = done;
      owned =
          kept-IsOwned a.address (deallocate p a).address p s.chunks at.front own.blocks at.back
            (before ++ after) same address at.eq rest differ;
      distinct = distinct;
    }

-- In every state that a client reaches from a heap, the state is a heap, and each region that is
-- held lies in a used chunk of its own.
pub Reaches-IsSafe :
    (start : Allocator) (cs : List Chunk) (list : List ℕ) {a : Allocator} {held : List Region}
    → IsHeap start cs list
    → Reaches start a held
    → IsSafe a held
Reaches-IsSafe start cs list heap built = record {
  chunks = cs;
  list = list;
  heap = heap;
  owned = tt;
  distinct = tt;
}
Reaches-IsSafe start cs list heap (granted fuel size m p {a} {a'} {held} r exponent room e) =
    let s = Reaches-IsSafe start cs list heap r in
    granted-IsSafe a held size (2 ^ m) p a' s
      (pointer-IsGranted a s.chunks s.list fuel size m p a' s.heap exponent room e)
Reaches-IsSafe start cs list heap (released before p size after {a} r) =
    released-IsSafe a before p size after (Reaches-IsSafe start cs list heap r)

-- A client that starts with a heap, asks for sizes and alignments whose sums with the end of the
-- memory stay below 2^64, and gives back only what it holds, never holds two regions that meet:
-- between any two is at least one header. All regions lie inside of the memory.
pub Reaches-AreApart :
    (start : Allocator) (cs : List Chunk) (list : List ℕ) {a : Allocator} {held : List Region}
    → IsHeap start cs list
    → Reaches start a held
    → AreApart held × All (λ r. (a.address ≤ r.0) × (r.0 + r.1 ≤ a.address + a.size)) held
unfolding blocks_amount
Reaches-AreApart start cs list {a} {held} heap r =
    let s = Reaches-IsSafe start cs list heap r in
    let all = s.heap.tiled.all in
    (
      owned-AreApart a.address s.chunks held s.owned s.distinct,
      All-weaken (IsOwned a.address s.chunks)
          (λ q. (a.address ≤ q.0) × (q.0 + q.1 ≤ a.address + a.size))
          (λ q h.
            let (low, high) = UsedAt-bounds h.block h.blocks 0 s.chunks h.used in
            let exact = h.exact in let fits = h.fits in ((omega arith), (omega arith)))
          held s.owned,
    )
