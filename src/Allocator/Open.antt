-- ===== src/Allocator/Open.antt =====
-- The memory of `Allocator` while it is divided anew from block `i` to block `e`.
use mathlib.Core.Path.{subst}
use corosig.Prelude.{
  ℕ, ◌+◌, ◌^◌, ◌<◌, ◌≡◌, refl, sym, ap, ◌∙◌, ◌≢◌, inl, inr, List, [], ◌∷◌, true, false, Bool, arith,
}
use corosig.Allocator.{BlockMetadata, Memory, Allocator, at_block, blocks_amount, set_blocks_owned}
use corosig.Allocator.Chain.{at_block-other, at_block-same}
use corosig.Allocator.Chunks.{Chunk, total, last_size, Tiles, Tiles-frame, Tiles-same, IsHead}
use corosig.Allocator.Frames.{SameShape}
use corosig.Allocator.Owned.{with_owned, with_before, owned-inside, owned-outside}

-- Chunks lie in front and behind; of what is between, the first header has its place in the order
-- and its use. The header behind reads `gap` for the size of what is in front of it.
pub record IsOpen (a : Allocator) (front : List Chunk) (i : ℕ) (u : Bool) (e gap : ℕ)
    (back : List Chunk) : Type 0 where
  pub place : i ≡ total front
  pub inside : i < e
  pub before : (a.mem i).blocks_before ≡ last_size 0 front
  pub used : (a.mem i).is_used ≡ u
  pub head_tiles : Tiles a.mem 0 0 front
  pub back_tiles : Tiles a.mem e gap back
  pub all : e + total back ≡ blocks_amount a

module _ (a : Allocator) (front : List Chunk) (i : ℕ) (u : Bool) (e gap : ℕ)
    (back : List Chunk) where
  -- A change of the header in front.
  pub Open-first :
      (change : BlockMetadata → BlockMetadata) (w : Bool)
      → IsOpen a front i u e gap back
      → (change (a.mem i)).blocks_before ≡ (a.mem i).blocks_before
      → (change (a.mem i)).is_used ≡ w
      → IsOpen (record a { mem = at_block i change a.mem }) front i w e gap back
  unfolding blocks_amount
  Open-first change w o p q =
      let place = o.place in
      let inside = o.inside in
      let same = at_block-same i change a.mem in
      record {
        place = place;
        inside = inside;
        before = ap (λ b. b.blocks_before) same ∙ p ∙ o.before;
        used = ap (λ b. b.is_used) same ∙ q;
        head_tiles = Tiles-frame i change a.mem 0 0 front (inr (omega arith)) o.head_tiles;
        back_tiles = Tiles-frame i change a.mem e gap back (inl inside) o.back_tiles;
        all = o.all;
      }

  -- A change of a header in the middle.
  pub Open-middle :
      (j : ℕ) (change : BlockMetadata → BlockMetadata)
      → i < j
      → j < e
      → IsOpen a front i u e gap back
      → IsOpen (record a { mem = at_block j change a.mem }) front i u e gap back
  unfolding blocks_amount
  Open-middle j change l r o =
      let place = o.place in
      let ne : j ≢ i = λ q. omega arith in
      let same = at_block-other j i change a.mem ne in
      record {
        place = place;
        inside = o.inside;
        before = ap (λ b. b.blocks_before) same ∙ o.before;
        used = ap (λ b. b.is_used) same ∙ o.used;
        head_tiles = Tiles-frame j change a.mem 0 0 front (inr (omega arith)) o.head_tiles;
        back_tiles = Tiles-frame j change a.mem e gap back (inl r) o.back_tiles;
        all = o.all;
      }

  -- Changes of the free list.
  pub Open-same :
      (a' : Allocator)
      → ((j : ℕ) → SameShape (a'.mem j) (a.mem j))
      → ((j : ℕ) → (a.mem j).is_used ≡ true → a'.mem j ≡ a.mem j)
      → blocks_amount a' ≡ blocks_amount a
      → IsOpen a front i u e gap back
      → IsOpen a' front i u e gap back
  Open-same a' s k n o = record {
    place = o.place;
    inside = o.inside;
    before = (s i).before ∙ o.before;
    used = (s i).is_used ∙ o.used;
    head_tiles = Tiles-same a.mem a'.mem 0 0 front s k o.head_tiles;
    back_tiles = Tiles-same a.mem a'.mem e gap back s k o.back_tiles;
    all = o.all ∙ sym n;
  }

-- The first header of what lies behind is told the size of what is in front of it.
Tiles-before :
    (v : ℕ) (mem : Memory) (s b : ℕ) (c : Chunk) (cs : List Chunk)
    → Tiles mem s b (c ∷ cs)
    → Tiles (at_block s (with_before v) mem) s v (c ∷ cs)
Tiles-before v mem s b (k, true) cs ((p, q, r, l, w), t) =
    let same = at_block-same s (with_before v) mem in
    (
      subst (λ m. IsHead m v k true) (sym same) (refl, q, r, l, w),
      Tiles-frame s (with_before v) mem (s + k) k cs (inl (omega arith)) t,
    )
Tiles-before v mem s b (k, false) cs ((p, q, r, l, w), t) =
    let same = at_block-same s (with_before v) mem in
    (
      subst (λ m. IsHead m v k false) (sym same) (refl, q, r, l, w),
      Tiles-frame s (with_before v) mem (s + k) k cs (inl (omega arith)) t,
    )

module _ (a : Allocator) (front : List Chunk) (i v : ℕ) (u : Bool) (e gap : ℕ) (back : List Chunk)
    (small : v < 2 ^ 31) (positive : 0 < v) where
  -- A size that ends in the middle.
  pub owned-cut :
      i + v < e
      → IsOpen a front i u e gap back
      → IsOpen (set_blocks_owned i v a) front i u e gap back
  owned-cut h o =
      let all = o.all in
      let first = Open-first a front i u e gap back (with_owned v) u o refl o.used in
      let a' : Allocator = record a { mem = at_block i (with_owned v) a.mem } in
      subst (λ b. IsOpen b front i u e gap back) (sym (owned-inside i v a small (omega arith)))
        (Open-middle a' front i u e gap back (i + v) (with_before v) (omega arith) h first)

  with_gap :
      (c : Chunk) (cs : List Chunk) (b : Allocator)
      → i + v ≡ e
      → IsOpen b front i u e gap (c ∷ cs)
      → IsOpen (record b { mem = at_block (i + v) (with_before v) b.mem }) front i u e v (c ∷ cs)
  unfolding blocks_amount
  with_gap c cs b h o =
      let place = o.place in
      let ne : i + v ≢ i = λ q. omega arith in
      let same = at_block-other (i + v) i (with_before v) b.mem ne in
      record {
        place = place;
        inside = o.inside;
        before = ap (λ m. m.blocks_before) same ∙ o.before;
        used = ap (λ m. m.is_used) same ∙ o.used;
        head_tiles =
            Tiles-frame (i + v) (with_before v) b.mem 0 0 front (inr (omega arith)) o.head_tiles;
        back_tiles =
            subst (λ (k : ℕ). Tiles (at_block k (with_before v) b.mem) e v (c ∷ cs)) (sym h)
              (Tiles-before v b.mem e gap c cs o.back_tiles);
        all = o.all;
      }

module _ (a : Allocator) (front : List Chunk) (i v : ℕ) (u : Bool) (e gap : ℕ) (small : v < 2 ^ 31)
    (positive : 0 < v) where
  -- A size that reaches what lies behind.
  pub owned-reach :
      (back : List Chunk)
      → i + v ≡ e
      → IsOpen a front i u e gap back
      → IsOpen (set_blocks_owned i v a) front i u e v back
  owned-reach [] h o =
      let all = o.all in
      let first = Open-first a front i u e gap [] (with_owned v) u o refl o.used in
      let first' : IsOpen (record a { mem = at_block i (with_owned v) a.mem }) front i u e v [] =
        record {
          place = first.place;
          inside = first.inside;
          before = first.before;
          used = first.used;
          head_tiles = first.head_tiles;
          back_tiles = tt;
          all = first.all;
        } in
      subst (λ b. IsOpen b front i u e v []) (sym (owned-outside i v a small (omega arith))) first'
  owned-reach (c ∷ cs) h o =
      let all = o.all in
      let l : 0 < c.0 = o.back_tiles.0.3 in
      let first = Open-first a front i u e gap (c ∷ cs) (with_owned v) u o refl o.used in
      subst (λ b. IsOpen b front i u e v (c ∷ cs)) (sym (owned-inside i v a small (omega arith)))
        (with_gap a front i v u e gap (c ∷ cs) small positive c cs
          (record a { mem = at_block i (with_owned v) a.mem }) h first)
