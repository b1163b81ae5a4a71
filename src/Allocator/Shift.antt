-- ===== src/Allocator/Shift.antt =====
-- Chunks of `Allocator` are taken out of the order, put back, and cut.
use mathlib.Core.Path.{subst}
use mathlib.Core.List.{Perm}
use corosig.Prelude.{
  ℕ, ◌+◌, ◌<◌, ◌≡◌, refl, sym, ap, ◌∙◌, List, [], ◌∷◌, ◌++◌, true, false, Bool, arith,
}
use corosig.Allocator.{Allocator, blocks_amount}
use corosig.Allocator.Chunks.{
  Chunk, total, last_size, Tiles, Tiles-append, Tiles-split, frees, frees-append, IsHead, Rests,
  total-append,
}
use corosig.Allocator.Open.{IsOpen}
use corosig.Allocator.Heap.{IsTiled, IsListed, IsHole}

pub last_size-append :
    (b : ℕ) (cs : List Chunk) (k : ℕ) (u : Bool) → last_size b (cs ++ (k, u) ∷ []) ≡ k
last_size-append b [] k u = refl
last_size-append b ((j, v) ∷ cs) k u = last_size-append j cs k u

pub total-snoc : (cs : List Chunk) (k : ℕ) (u : Bool) → total (cs ++ (k, u) ∷ []) ≡ total cs + k
total-snoc cs k u = omega (arith, total-append cs ((k, u) ∷ []))

pub frees-used :
    (front : List Chunk) (k : ℕ) (back : List Chunk)
    → frees 0 (front ++ (k, true) ∷ back) ≡ frees 0 front ++ frees (total front + k) back
frees-used front k back =
    let e : 0 + total front + k ≡ total front + k = omega arith in
    frees-append 0 front ((k, true) ∷ back) ∙ ap (λ (t : ℕ). frees 0 front ++ frees t back) e

pub frees-free :
    (front : List Chunk) (k : ℕ) (back : List Chunk)
    → frees 0 (front ++ (k, false) ∷ back)
      ≡ frees 0 front ++ total front ∷ frees (total front + k) back
frees-free front k back =
    let e : 0 + total front ≡ total front = omega arith in
    frees-append 0 front ((k, false) ∷ back)
    ∙ ap (λ (t : ℕ). frees 0 front ++ t ∷ frees (t + k) back) e

pub Tiles-IsOpen :
    (a : Allocator) (front : List Chunk) (k : ℕ) (u : Bool) (back : List Chunk)
    → Tiles a.mem 0 0 (front ++ (k, u) ∷ back)
    → total (front ++ (k, u) ∷ back) ≡ blocks_amount a
    → IsOpen a front (total front) u (total front + k) k back
Tiles-IsOpen a front k u back t n =
    let e : 0 + total front ≡ total front = omega arith in
    let (head, (h, tail)) = Tiles-split a.mem 0 0 front ((k, u) ∷ back) t in
    let h' = subst (λ (s : ℕ). IsHead (a.mem s) (last_size 0 front) k u) e h in
    let positive : 0 < k = h.3 in
    record {
      place = refl;
      inside = omega arith;
      before = h'.0;
      used = h'.1;
      head_tiles = head;
      back_tiles = subst (λ (s : ℕ). Tiles a.mem (s + k) k back) e tail;
      all = omega (arith, total-append front ((k, u) ∷ back));
    }

pub tiles-owned :
    (a : Allocator) (front : List Chunk) (k : ℕ) (u : Bool) (back : List Chunk)
    → Tiles a.mem 0 0 (front ++ (k, u) ∷ back)
    → IsHead (a.mem (total front)) (last_size 0 front) k u
tiles-owned a front k u back t =
    let e : 0 + total front ≡ total front = omega arith in
    let (head, (h, tail)) = Tiles-split a.mem 0 0 front ((k, u) ∷ back) t in
    subst (λ (s : ℕ). IsHead (a.mem s) (last_size 0 front) k u) e h

module _ (a : Allocator) (front : List Chunk) (i : ℕ) (u : Bool) (e gap : ℕ) (back : List Chunk)
    (k : ℕ) where
  pub open-Tiles :
      IsOpen a front i u e gap back
      → (a.mem i).blocks_owned ≡ k
      → i + k ≡ e
      → gap ≡ k
      → Rests u (a.mem i)
      → Tiles a.mem 0 0 (front ++ (k, u) ∷ back)
  open-Tiles o q p g r =
      let place = o.place in
      let inside = o.inside in
      let l : 0 < k = omega arith in
      let s : i ≡ 0 + total front = omega arith in
      let head : IsHead (a.mem i) (last_size 0 front) k u = (o.before, o.used, q, l, r) in
      let tail : Tiles a.mem (i + k) k back =
        subst (λ (n : ℕ). Tiles a.mem (i + k) n back) g
          (subst (λ (n : ℕ). Tiles a.mem n gap back) (sym p) o.back_tiles) in
      Tiles-append a.mem 0 0 front ((k, u) ∷ back) o.head_tiles
        (subst (λ (n : ℕ). Tiles a.mem n (last_size 0 front) ((k, u) ∷ back)) s (head, tail))

  pub open-total :
      IsOpen a front i u e gap back → i + k ≡ e → total (front ++ (k, u) ∷ back) ≡ blocks_amount a
  open-total o p =
      let place = o.place in let all = o.all in omega (arith, total-append front ((k, u) ∷ back))

  -- The first `k` blocks are a chunk now, and what is left comes behind it.
  pub shift-IsOpen :
      (w : Bool)
      → IsOpen a front i u e gap back
      → (a.mem i).blocks_owned ≡ k
      → Rests u (a.mem i)
      → 0 < k
      → i + k < e
      → (a.mem (i + k)).blocks_before ≡ k
      → (a.mem (i + k)).is_used ≡ w
      → IsOpen a (front ++ (k, u) ∷ []) (i + k) w e gap back
  shift-IsOpen w o q r l h b v =
      let place = o.place in
      let s : i ≡ 0 + total front = omega arith in
      let head : IsHead (a.mem i) (last_size 0 front) k u = (o.before, o.used, q, l, r) in
      record {
        place = omega (arith, total-snoc front k u);
        inside = h;
        before = b ∙ sym (last_size-append 0 front k u);
        used = v;
        head_tiles =
            Tiles-append a.mem 0 0 front ((k, u) ∷ []) o.head_tiles
              (subst (λ (n : ℕ). Tiles a.mem n (last_size 0 front) ((k, u) ∷ [])) s (head, tt));
        back_tiles = o.back_tiles;
        all = o.all;
      }

-- A chunk that is in the list is whole.
pub listed-IsTiled :
    (a : Allocator) (front : List Chunk) (i e gap : ℕ) (back : List Chunk) (list : List ℕ) (k : ℕ)
    → IsListed a front i e gap back list
    → (a.mem i).blocks_owned ≡ k
    → i + k ≡ e
    → gap ≡ k
    → IsTiled a (front ++ (k, false) ∷ back) list
listed-IsTiled a front i e gap back list k h q p g =
    let o = h.layout in
    let place = o.place in
    let end : e ≡ total front + k = omega arith in
    record {
      tiles = open-Tiles a front i false e gap back k o q p g tt;
      all = open-total a front i false e gap back k o p;
      small = h.small;
      listed = h.listed;
      members =
          subst (Perm list)
            (ap (λ (t : ℕ). frees 0 front ++ i ∷ frees t back) end
              ∙ ap (λ (t : ℕ). frees 0 front ++ t ∷ frees (total front + k) back) place
              ∙ sym (frees-free front k back))
            h.members;
    }

pub hole-IsTiled :
    (a : Allocator) (front : List Chunk) (i e gap : ℕ) (back : List Chunk) (list : List ℕ) (k : ℕ)
    → IsHole a front i true e gap back list
    → (a.mem i).blocks_owned ≡ k
    → i + k ≡ e
    → gap ≡ k
    → IsTiled a (front ++ (k, true) ∷ back) list
hole-IsTiled a front i e gap back list k h q p g =
    let o = h.layout in
    let place = o.place in
    let end : e ≡ total front + k = omega arith in
    record {
      tiles = open-Tiles a front i true e gap back k o q p g h.rest;
      all = open-total a front i true e gap back k o p;
      small = h.small;
      listed = h.listed;
      members =
          subst (Perm list)
            (ap (λ (t : ℕ). frees 0 front ++ frees t back) end ∙ sym (frees-used front k back))
            h.members;
    }

pub tiled-IsListed :
    (a : Allocator) (front : List Chunk) (k : ℕ) (back : List Chunk) (list : List ℕ)
    → IsTiled a (front ++ (k, false) ∷ back) list
    → IsListed a front (total front) (total front + k) k back list
tiled-IsListed a front k back list h = record {
  layout = Tiles-IsOpen a front k false back h.tiles h.all;
  small = h.small;
  listed = h.listed;
  members = subst (Perm list) (frees-free front k back) h.members;
}

pub tiled-IsHole :
    (a : Allocator) (front : List Chunk) (k : ℕ) (back : List Chunk) (list : List ℕ)
    → IsTiled a (front ++ (k, true) ∷ back) list
    → IsHole a front (total front) true (total front + k) k back list
tiled-IsHole a front k back list h = record {
  layout = Tiles-IsOpen a front k true back h.tiles h.all;
  small = h.small;
  listed = h.listed;
  members = subst (Perm list) (frees-used front k back) h.members;
  rest = (tiles-owned a front k true back h.tiles).4;
}
