-- ===== src/Allocator/Owned.antt =====
-- `Allocator::set_blocks_owned`: what it writes, and what it leaves.
use mathlib.Core.Path.{subst}
use corosig.Prelude.{
  ℕ, ◌+◌, ◌%◌, ◌^◌, ◌≤◌, ◌<◌, ltb, ◌≡◌, sym, ap, ◌∙◌, ◌≢◌, inl, inr, false, Bool-cases, arith,
  lt→ltb, ltb→lt, ltb→ge,
}
use corosig.Allocator.{
  BlockMetadata, Allocator, at_block, on_block, blocks_amount, set_blocks_owned,
}
use corosig.Allocator.Chain.{at_block-other, at_block-same}

abbrev pub with_owned : ℕ → BlockMetadata → BlockMetadata
with_owned v b = record b { blocks_owned = v }

abbrev pub with_before : ℕ → BlockMetadata → BlockMetadata
with_before v b = record b { blocks_before = v }

module _ (i v : ℕ) (a : Allocator) (small : v < 2 ^ 31) where
  pub owned-inside :
      i + v < blocks_amount a
      → set_blocks_owned i v a
        ≡ record a { mem = at_block (i + v) (with_before v) (at_block i (with_owned v) a.mem) }
  unfolding set_blocks_owned on_block blocks_amount
  owned-inside h =
      let e : v % 2 ^ 32 ≡ v = omega arith in
      let e' : v % 2 ^ 31 ≡ v = omega arith in
      let l = lt→ltb (i + v) (blocks_amount a) h in rw (e, l, e')

  pub owned-outside :
      blocks_amount a ≤ i + v
      → set_blocks_owned i v a ≡ record a { mem = at_block i (with_owned v) a.mem }
  unfolding set_blocks_owned on_block blocks_amount
  owned-outside h =
      let e : v % 2 ^ 32 ≡ v = omega arith in
      let l : ltb (i + v) (blocks_amount a) ≡ false = ground arith in rw (e, l)

  -- In any case one of the two is the result.
  pub owned-elim {ℓ} :
      (P : Allocator → Type ℓ)
      → P (record a { mem = at_block i (with_owned v) a.mem })
      → P (record a { mem = at_block (i + v) (with_before v) (at_block i (with_owned v) a.mem) })
      → P (set_blocks_owned i v a)
  owned-elim P p q = elim (Bool-cases (ltb (i + v) (blocks_amount a))) [
    | inl e ↦ subst P (sym (owned-inside (ltb→lt (i + v) (blocks_amount a) e))) q
    | inr e ↦ subst P (sym (owned-outside (ltb→ge (i + v) (blocks_amount a) e))) p
  ]

  pub owned_self : 0 < v → (set_blocks_owned i v a).mem i ≡ with_owned v (a.mem i)
  owned_self h =
      let ne : i + v ≢ i = λ q. omega arith in
      let same = at_block-same i (with_owned v) a.mem in
      owned-elim (λ b. b.mem i ≡ with_owned v (a.mem i)) same
        (at_block-other (i + v) i (with_before v) (at_block i (with_owned v) a.mem) ne ∙ same)

  pub owned-next :
      0 < v
      → i + v < blocks_amount a
      → (set_blocks_owned i v a).mem (i + v) ≡ with_before v (a.mem (i + v))
  owned-next h l =
      let ne : i ≢ i + v = λ q. omega arith in
      ap (λ b. b.mem (i + v)) (owned-inside l)
      ∙ at_block-same (i + v) (with_before v) (at_block i (with_owned v) a.mem)
      ∙ ap (with_before v) (at_block-other i (i + v) (with_owned v) a.mem ne)

  pub owned-other : (j : ℕ) → j ≢ i → j ≢ i + v → (set_blocks_owned i v a).mem j ≡ a.mem j
  owned-other j p q =
      let same = at_block-other i j (with_owned v) a.mem (λ z. p (sym z)) in
      owned-elim (λ b. b.mem j ≡ a.mem j) same
        (at_block-other (i + v) j (with_before v) (at_block i (with_owned v) a.mem) (λ z. q (sym z))
          ∙ same)
