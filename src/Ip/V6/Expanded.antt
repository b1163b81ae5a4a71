-- ===== src/Ip/V6/Expanded.antt =====
-- `Ipv6Addr::parse_regular` against a parser of two lists of groups, without a buffer.
use mathlib.Core.List.{append_assoc}
use mathlib.Core.Path.{ap₂}
use corosig.Prelude.{
  ℕ, zero, suc, ◌+◌, ◌≤◌, ◌<◌, ◌≡◌, refl, sym, ap, ◌∙◌, Bool, true, false, not, ◌||◌, List, [], ◌∷◌,
  ◌++◌, Option, none, some, length, drop, ltb, ◌==◌, if◌then◌else◌, length-append, Bool-cases,
  Option-cases, inl, inr, arith,
}
use corosig.Ip.V6.{
  Parse, accepted, rejected, colon, parse_ipv6_group, starts_with_compressor, set_at, store,
  FrontGroups, front_groups, front_next, front_loop, back_group, back_loop,
}

-- Groups in front, at most `left`: the groups, if the compressor was met, and the rest.
abbrev pub Groups : Type 0
Groups = List ℕ × (Bool × List ℕ)

cons_group : ℕ → Option Groups → Option Groups
cons_group g none = none
cons_group g (some (gs, rest)) = some (g ∷ gs, rest)

-- A group, and what is behind it.
front_behind : Option (ℕ × List ℕ) → (List ℕ → Option Groups) → Option Groups
unfolding cons_group
front_behind none next = none
front_behind (some (g, addr)) next =
    if starts_with_compressor addr
    then some (g ∷ [], (true, drop 1 addr))
    else cons_group g (next (drop 1 addr))

pub front_list : ℕ → List ℕ → Option Groups
unfolding front_behind
front_list left [] = some ([], (false, []))
front_list zero (c ∷ cs) = some ([], (false, c ∷ cs))
front_list (suc left) (c ∷ cs) = front_behind (parse_ipv6_group (c ∷ cs)) (front_list left)

-- Groups in back, each behind a colon, at most `room`; a colon may stand at the end.
cons_back : ℕ → Option (List ℕ) → Option (List ℕ)
cons_back g none = none
cons_back g (some gs) = some (g ∷ gs)

back_after : Option (ℕ × List ℕ) → (List ℕ → Option (List ℕ)) → Option (List ℕ)
unfolding cons_back
back_after none next = none
back_after (some (g, addr)) next = cons_back g (next addr)

back_behind : List ℕ → (List ℕ → Option (List ℕ)) → Option (List ℕ)
unfolding back_after
back_behind [] next = some []
back_behind (c ∷ cs) next = back_after (parse_ipv6_group (c ∷ cs)) next

pub back_list : ℕ → List ℕ → Option (List ℕ)
unfolding back_behind
back_list room [] = some []
back_list zero (c ∷ cs) = none
back_list (suc room) (c ∷ cs) =
    if not (c == colon) || starts_with_compressor (c ∷ cs)
    then none
    else back_behind cs (back_list room)

set_at-end :
    (ws junk : List ℕ) (j v : ℕ) → set_at (length ws) v (ws ++ j ∷ junk) ≡ (ws ++ v ∷ []) ++ junk
unfolding set_at
set_at-end [] junk j v = refl
set_at-end (w ∷ ws) junk j v = ap (◌∷◌ w) (set_at-end ws junk j v)

-- Storing behind what is written.
store-end :
    (ws junk : List ℕ) (j v : ℕ)
    → store (length ws) v (ws ++ j ∷ junk) ≡ accepted ((ws ++ v ∷ []) ++ junk)
unfolding store
store-end ws junk j v = rw (set_at-end ws junk j v) (ground (arith, length-append ws (j ∷ junk)))

-- The buffer when `gs` is written behind `ws`.
abbrev pub filled : List ℕ → List ℕ → List ℕ → List ℕ
filled ws junk gs = ws ++ (gs ++ drop (length gs) junk)

abbrev pub front_result : List ℕ → List ℕ → Option Groups → Parse FrontGroups
front_result ws junk none = rejected
front_result ws junk (some (gs, (met, rest))) =
    accepted (front_groups met (length ws + length gs) rest (filled ws junk gs))

snoc-length : (ws : List ℕ) (g : ℕ) → length ws + 1 ≡ length (ws ++ g ∷ [])
snoc-length ws g = sym (length-append ws (g ∷ []))

front_result-cons :
    (ws junk : List ℕ) (j g : ℕ) (o : Option Groups)
    → front_result (ws ++ g ∷ []) junk o ≡ front_result ws (j ∷ junk) (cons_group g o)
unfolding cons_group
front_result-cons ws junk j g none = refl
front_result-cons ws junk j g (some (gs, (met, rest))) =
    let size : length (ws ++ g ∷ []) + length gs ≡ length ws + suc (length gs) =
      omega (arith, snoc-length ws g) in
    ap₂ (λ (n : ℕ) (b : List ℕ). accepted (front_groups met n rest b)) size
      (append_assoc ws (g ∷ []) (gs ++ drop (length gs) junk))

-- The front loop goes on behind a group.
front_step :
    (ws junk : List ℕ) (j g : ℕ) (addr : List ℕ) (next : Parse FrontGroups)
    (list : List ℕ → Option Groups)
    → next ≡ front_result (ws ++ g ∷ []) junk (list (drop 1 addr))
    → front_next (length ws + 1) addr ((ws ++ g ∷ []) ++ junk) next
      ≡ front_result ws (j ∷ junk) (front_behind (some (g, addr)) list)
unfolding front_next front_behind
front_step ws junk j g addr next list h = elim (Bool-cases (starts_with_compressor addr)) [
  | inl e ↦ rw e (rw (append_assoc ws (g ∷ []) junk) refl)
  | inr e ↦ rw e (h ∙ front_result-cons ws junk j g (list (drop 1 addr)))
]

pub front_loop-list :
    (ws junk : List ℕ) (addr : List ℕ)
    → front_loop (length junk) (length ws) (ws ++ junk) addr
      ≡ front_result ws junk (front_list (length junk) addr)
unfolding front_loop front_list
front_loop-list ws junk [] =
    let e : length ws ≡ length ws + 0 = omega arith in
    ap (λ n. accepted (front_groups false n [] (ws ++ junk))) e
front_loop-list ws [] (c ∷ cs) =
    let e : length ws ≡ length ws + 0 = omega arith in
    ap (λ n. accepted (front_groups false n (c ∷ cs) (ws ++ []))) e
front_loop-list ws (j ∷ junk) (c ∷ cs) = elim (Option-cases (parse_ipv6_group (c ∷ cs))) [
  | inl e ↦ rw e refl
  | inr ((g, addr), e) ↦ rw e (
      rw (store-end ws junk j g) (
        front_step ws junk j g addr _ (front_list (length junk)) (
          ap (λ n. front_loop (length junk) n ((ws ++ g ∷ []) ++ junk) (drop 1 addr))
            (snoc-length ws g)
          ∙ front_loop-list (ws ++ g ∷ []) junk (drop 1 addr))))
]

abbrev pub back_result : ℕ → List ℕ → List ℕ → Option (List ℕ) → Parse (ℕ × List ℕ)
back_result back ws junk none = rejected
back_result back ws junk (some gs) = accepted (back + length gs, filled ws junk gs)

back_result-cons :
    (back : ℕ) (ws junk : List ℕ) (j g : ℕ) (o : Option (List ℕ))
    → back_result (back + 1) (ws ++ g ∷ []) junk o ≡ back_result back ws (j ∷ junk) (cons_back g o)
unfolding cons_back
back_result-cons back ws junk j g none = refl
back_result-cons back ws junk j g (some gs) =
    ap₂ (λ (n : ℕ) (b : List ℕ). accepted (n, b)) (omega arith)
      (append_assoc ws (g ∷ []) (gs ++ drop (length gs) junk))

back_group-list :
    (groups back : ℕ) (ws junk cs : List ℕ) (j : ℕ) (again : List ℕ → List ℕ → Parse (ℕ × List ℕ))
    (list : List ℕ → Option (List ℕ))
    → length ws ≡ groups + back
    → ((g : ℕ) (addr : List ℕ)
        → again ((ws ++ g ∷ []) ++ junk) addr
          ≡ back_result (back + 1) (ws ++ g ∷ []) junk (list addr))
    → back_group groups back (ws ++ j ∷ junk) cs again
      ≡ back_result back ws (j ∷ junk) (back_behind cs list)
unfolding back_group back_behind back_after
back_group-list groups back ws junk [] j again list n h =
    let e : back ≡ back + 0 = omega arith in ap (λ k. accepted (k, ws ++ j ∷ junk)) e
back_group-list groups back ws junk (c ∷ cs) j again list n h =
    elim (Option-cases (parse_ipv6_group (c ∷ cs))) [
      | inl e ↦ rw e refl
      | inr ((g, addr), e) ↦ rw e (
          rw (sym n, store-end ws junk j g)
            (h g addr ∙ back_result-cons back ws junk j g (list addr)))
    ]

pub back_loop-list :
    (rounds groups back : ℕ) (ws junk : List ℕ) (addr : List ℕ)
    → length ws ≡ groups + back
    → groups + back + length junk ≡ 8
    → length junk < rounds
    → back_loop rounds groups back (ws ++ junk) addr
      ≡ back_result back ws junk (back_list (length junk) addr)
unfolding back_loop back_list
back_loop-list rounds groups back ws junk [] n m h =
    let e : back ≡ back + 0 = omega arith in ap (λ k. accepted (k, ws ++ junk)) e
back_loop-list zero groups back ws junk (c ∷ cs) n m h = absurd (omega arith)
back_loop-list (suc rounds) groups back ws [] (c ∷ cs) n m h =
    let full : ltb 8 (back + groups + 1) ≡ true = ground arith in rw full refl
back_loop-list (suc rounds) groups back ws (j ∷ junk) (c ∷ cs) n m h =
    let free : ltb 8 (back + groups + 1) ≡ false = ground arith in
    rw free (elim (Bool-cases (not (c == colon) || starts_with_compressor (c ∷ cs))) [
      | inl e ↦ rw e refl
      | inr e ↦ rw e (
          back_group-list groups back ws junk cs j _ (back_list (length junk)) n (λ g addr.
            back_loop-list rounds groups (back + 1) (ws ++ g ∷ []) junk addr
              (omega (arith, snoc-length ws g)) (omega arith) (omega arith)))
    ])

pub front_list-length :
    (left : ℕ) (addr gs : List ℕ) (r : Bool × List ℕ)
    → front_list left addr ≡ some (gs, r)
    → length gs ≤ left
unfolding front_list front_behind cons_group
front_list-length left [] gs r h = let e : gs ≡ [] = cc in rw e (omega arith)
front_list-length zero (c ∷ cs) gs r h = let e : gs ≡ [] = cc in rw e (omega arith)
front_list-length (suc left) (c ∷ cs) gs r h = elim (Option-cases (parse_ipv6_group (c ∷ cs))) [
  | inl e ↦ let h' = rw e at h in cc
  | inr ((g, addr), e) ↦
      let h' = rw e at h in
      elim (Bool-cases (starts_with_compressor addr)) [
        | inl t ↦ let h'' = rw t at h' in let e : gs ≡ g ∷ [] = cc in rw e (omega arith)
        | inr t ↦
            let h'' = rw t at h' in
            elim (Option-cases (front_list left (drop 1 addr))) [
              | inl u ↦ let h3 = rw u at h'' in cc
              | inr ((gs', r'), u) ↦
                  let h3 = rw u at h'' in
                  let e : gs ≡ g ∷ gs' = cc in
                  rw e (omega (arith, front_list-length left (drop 1 addr) gs' r' u))
            ]
      ]
]
