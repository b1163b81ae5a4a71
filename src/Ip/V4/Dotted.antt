-- ===== src/Ip/V4/Dotted.antt =====
-- `Ipv4Addr::parse` against the dotted notation as a relation between characters and octets.
use mathlib.Core.List.{append_assoc, append-nil}
use corosig.Prelude.{
  ℕ, ◌+◌, ◌≤◌, ◌≡◌, ◌≢◌, refl, sym, ap, ◌∙◌, ◌↔◌, List, [], ◌∷◌, ◌++◌, some, length, length-append,
  All, ◌==◌, ◌>>=◌, >>=-eq-some, Bool-cases, ◌⊎◌, inl, inr, arith,
}
use corosig.Text.{Part, dot, split_dots, split_view}
use corosig.Text.Splits.{IsNoDot, split_dots-word, split_dots-last, rejoin, rejoin-split_dots}
use corosig.Ip.{Ipv4Addr}
use corosig.Ip.V4.{parse_group, parse_groups, parse}
use corosig.Ip.V4.Groups.{IsGroup, IsDigit, parse_group_complete, IsDotted, parse_group_sound}

digits-IsNoDot : (cs : List ℕ) → All IsDigit cs → All IsNoDot cs
digits-IsNoDot [] h = tt
digits-IsNoDot (c ∷ cs) (x, h) = (omega arith, digits-IsNoDot cs h)

abbrev first_parts : List ℕ → List Part
first_parts addr = record { begin = 0; text = (split_dots 0 addr).0 } ∷ (split_dots 0 addr).1

parse-nonempty :
    (addr : List ℕ)
    → 1 ≤ length addr
    → parse addr
      ≡ (do result ← parse_groups 0 [] (first_parts addr); some (record { octets = result }))
unfolding parse split_view
parse-nonempty [] h = absurd (omega arith)
parse-nonempty (c ∷ cs) h = refl

parse_groups_four :
    (p0 p1 p2 p3 : Part) (v0 v1 v2 v3 : ℕ)
    → IsGroup p0.text v0
    → IsGroup p1.text v1
    → IsGroup p2.text v2
    → IsGroup p3.text v3
    → parse_groups 0 [] (p0 ∷ p1 ∷ p2 ∷ p3 ∷ []) ≡ some (v0 ∷ v1 ∷ v2 ∷ v3 ∷ [])
unfolding parse_groups
parse_groups_four p0 p1 p2 p3 v0 v1 v2 v3 h0 h1 h2 h3 =
    rw
      (
        parse_group_complete p0.text v0 h0,
        parse_group_complete p1.text v1 h1,
        parse_group_complete p2.text v2 h2,
        parse_group_complete p3.text v3 h3,
      )
      refl

-- Every address in dotted notation is parsed as its octets.
parse_complete : (addr : List ℕ) (a : Ipv4Addr) → IsDotted addr a → parse addr ≡ some a
parse_complete addr a d =
    let r2 = d.g2 ++ dot ∷ d.g3 in
    let r1 = d.g1 ++ dot ∷ r2 in
    parse-nonempty addr (omega (arith, ap length d.joined, length-append d.g0 (dot ∷ r1)))
    ∙ rw
        (
          d.joined,
          split_dots-word 0 d.g0 r1 (digits-IsNoDot d.g0 d.is0.digits),
          split_dots-word (0 + length d.g0 + 1) d.g1 r2 (digits-IsNoDot d.g1 d.is1.digits),
          split_dots-word (0 + length d.g0 + 1 + length d.g1 + 1) d.g2 d.g3
              (digits-IsNoDot d.g2 d.is2.digits),
          split_dots-last (0 + length d.g0 + 1 + length d.g1 + 1 + length d.g2 + 1) d.g3
              (digits-IsNoDot d.g3 d.is3.digits),
        )
        (rw
          (parse_groups_four (record { begin = 0; text = d.g0 })
            (record { begin = 0 + length d.g0 + 1; text = d.g1 })
            (record { begin = 0 + length d.g0 + 1 + length d.g1 + 1; text = d.g2 })
            (record {
              begin = 0 + length d.g0 + 1 + length d.g1 + 1 + length d.g2 + 1;
              text = d.g3;
            })
            d.v0 d.v1 d.v2 d.v3 d.is0 d.is1 d.is2 d.is3)
          (rw d.octets refl))

parse_groups-cons :
    (i : ℕ) (r : List ℕ) (g : Part) (gs : List Part) {x : List ℕ}
    → parse_groups i r (g ∷ gs) ≡ some x
    → (v : ℕ) × IsGroup g.text v × (parse_groups (i + 1) (r ++ v ∷ []) gs ≡ some x) × (i ≢ 4)
unfolding parse_groups
parse_groups-cons i r g gs h = elim (Bool-cases (i == 4)) [
  | inl e ↦ let h' = rw e at h in cc
  | inr e ↦
      let h' = rw e at h in
      let (v, e1, e2) =
        >>=-eq-some (parse_group g.text) (λ v. parse_groups (i + 1) (r ++ v ∷ []) gs) h' in
      (v, parse_group_sound g.text v e1, e2, ground arith)
]

parse_groups-nil :
    (i : ℕ) (r : List ℕ) {x : List ℕ} → parse_groups i r [] ≡ some x → (i ≡ 4) × (r ≡ x)
unfolding parse_groups
parse_groups-nil i r h = elim (Bool-cases (i == 4)) [
  | inl e ↦ let h' = rw e at h in (ground arith, cc)
  | inr e ↦ let h' = rw e at h in cc
]

-- Each part is a group of its number.
abbrev AreGroups : List Part → List ℕ → Type 0
AreGroups [] [] = Unit
AreGroups [] (v ∷ vs) = ⊥
AreGroups (p ∷ ps) [] = ⊥
AreGroups (p ∷ ps) (v ∷ vs) = IsGroup p.text v × AreGroups ps vs

parse_groups_sound :
    (i : ℕ) (r : List ℕ) (ps : List Part) (x : List ℕ)
    → parse_groups i r ps ≡ some x
    → (vs : List ℕ) × AreGroups ps vs × (x ≡ r ++ vs) × (length ps + i ≡ 4)
parse_groups_sound i r [] x h =
    let (e, q) = parse_groups-nil i r h in ([], tt, sym (append-nil r ∙ q), omega arith)
parse_groups_sound i r (g ∷ gs) x h =
    let (v, is, rest, ne) = parse_groups-cons i r g gs h in
    let (vs, all, e, n) = parse_groups_sound (i + 1) (r ++ v ∷ []) gs x rest in
    (v ∷ vs, (is, all), e ∙ append_assoc r (v ∷ []) vs, omega arith)

AreGroups-IsDotted :
    (addr : List ℕ) (ps : List Part) (vs : List ℕ) (a : Ipv4Addr)
    → AreGroups ps vs
    → length ps ≡ 4
    → dot ∷ addr ≡ rejoin ps
    → a ≡ record { octets = vs }
    → IsDotted addr a
AreGroups-IsDotted addr (p0 ∷ p1 ∷ p2 ∷ p3 ∷ []) (v0 ∷ v1 ∷ v2 ∷ v3 ∷ []) a
      (h0, (h1, (h2, (h3, u)))) n j e =
    record {
      g0 = p0.text;
      g1 = p1.text;
      g2 = p2.text;
      g3 = p3.text;
      v0 = v0;
      v1 = v1;
      v2 = v2;
      v3 = v3;
      joined =
          (let same : addr ≡ p0.text ++ rejoin (p1 ∷ p2 ∷ p3 ∷ []) = cc in same)
          ∙ ap (λ t. p0.text ++ dot ∷ (p1.text ++ dot ∷ (p2.text ++ dot ∷ t))) (append-nil p3.text);
      is0 = h0;
      is1 = h1;
      is2 = h2;
      is3 = h3;
      octets = e;
    }
AreGroups-IsDotted addr (p0 ∷ p1 ∷ p2 ∷ p3 ∷ []) [] a g n j e = absurd g
AreGroups-IsDotted addr (p0 ∷ p1 ∷ p2 ∷ p3 ∷ []) (v0 ∷ []) a g n j e = absurd g.1
AreGroups-IsDotted addr (p0 ∷ p1 ∷ p2 ∷ p3 ∷ []) (v0 ∷ v1 ∷ []) a g n j e = absurd g.1.1
AreGroups-IsDotted addr (p0 ∷ p1 ∷ p2 ∷ p3 ∷ []) (v0 ∷ v1 ∷ v2 ∷ []) a g n j e = absurd g.1.1.1
AreGroups-IsDotted addr (p0 ∷ p1 ∷ p2 ∷ p3 ∷ []) (v0 ∷ v1 ∷ v2 ∷ v3 ∷ v4 ∷ vs) a g n j e =
    absurd g.1.1.1.1
AreGroups-IsDotted addr [] vs a g n j e = absurd (omega arith)
AreGroups-IsDotted addr (p0 ∷ []) vs a g n j e = absurd (omega arith)
AreGroups-IsDotted addr (p0 ∷ p1 ∷ []) vs a g n j e = absurd (omega arith)
AreGroups-IsDotted addr (p0 ∷ p1 ∷ p2 ∷ []) vs a g n j e = absurd (omega arith)
AreGroups-IsDotted addr (p0 ∷ p1 ∷ p2 ∷ p3 ∷ p4 ∷ ps) vs a g n j e = absurd (omega arith)

parse-empty : {b : Ipv4Addr} → parse [] ≢ some b
unfolding parse split_view parse_groups
parse-empty h = cc

parse_sound : (addr : List ℕ) (a : Ipv4Addr) → parse addr ≡ some a → IsDotted addr a
parse_sound addr a h = elim (addr_cases addr) [
  | inl empty ↦ absurd (parse-empty (rw empty at h))
  | inr full ↦
      let (x, e, q) =
        >>=-eq-some (parse_groups 0 [] (first_parts addr))
          (λ result. some (record { octets = result })) (sym (parse-nonempty addr full) ∙ h) in
      let (vs, all, e2, n) = parse_groups_sound 0 [] (first_parts addr) x e in
      AreGroups-IsDotted addr (first_parts addr) vs a all (omega arith)
        (ap (◌∷◌ dot) (sym (rejoin-split_dots 0 addr)))
        (let same : a ≡ record { octets = x } = cc in same ∙ ap (λ o. record { octets = o }) e2)
]
  where
    addr_cases : (xs : List ℕ) → (xs ≡ []) ⊎ (1 ≤ length xs)
    addr_cases [] = inl refl
    addr_cases (c ∷ cs) = inr (omega arith)

-- `Ipv4Addr::parse` accepts a text as an address exactly when the text is four groups with dots
-- between them, each of one to three digits of a number of at most 255, and the address is the
-- four numbers in network byte order.
pub parse_iff : (addr : List ℕ) (a : Ipv4Addr) → (parse addr ≡ some a) ↔ IsDotted addr a
parse_iff addr a = (parse_sound addr a, parse_complete addr a)
