-- ===== src/Ip/V6/Regular.antt =====
-- The whole of `Ipv6Addr::parse_regular` against the parser of two lists of groups.
use mathlib.Core.List.{append-nil}
use mathlib.Core.Path.{subst}
use corosig.Prelude.{
  ℕ, ◌+◌, ◌-◌, ◌≡◌, refl, sym, ap, ◌∙◌, Bool, true, false, not, ◌||◌, List, [], ◌∷◌, ◌++◌, Option,
  none, some, length, take, drop, replicate, ltb, leb, ◌==◌, ==_iff, if◌then◌else◌, length-append,
  length-take, length-drop, take-append_exact, drop-append_exact, Bool-cases, Option-cases, inl,
  inr, arith,
}
use corosig.Ip.{Ipv6Addr}
use corosig.Ip.V6.{
  Parse, accepted, rejected, ◌>>=◌, need, starts_with_compressor, FrontGroups, front_groups,
  front_loop, ipv6_parse_front_groups, expand, from_groups, back_part, parse_regular,
}
use corosig.Ip.V6.Expanded.{
  Groups, front_list, back_list, front_result, front_loop-list, back_loop-list, front_list-length,
}

front_part : List ℕ → Option Groups
front_part addr =
    if starts_with_compressor addr then some ([], (true, drop 1 addr)) else front_list 8 addr

-- The eight groups, of those in front and those in back of the compressor.
between : List ℕ → Option (List ℕ) → Option (List ℕ)
between gs none = none
between gs (some bs) =
    if leb 8 (length gs + length bs)
    then none
    else some (gs ++ (replicate (8 - length gs - length bs) 0 ++ bs))

whole_of : Option Groups → Option (List ℕ)
unfolding between
whole_of none = none
whole_of (some (gs, (true, rest))) = between gs (back_list (8 - length gs) rest)
whole_of (some (gs, (false, rest))) =
    if not (length gs == 8) || ltb 0 (length rest) then none else some gs

-- The eight groups that a text stands for: groups of one to four hexadecimal digits.
unfoldable pub groups_of : List ℕ → Option (List ℕ)
unfolding front_part whole_of
groups_of addr = whole_of (front_part addr)

-- Nothing to shift: no missing, or no groups in back.
drop-still :
    (bs junk : List ℕ) (missing : ℕ)
    → length junk ≡ missing
    → (missing == 0 || leb (length (bs ++ junk)) missing) ≡ true
    → drop missing (bs ++ junk) ≡ bs
drop-still [] junk missing h e =
    ap (drop missing) (sym (append-nil junk)) ∙ drop-append_exact junk [] missing h
drop-still (b ∷ bs) [] missing h e = let z : missing ≡ 0 = omega arith in rw z (append-nil (b ∷ bs))
drop-still (b ∷ bs) (j ∷ junk) missing h e =
    absurd (grind (arith, length-append (b ∷ bs) (j ∷ junk)))

-- Shifting the groups in back to the end, and missing between.
expand_lem :
    (gs bs junk : List ℕ) (missing : ℕ)
    → length junk ≡ missing
    → expand (length gs) missing (gs ++ (bs ++ junk)) ≡ gs ++ (replicate missing 0 ++ bs)
unfolding expand
expand_lem gs bs junk missing h =
    rw
      (
        drop-append_exact gs (bs ++ junk) (length gs) refl,
        take-append_exact gs (bs ++ junk) (length gs) refl,
      )
      (ap (λ t. gs ++ (replicate missing 0 ++ t))
        (elim (Bool-cases (missing == 0 || leb (length (bs ++ junk)) missing)) [
          | inl e ↦ rw e (drop-still bs junk missing h e)
          | inr e ↦ rw e (
              drop-append_exact (take missing (bs ++ junk))
                (take (length (bs ++ junk) - missing) (bs ++ junk)) missing
                (omega (arith, length-take missing (bs ++ junk), length-append bs junk))
              ∙ take-append_exact bs junk (length (bs ++ junk) - missing)
                  (omega (arith, length-append bs junk)))
        ]))

-- What is behind the compressor, with the front groups in the buffer.
back_part_lem :
    (gs junk rest : List ℕ)
    → length gs + length junk ≡ 8
    → back_part (front_groups true (length gs) rest (gs ++ junk))
      ≡ need (between gs (back_list (length junk) rest))
unfolding back_part between
back_part_lem gs junk rest n =
    rw (back_loop-list 9 (length gs) 0 gs junk rest (omega arith) (omega arith) (omega arith))
      (elim (Option-cases (back_list (length junk) rest)) [
        | inl e ↦ rw e refl
        | inr (bs, e) ↦
            let z : 0 + length bs ≡ length bs = omega arith in
            rw (e, z)
              (elim (Bool-cases (leb 8 (length gs + length bs))) [
                | inl t ↦ rw t refl
                | inr t ↦ rw t (
                    ap accepted (
                      expand_lem gs bs (drop (length bs) junk) (8 - length gs - length bs)
                        (omega (arith, length-drop (length bs) junk))))
              ])
      ])

abbrev pub regular_of : Option (List ℕ) → Parse Ipv6Addr
regular_of none = rejected
regular_of (some groups) = accepted (record { octets = from_groups groups })

-- `parse_regular` behind the front groups.
rest_of : FrontGroups → Parse (List ℕ)
rest_of front =
    if front.has_met_compressor
    then back_part front
    else if not (front.groups == 8) || ltb 0 (length front.addr)
    then rejected
    else accepted front.expansion_buf

append-none : (gs junk : List ℕ) → length junk ≡ 0 → gs ++ junk ≡ gs
append-none gs [] h = append-nil gs
append-none gs (j ∷ junk) h = absurd (omega arith)

rest_of-whole :
    (gs junk rest : List ℕ) (met : Bool)
    → length gs + length junk ≡ 8
    → rest_of (front_groups met (length gs) rest (gs ++ junk))
      ≡ need (whole_of (some (gs, (met, rest))))
unfolding rest_of whole_of
rest_of-whole gs junk rest true n =
    let e : 8 - length gs ≡ length junk = omega arith in rw e (back_part_lem gs junk rest n)
rest_of-whole gs junk rest false n = elim (Bool-cases (length gs == 8)) [
  | inl e ↦ rw e (elim (Bool-cases (ltb 0 (length rest))) [
    | inl t ↦ rw t refl
    | inr t ↦
        let eight : length gs ≡ 8 = (==_iff (length gs) 8).0 e in
        rw t (ap accepted (append-none gs junk (omega arith)))
  ])
  | inr e ↦ rw e refl
]

regular_end :
    (p : Parse (List ℕ)) (o : Option (List ℕ))
    → p ≡ need o
    → p >>= (λ buf. accepted (record { octets = from_groups buf })) ≡ regular_of o
regular_end p none h = rw h refl
regular_end p (some groups) h = rw h refl

-- On a buffer of eight numbers, `parse_regular` never writes outside of it and always ends, and its
-- result is that of the parser without a buffer: what the buffer held before makes no difference.
pub parse_regular_lem :
    (junk addr : List ℕ) → length junk ≡ 8 → parse_regular junk addr ≡ regular_of (groups_of addr)
unfolding parse_regular groups_of ipv6_parse_front_groups front_part rest_of
parse_regular_lem junk addr n = elim (Bool-cases (starts_with_compressor addr)) [
  | inl e ↦ rw e (
      regular_end (rest_of (front_groups true 0 (drop 1 addr) junk))
        (whole_of (some ([], (true, drop 1 addr))))
        (rest_of-whole [] junk (drop 1 addr) true (omega arith)))
  | inr e ↦
      let front : front_loop 8 0 junk addr ≡ front_result [] junk (front_list 8 addr) =
        subst (λ k. front_loop k 0 junk addr ≡ front_result [] junk (front_list k addr)) n
          (front_loop-list [] junk addr) in
      rw e (
        rw front (elim (Option-cases (front_list 8 addr)) [
          | inl u ↦ rw u refl
          | inr ((gs, (met, rest)), u) ↦
              let z : 0 + length gs ≡ length gs = omega arith in
              rw (u, z)
                (regular_end
                  (rest_of (front_groups met (length gs) rest (gs ++ drop (length gs) junk)))
                  (whole_of (some (gs, (met, rest))))
                  (rest_of-whole gs (drop (length gs) junk) rest met (
                    omega (
                      arith,
                      length-drop (length gs) junk,
                      front_list-length 8 addr gs (met, rest) u,
                    ))))
        ]))
]
