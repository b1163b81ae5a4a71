-- ===== src/Ip/V6/Mapped.antt =====
-- `Ipv6Addr::parse_mapped_ipv4` of Sockaddr.cpp.
use corosig.Prelude.{
  ℕ, suc, ◌<◌, ◌≡◌, refl, ◌↔◌, true, false, ◌&&◌, ◌||◌, List, [], ◌∷◌, ◌++◌, none, some, length,
  replicate, ltb, ◌==◌, ==_iff, Bool-cases, Option-cases, inl, inr, ◌⊎◌, arith,
}
use corosig.Ip.{Ipv4Addr, Ipv6Addr}
use corosig.Ip.V4
use corosig.Ip.V4.Groups.{IsDotted}
use corosig.Ip.V4.Dotted.{parse_iff}
use corosig.Ip.V6.{colon, starts_with_compressor, all_f, mapped_ipv4, parse_mapped_ipv4}

-- Four letters f of either case.
abbrev pub IsF : ℕ → Type 0
IsF c = (c ≡ 102) ⊎ (c ≡ 70)

-- `::ffff:` and an address of IPv4 in dotted notation.
pub record IsMapped (addr : List ℕ) (a : Ipv6Addr) : Type 0 where
  pub f0 : ℕ
  pub f1 : ℕ
  pub f2 : ℕ
  pub f3 : ℕ
  pub text : List ℕ
  pub ipv4 : Ipv4Addr
  pub joined : addr ≡ colon ∷ colon ∷ f0 ∷ f1 ∷ f2 ∷ f3 ∷ colon ∷ text
  pub is0 : IsF f0
  pub is1 : IsF f1
  pub is2 : IsF f2
  pub is3 : IsF f3
  pub dotted : IsDotted text ipv4
  pub octets : a ≡ record { octets = replicate 10 0 ++ 0xFF ∷ 0xFF ∷ ipv4.octets }

IsF-test : (c : ℕ) → IsF c → (c == 102 || c == 70) ≡ true
IsF-test c h = ground arith

test-IsF : (c : ℕ) → (c == 102 || c == 70) ≡ true → IsF c
test-IsF c h = ground arith

parse_mapped_ipv4_complete :
    (addr : List ℕ) (a : Ipv6Addr) → IsMapped addr a → parse_mapped_ipv4 addr ≡ some a
unfolding parse_mapped_ipv4 all_f mapped_ipv4 starts_with_compressor
parse_mapped_ipv4_complete addr a m =
    let d = (parse_iff m.text m.ipv4).1 m.dotted in
    let long : ltb (suc (suc (suc (suc (suc (suc (suc (length m.text)))))))) 7 ≡ false =
      ground arith in
    rw m.joined (
      rw
        (
          long,
          IsF-test m.f0 m.is0,
          IsF-test m.f1 m.is1,
          IsF-test m.f2 m.is2,
          IsF-test m.f3 m.is3,
          d,
          m.octets,
        )
        refl)

all_f-IsF :
    (f0 f1 f2 f3 : ℕ) → all_f (f0 ∷ f1 ∷ f2 ∷ f3 ∷ []) ≡ true → IsF f0 × IsF f1 × IsF f2 × IsF f3
unfolding all_f
all_f-IsF f0 f1 f2 f3 h = elim (Bool-cases (f0 == 102 || f0 == 70)) [
  | inr e ↦ let h' = rw e at h in cc
  | inl e0 ↦ elim (Bool-cases (f1 == 102 || f1 == 70)) [
    | inr e ↦ let h' = rw (e0, e) at h in cc
    | inl e1 ↦ elim (Bool-cases (f2 == 102 || f2 == 70)) [
      | inr e ↦ let h' = rw (e0, e1, e) at h in cc
      | inl e2 ↦ elim (Bool-cases (f3 == 102 || f3 == 70)) [
        | inr e ↦ let h' = rw (e0, e1, e2, e) at h in cc
        | inl e3 ↦ (test-IsF f0 e0, test-IsF f1 e1, test-IsF f2 e2, test-IsF f3 e3)
      ]
    ]
  ]
]

mapped_ipv4_sound :
    (c : ℕ) (text : List ℕ) (a : Ipv6Addr)
    → mapped_ipv4 (c ∷ text) ≡ some a
    → (c ≡ colon)
      × ((ipv4 : Ipv4Addr) × IsDotted text ipv4
          × (a ≡ record { octets = replicate 10 0 ++ 0xFF ∷ 0xFF ∷ ipv4.octets }))
unfolding mapped_ipv4
mapped_ipv4_sound c text a h = elim (Bool-cases (c == colon)) [
  | inr e ↦ let h' = rw e at h in cc
  | inl e ↦
      let h' = rw e at h in
      elim (Option-cases (V4.parse text)) [
        | inl n ↦ let h2 = rw n at h' in cc
        | inr (v, n) ↦
            let h2 = rw n at h' in ((==_iff c colon).0 e, (v, (parse_iff text v).0 n, cc))
      ]
]

ends : (k l : ℕ) → (k == colon && l == colon) ≡ true → (k ≡ colon) × (l ≡ colon)
ends k l h = ground arith

parse_mapped_ipv4_sound_long :
    (k l f0 f1 f2 f3 c : ℕ) (text : List ℕ) (a : Ipv6Addr)
    → parse_mapped_ipv4 (k ∷ l ∷ f0 ∷ f1 ∷ f2 ∷ f3 ∷ c ∷ text) ≡ some a
    → IsMapped (k ∷ l ∷ f0 ∷ f1 ∷ f2 ∷ f3 ∷ c ∷ text) a
unfolding parse_mapped_ipv4 starts_with_compressor
parse_mapped_ipv4_sound_long k l f0 f1 f2 f3 c text a h =
    let long : ltb (suc (suc (suc (suc (suc (suc (suc (length text)))))))) 7 ≡ false =
      ground arith in
    elim (Bool-cases (k == colon && l == colon)) [
      | inr e ↦ let h' = rw (long, e) at h in cc
      | inl e ↦ elim (Bool-cases (all_f (f0 ∷ f1 ∷ f2 ∷ f3 ∷ []))) [
        | inr u ↦ let h' = rw (long, e, u) at h in cc
        | inl u ↦
            let h' = rw (long, e, u) at h in
            let both : (k ≡ colon) × (l ≡ colon) = ends k l e in
            let (is0, is1, is2, is3) = all_f-IsF f0 f1 f2 f3 u in
            let (at, (v, dotted, octets)) = mapped_ipv4_sound c text a h' in
            record {
              f0 = f0;
              f1 = f1;
              f2 = f2;
              f3 = f3;
              text = text;
              ipv4 = v;
              joined = cc;
              is0 = is0;
              is1 = is1;
              is2 = is2;
              is3 = is3;
              dotted = dotted;
              octets = octets;
            }
      ]
    ]

too_short : (addr : List ℕ) → length addr < 7 → parse_mapped_ipv4 addr ≡ none
unfolding parse_mapped_ipv4
too_short addr h = let e : ltb (length addr) 7 ≡ true = ground arith in rw e refl

parse_mapped_ipv4_sound :
    (addr : List ℕ) (a : Ipv6Addr) → parse_mapped_ipv4 addr ≡ some a → IsMapped addr a
parse_mapped_ipv4_sound (k ∷ l ∷ f0 ∷ f1 ∷ f2 ∷ f3 ∷ c ∷ text) a h =
    parse_mapped_ipv4_sound_long k l f0 f1 f2 f3 c text a h
parse_mapped_ipv4_sound [] a h = cc (too_short [] (omega arith))
parse_mapped_ipv4_sound (k ∷ []) a h = cc (too_short (k ∷ []) (omega arith))
parse_mapped_ipv4_sound (k ∷ l ∷ []) a h = cc (too_short (k ∷ l ∷ []) (omega arith))
parse_mapped_ipv4_sound (k ∷ l ∷ f0 ∷ []) a h = cc (too_short (k ∷ l ∷ f0 ∷ []) (omega arith))
parse_mapped_ipv4_sound (k ∷ l ∷ f0 ∷ f1 ∷ []) a h =
    cc (too_short (k ∷ l ∷ f0 ∷ f1 ∷ []) (omega arith))
parse_mapped_ipv4_sound (k ∷ l ∷ f0 ∷ f1 ∷ f2 ∷ []) a h =
    cc (too_short (k ∷ l ∷ f0 ∷ f1 ∷ f2 ∷ []) (omega arith))
parse_mapped_ipv4_sound (k ∷ l ∷ f0 ∷ f1 ∷ f2 ∷ f3 ∷ []) a h =
    cc (too_short (k ∷ l ∷ f0 ∷ f1 ∷ f2 ∷ f3 ∷ []) (omega arith))

-- `parse_mapped_ipv4` accepts exactly `::`, four letters f of either case, a colon and an address of
-- IPv4 in dotted notation, and returns ten zeros, two octets 0xFF and the octets of that address.
pub parse_mapped_ipv4_iff :
    (addr : List ℕ) (a : Ipv6Addr) → (parse_mapped_ipv4 addr ≡ some a) ↔ IsMapped addr a
parse_mapped_ipv4_iff addr a = (parse_mapped_ipv4_sound addr a, parse_mapped_ipv4_complete addr a)
