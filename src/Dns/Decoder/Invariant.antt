-- ===== src/Dns/Decoder/Invariant.antt =====
-- The spans of a `ResponseDecoder` of Protocol.cpp from call to call.
use corosig.Prelude.{
  ℕ, ◌+◌, ◌^◌, ◌<◌, ◌≡◌, refl, ap, List, [], ◌∷◌, length, length-drop, length-append, ltb,
  Bool-cases, inl, inr, arith,
}
use corosig.Dns.Errors.{Outcome, ResponseDecodeError, ok, fail, diverge, ◌>>=◌, >>=-eq-ok}
use corosig.Dns.Span.{
  Span, subspan, IsBytes, IsWithin, IsWithin-subspan, IsWithin-whole, IsWithin-IsBytes, Advances,
  Advances-trans, Advances-IsWithin,
}
use corosig.Dns.Wire.{consume_2_octets, consume_4_octets}
use corosig.Dns.Name.Denotes.{IsMessage}
use corosig.Dns.Name.Sound.{parse_domain_name-in_bounds, parse_domain_name-nonempty}
use corosig.Dns.Name.{ParseDomainNameSuccess, parse_domain_name}
use corosig.Dns.Rdata.{require, parse_rdata}
use corosig.Dns.Decoder.{
  ResponseDecoder, ResourceRecord, make, invalidated, commit, consume_header, question_entry,
  consume_question_entry, rdata_entry, resource_record, consume_resource_record,
}

pub record Inv (d : ResponseDecoder) : Type 0 where
  pub bytes : IsBytes d.original_message
  pub fits : length d.original_message < 2 ^ 64
  pub within : IsWithin d.original_message d.remaining_message

consume_2_octets-Advances :
    (e : ResponseDecodeError) (s : Span) {v : ℕ} {rest : Span}
    → require e (consume_2_octets s) ≡ ok (v, rest)
    → Advances 2 s rest
unfolding require consume_2_octets
consume_2_octets-Advances e s h = (2, ground arith, ground arith, omega arith)

consume_4_octets-Advances :
    (e : ResponseDecodeError) (s : Span) {v : ℕ} {rest : Span}
    → require e (consume_4_octets s) ≡ ok (v, rest)
    → Advances 4 s rest
unfolding require consume_4_octets
consume_4_octets-Advances e s h = (4, ground arith, ground arith, omega arith)

-- What a parser leaves behind on success is what is left of `s` behind at least `c` octets.
record Moves {ℓ} {A : Type ℓ} (c : ℕ) (s : Span) (m : Outcome (A × Span)) : Type ℓ where
  advances : (a : A) (rest : Span) → m ≡ ok (a, rest) → Advances c s rest

ok_Moves {ℓ} : {A : Type ℓ} {s : Span} {a : A} → Moves 0 s (ok (a, s))
ok_Moves = record { advances = λ b rest h. (0, ground arith, omega arith, omega arith) }

>>=-Moves :
    {A B : Type 0} {a b : ℕ} {s : Span} (m : Outcome (A × Span)) (f : A × Span → Outcome (B × Span))
    → Moves a s m
    → ((x : A) (t : Span) → Moves b t (f (x, t)))
    → Moves (a + b) s (m >>= f)
>>=-Moves {a} {b} {s} m f h k = record {
  advances = λ y rest e.
      let ((x, t), e', e'') = >>=-eq-ok m f e in
      Advances-trans a b s t rest (h.advances x t e') ((k x t).advances y rest e'');
}

consume_2_octets-Moves :
    (e : ResponseDecodeError) (s : Span) → Moves 2 s (require e (consume_2_octets s))
consume_2_octets-Moves e s = record { advances = λ v rest h. consume_2_octets-Advances e s h }

consume_4_octets-Moves :
    (e : ResponseDecodeError) (s : Span) → Moves 4 s (require e (consume_4_octets s))
consume_4_octets-Moves e s = record { advances = λ v rest h. consume_4_octets-Advances e s h }

module _ (ptr_fuel : ℕ) (m : List ℕ) (b : IsBytes m) (fits : length m < 2 ^ 64) where
  name-Moves :
      {B : Type 0} {c : ℕ} {s : Span} {f : ParseDomainNameSuccess → Outcome (B × Span)}
      → IsWithin m s
      → ((r : ParseDomainNameSuccess) → Moves c (subspan r.bytes_to_consume s) (f r))
      → Moves c s (parse_domain_name ptr_fuel m s >>= f)
  name-Moves {c} {s} {f} w k = record {
    advances = λ y rest e.
        let (r, found, e') = >>=-eq-ok (parse_domain_name ptr_fuel m s) f e in
        let wf : IsMessage m = record {
          bytes = b;
          nonempty = omega (
            arith,
            parse_domain_name-nonempty ptr_fuel m s found,
            ap length w.here,
            length-append s.octets w.beyond,
            length-drop s.start m,
          );
          fits = fits;
        } in
        let bound =
          parse_domain_name-in_bounds ptr_fuel m s r wf (IsWithin-IsBytes m s b w) found in
        let (j, q, inside, much) = (k r).advances y rest e' in
        let (j', q', inside', much') =
          Advances-trans 0 c s (subspan r.bytes_to_consume s) rest
            (r.bytes_to_consume, refl, bound, omega arith) (j, q, inside, much) in
        (j', q', inside', omega arith);
  }

  -- A question takes four octets at least behind its name, and a record ten.
  question_entry-Moves : (s : Span) → IsWithin m s → Moves 4 s (question_entry ptr_fuel m s)
  unfolding question_entry
  question_entry-Moves s w = name-Moves w λ r.
      >>=-Moves _ _ (consume_2_octets-Moves _ _)
        λ qtype t. >>=-Moves _ _ (consume_2_octets-Moves _ _) λ qclass u. ok_Moves

  rdata_entry-Moves :
      (rtype rdlen : ℕ) (s : Span) → Moves 0 s (rdata_entry ptr_fuel m rtype rdlen s)
  unfolding rdata_entry
  rdata_entry-Moves rtype rdlen s = record {
    advances = λ d rest h. elim (Bool-cases (ltb (length s.octets) rdlen)) [
      | inl short ↦ cc (rw short at h)
      | inr long ↦
          let (r, e, e') = >>=-eq-ok (parse_rdata ptr_fuel m rtype _) _ (rw long at h) in
          (rdlen, ground arith, ground arith, omega arith)
    ];
  }

  resource_record-Moves : (s : Span) → IsWithin m s → Moves 10 s (resource_record ptr_fuel m s)
  unfolding resource_record
  resource_record-Moves s w = name-Moves w λ r.
      >>=-Moves _ _ (consume_2_octets-Moves _ _) λ rtype t.
        >>=-Moves _ _ (consume_2_octets-Moves _ _) λ rclass t.
          >>=-Moves _ _ (consume_4_octets-Moves _ _) λ ttl t.
            >>=-Moves _ _ (consume_2_octets-Moves _ _)
              λ rdlen t. >>=-Moves _ _ (rdata_entry-Moves rtype rdlen t) λ rdata t. ok_Moves

commit-Inv :
    {A : Type 0} (c : ℕ) (d : ResponseDecoder) (r : Outcome (A × Span))
    → Inv d
    → Moves c d.remaining_message r
    → Inv (commit d r).0
unfolding commit invalidated
commit-Inv c d (ok (a, rest)) v h = record {
  bytes = v.bytes;
  fits = v.fits;
  within = Advances-IsWithin _ c _ rest (h.advances a rest refl) v.within;
}
commit-Inv c d (fail e) v h = record { bytes = tt; fits = omega arith; within = IsWithin-whole [] }
commit-Inv c d diverge v h = v

-- A decoder that is made over any message of octets satisfies the invariant.
pub make-Inv : (m : List ℕ) → IsBytes m → length m < 2 ^ 64 → Inv (make m)
unfolding make
make-Inv m b fits = record { bytes = b; fits = fits; within = IsWithin-whole m }

-- The calls of a decoder, in the order in which a client makes them.
pub data Call : Type 0 where
  header question record_entry : Call

pub step : ℕ → Call → ResponseDecoder → ResponseDecoder
step ptr_fuel header d = (consume_header d).0
step ptr_fuel question d = (consume_question_entry ptr_fuel d).0
step ptr_fuel record_entry d = (consume_resource_record ptr_fuel d).0

pub run : ℕ → List Call → ResponseDecoder → ResponseDecoder
unfolding step
run ptr_fuel [] d = d
run ptr_fuel (c ∷ cs) d = run ptr_fuel cs (step ptr_fuel c d)

step-Inv : (ptr_fuel : ℕ) (c : Call) (d : ResponseDecoder) → Inv d → Inv (step ptr_fuel c d)
unfolding step consume_header consume_question_entry consume_resource_record
step-Inv ptr_fuel header d v = elim (Bool-cases (ltb (length d.remaining_message.octets) 12)) [
  | inl short ↦ rw (short, step, consume_header) v
  | inr long ↦
      rw (long, step, consume_header)
        (record {
          bytes = v.bytes;
          fits = v.fits;
          within = IsWithin-subspan _ d.remaining_message 12 (ground arith) v.within;
        })
]
step-Inv ptr_fuel question d v =
    commit-Inv 4 d _ v
      (question_entry-Moves ptr_fuel d.original_message v.bytes v.fits d.remaining_message v.within)
step-Inv ptr_fuel record_entry d v =
    commit-Inv 10 d _ v (
      resource_record-Moves ptr_fuel d.original_message v.bytes v.fits d.remaining_message v.within)

-- Whatever calls are made of a decoder over a message of octets that a span can hold, in whatever
-- order and with whatever result, what remains is a part of the octets of its message at the place
-- where it stands.
pub run-make-Inv :
    (ptr_fuel : ℕ) (m : List ℕ) (cs : List Call)
    → IsBytes m
    → length m < 2 ^ 64
    → Inv (run ptr_fuel cs (make m))
unfolding run
run-make-Inv ptr_fuel m cs b fits = from (make m) cs (make-Inv m b fits)
  where
    from : (d : ResponseDecoder) (cs : List Call) → Inv d → Inv (run ptr_fuel cs d)
    from d [] v = v
    from d (c ∷ cs) v = from (step ptr_fuel c d) cs (step-Inv ptr_fuel c d v)

-- A resource record that is read leaves at least ten octets less of a decoder that satisfies the
-- invariant, and what it leaves is the end of what was there.
pub consume_resource_record-Advances :
    (ptr_fuel : ℕ) (d : ResponseDecoder) (rr : ResourceRecord)
    → Inv d
    → (consume_resource_record ptr_fuel d).1 ≡ ok rr
    → Advances 10 d.remaining_message (consume_resource_record ptr_fuel d).0.remaining_message
unfolding consume_resource_record
consume_resource_record-Advances ptr_fuel d rr v h =
    committed (resource_record ptr_fuel d.original_message d.remaining_message)
      (resource_record-Moves ptr_fuel d.original_message v.bytes v.fits d.remaining_message
        v.within)
      h
  where
    committed :
        (r : Outcome (ResourceRecord × Span))
        → Moves 10 d.remaining_message r
        → (commit d r).1 ≡ ok rr
        → Advances 10 d.remaining_message (commit d r).0.remaining_message
    committed (ok (a, rest)) k e = unfold commit in k.advances a rest refl
    committed (fail x) k e = unfold commit in cc
    committed diverge k e = unfold commit in cc
