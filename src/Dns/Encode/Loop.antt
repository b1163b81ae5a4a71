-- ===== src/Dns/Encode/Loop.antt =====
-- The loop of `encode_domain_name` of Protocol.hpp with `write_label`.
use mathlib.Core.List.{append_assoc, append-nil}
use corosig.Text.{Part, texts}
use corosig.Prelude.{
  ℕ, suc, ◌+◌, ◌-◌, ◌≤◌, ◌<◌, ◌≡◌, refl, sym, ap, ◌∙◌, Bool, false, List, [], ◌∷◌, ◌++◌, Option,
  none, some, length, drop, All, All-weaken, ltb, leb, if◌then◌else◌, Bool-cases, Option-cases,
  length-drop, length-append, inl, inr, arith,
}
use corosig.Dns.Wire.{CountingOutputIterator, put, max_value}
use corosig.Dns.Encode.{
  Node, done, refused, QuestionEncodeError, too_long_domain_name_label, empty_label, put_all,
  new_node, find, write_new, write_found, write_label, write_labels, WriteLabelSuccess,
}
use corosig.Dns.Encode.Suffixes.{Ascending, Longer, insert-All, find-Longer}

-- The labels, each behind its length, and the root.
abbrev pub plain_name : List (List ℕ) → List ℕ
plain_name [] = 0 ∷ []
plain_name (l ∷ ls) = length l ∷ (l ++ plain_name ls)

-- What is wrong with the first label that is no label of a domain name.
abbrev pub first_bad : List (List ℕ) → Option QuestionEncodeError
first_bad [] = none
first_bad ([] ∷ ls) = some empty_label
first_bad ((c ∷ cs) ∷ ls) =
    if ltb 63 (length (c ∷ cs)) then some too_long_domain_name_label else first_bad ls

abbrev pub wrote : CountingOutputIterator → List ℕ → CountingOutputIterator
wrote out octets = record { sent = out.sent ++ octets; written = out.written + length octets }

wrote-wrote :
    (out : CountingOutputIterator) (xs ys : List ℕ) → wrote (wrote out xs) ys ≡ wrote out (xs ++ ys)
wrote-wrote out xs ys = λ i. record {
  sent = append_assoc out.sent xs ys i;
  written =
      (let e : out.written + length xs + length ys ≡ out.written + length (xs ++ ys) =
            omega (arith, length-append xs ys) in
          e)
        i;
}

put_all_lem : (cs : List ℕ) (out : CountingOutputIterator) → put_all cs out ≡ wrote out cs
unfolding put_all put
put_all_lem [] out = λ i. record {
  sent = sym (append-nil out.sent) i;
  written = (let e : out.written ≡ out.written + 0 = omega arith in e) i;
}
put_all_lem (c ∷ cs) out = put_all_lem cs (put out c) ∙ wrote-wrote out (c ∷ []) cs

first_bad-later :
    (t : List ℕ) (ts : List (List ℕ))
    → first_bad (t ∷ []) ≡ none
    → first_bad (t ∷ ts) ≡ first_bad ts
first_bad-later [] ts h = cc
first_bad-later (c ∷ cs) ts h = ground arith

first_bad-first :
    (t : List ℕ) (ts : List (List ℕ)) (e : QuestionEncodeError)
    → first_bad (t ∷ []) ≡ some e
    → first_bad (t ∷ ts) ≡ some e
first_bad-first [] ts e h = h
first_bad-first (c ∷ cs) ts e h = ground arith

-- Every string of the map is that of a label before the place `i` of a name of `last` characters.
abbrev IsBehind : ℕ → ℕ → Node → Type 0
IsBehind last i b = last < length b.str + i

-- What a label that is written leaves.
record Written (name : List ℕ) (l : Part) (out : CountingOutputIterator)
    (r : WriteLabelSuccess × List Node) : Type 0 where
  pub result : r.0 ≡ record { out = wrote out (length l.text ∷ l.text); all_compressed = false }
  pub behind : All (IsBehind (length name) (suc l.begin)) r.1

module _ (hash : List ℕ → ℕ) (room : ℕ → Bool) (name : List ℕ) where
  write_new_lem :
      (out : CountingOutputIterator) (l : Part) (node : Node) (bs : List Node)
      → IsBehind (length name) (suc l.begin) node
      → All (IsBehind (length name) (suc l.begin)) bs
      → Written name l out (write_new hash room out l.text node bs)
  unfolding write_new put
  write_new_lem out l node bs h behind = record {
    result =
        ap (λ o. record { out = o; all_compressed = false })
          (put_all_lem l.text (put out (length l.text))
            ∙ wrote-wrote out (length l.text ∷ []) l.text);
    behind = elim (Bool-cases (leb out.written max_value)) [
      | inl e ↦ rw e (insert-All (IsBehind (length name) (suc l.begin)) hash room node bs h behind)
      | inr e ↦ rw e behind
    ];
  }

  write_label-done :
      (out : CountingOutputIterator) (label remaining : List ℕ) (bs : List Node)
      → first_bad (label ∷ []) ≡ none
      → (let node = new_node hash room remaining out.written in
          write_label hash room out label remaining bs
          ≡ done (write_found hash room out label node bs (find node bs)))
  unfolding write_label
  write_label-done out [] remaining bs h = cc
  write_label-done out (c ∷ cs) remaining bs h = ground arith

  write_label_lem :
      (out : CountingOutputIterator) (l : Part) (bs : List Node)
      → All (IsBehind (length name) l.begin) bs
      → l.begin ≤ length name
      → first_bad (l.text ∷ []) ≡ none
      → (r : WriteLabelSuccess × List Node) × (write_label hash room out l.text
            (drop l.begin name)
            bs
          ≡ done r)
        × Written name l out r
  unfolding write_found new_node
  write_label_lem out l bs behind inside fine =
      let node = new_node hash room (drop l.begin name) out.written in
      let size : length node.str ≡ length name - l.begin = length-drop l.begin name in
      let longer : Longer (length node.str) bs =
        All-weaken (IsBehind (length name) l.begin) (λ b. length node.str < length b.str)
          (λ b h. omega arith) bs behind in
      let later : All (IsBehind (length name) (suc l.begin)) bs =
        All-weaken (IsBehind (length name) l.begin) (IsBehind (length name) (suc l.begin))
          (λ b h. omega arith) bs behind in
      (
        write_new hash room out l.text node bs,
        write_label-done out l.text (drop l.begin name) bs fine
            ∙ ap (λ o. done (write_found hash room out l.text node bs o))
                (find-Longer node bs longer),
        write_new_lem out l node bs (omega arith) later,
      )

  write_label_refused :
      (out : CountingOutputIterator) (label remaining : List ℕ) (bs : List Node)
      (e : QuestionEncodeError)
      → first_bad (label ∷ []) ≡ some e
      → write_label hash room out label remaining bs ≡ refused e
  unfolding write_label
  write_label_refused out [] remaining bs e h = ground arith
  write_label_refused out (c ∷ cs) remaining bs e h = ground arith

  write_labels-step :
      (l : Part) (ls : List Part) (out : CountingOutputIterator) (bs : List Node)
      (r : WriteLabelSuccess × List Node)
      → write_label hash room out l.text (drop l.begin name) bs ≡ done r
      → Written name l out r
      → write_labels hash room name (l ∷ ls) out bs
        ≡ write_labels hash room name ls (wrote out (length l.text ∷ l.text)) r.1
  unfolding write_labels
  write_labels-step l ls out bs (w, bs') h t = rw (h, t.result) refl

  -- The loop writes every label in full, or refuses the first bad one.
  abbrev pub LoopEnds :
      List Part → CountingOutputIterator → List Node → Option QuestionEncodeError → Type 0
  LoopEnds ls out bs none =
      (bs' : List Node) × (write_labels hash room name ls out bs
        ≡ done (wrote out (plain_name (texts ls)), bs'))
  LoopEnds ls out bs (some e) = write_labels hash room name ls out bs ≡ refused e

  LoopEnds-step :
      (l : Part) (ls : List Part) (out : CountingOutputIterator) (bs bs' : List Node)
      (o : Option QuestionEncodeError)
      → write_labels hash room name (l ∷ ls) out bs
        ≡ write_labels hash room name ls (wrote out (length l.text ∷ l.text)) bs'
      → LoopEnds ls (wrote out (length l.text ∷ l.text)) bs' o
      → LoopEnds (l ∷ ls) out bs o
  LoopEnds-step l ls out bs bs' none step (last, e) = (
    last,
    step
        ∙ e
        ∙ ap (λ o. done (o, last))
            (wrote-wrote out (length l.text ∷ l.text) (plain_name (texts ls))),
  )
  LoopEnds-step l ls out bs bs' (some e) step h = step ∙ h

  pub write_labels_lem :
      (ls : List Part) (i : ℕ) (out : CountingOutputIterator) (bs : List Node)
      → Ascending i (length name) ls
      → All (IsBehind (length name) i) bs
      → LoopEnds ls out bs (first_bad (texts ls))
  unfolding write_labels put
  write_labels_lem [] i out bs a b = (bs, refl)
  write_labels_lem (l ∷ ls) i out bs (lo, hi, a) b = elim (Option-cases (first_bad (l.text ∷ []))) [
    | inl fine ↦
        let (r, e, t) =
          write_label_lem out l bs
            (All-weaken (IsBehind (length name) i) (IsBehind (length name) l.begin)
              (λ b h. omega arith) bs b)
            hi fine in
        rw (first_bad-later l.text (texts ls) fine) (
          LoopEnds-step l ls out bs r.1 (first_bad (texts ls)) (write_labels-step l ls out bs r e t)
            (write_labels_lem ls (suc l.begin) (wrote out (length l.text ∷ l.text)) r.1 a t.behind))
    | inr (e, bad) ↦
        rw (first_bad-first l.text (texts ls) e bad)
          (rw (write_label_refused out l.text (drop l.begin name) bs e bad) refl)
  ]
