-- ===== src/Dns/Encode.antt =====
-- The question encoder of Protocol.hpp: the labels of a name, the map of the suffixes that a
-- compression pointer may stand for, and `encode_question`. A character is its octet.
pub mod Suffixes
pub mod Loop
pub mod Plain
pub mod Names
pub mod RoundTrip
pub mod TooLong
mod Tests
use corosig.Prelude.{
  ℕ, zero, suc, ◌+◌, ◌-◌, ◌%◌, Bool, true, false, ◌&&◌, List, [], ◌∷◌, Option, none, some, length,
  drop, ltb, leb, ◌==◌, if◌then◌else◌, ◌≡◌, refl,
}
use corosig.Text.{Part, dot, split_view}
use corosig.Dns.Wire.{CountingOutputIterator, put, write_hton, encode_compression_ptr, max_value}
use corosig.Dns.Name.{fqdn_max_octet_len}
use corosig.Dns.Header.{Header, set_opcode, set_recursion_desired, encode_header}

pub data QuestionEncodeError : Type 0 where
  too_long_domain_name too_long_domain_name_label empty_label : QuestionEncodeError

pub data Result {ℓ} (A : Type ℓ) : Type ℓ where
  done : A → Result A
  refused : QuestionEncodeError → Result A

infixl 5 ◌>>=◌
abbrev pub ◌>>=◌ {ℓ κ} : {A : Type ℓ} {B : Type κ} → Result A → (A → Result B) → Result B
result >>= rest = elim result [ done value ↦ rest value | refused e ↦ refused e ]

-- `if (sv.ends_with('.')) sv.remove_suffix(1)`
pub strip_dot : List ℕ → List ℕ
strip_dot [] = []
strip_dot (c ∷ []) = if c == dot then [] else c ∷ []
strip_dot (c ∷ d ∷ cs) = c ∷ strip_dot (d ∷ cs)

pub split_into_labels : List ℕ → List Part
unfolding split_view strip_dot
split_into_labels sv = split_view (strip_dot sv)

-- `strlen` is the length of `str`.
pub record Node : Type 0 where
  pub hash : ℕ
  pub offset : ℕ
  pub str : List ℕ

-- `<` and `==` of two string views.
pub str_before : List ℕ → List ℕ → Bool
str_before xs [] = false
str_before [] (y ∷ ys) = true
str_before (x ∷ xs) (y ∷ ys) =
    let rest = str_before xs ys in if ltb x y then true else if ltb y x then false else rest

pub str_same : List ℕ → List ℕ → Bool
str_same [] [] = true
str_same [] (y ∷ ys) = false
str_same (x ∷ xs) [] = false
str_same (x ∷ xs) (y ∷ ys) = x == y && str_same xs ys

-- `<` and `==` of two nodes: the tuple of the hash and the string.
pub node_before : Node → Node → Bool
unfolding str_before
node_before a b =
    if ltb a.hash b.hash then true else if ltb b.hash a.hash then false else str_before a.str b.str

pub node_same : Node → Node → Bool
unfolding str_same
node_same a b = a.hash == b.hash && str_same a.str b.str

-- `std::lower_bound`: the nodes from the first that is not before the wanted one.
pub lower_bound : Node → List Node → List Node
unfolding node_before
lower_bound node [] = []
lower_bound node (b ∷ bs) =
    let rest = lower_bound node bs in if node_before b node then rest else b ∷ bs

pub found : Node → List Node → Option Node
unfolding node_same
found node [] = none
found node (b ∷ bs) = if node_same b node then some b else none

pub find : Node → List Node → Option Node
unfolding found lower_bound
find node buckets = found node (lower_bound node buckets)

-- Behind the nodes that are not after it, where `std::upper_bound` points.
pub insert_sorted : Node → List Node → List Node
unfolding node_before
insert_sorted node [] = node ∷ []
insert_sorted node (b ∷ bs) =
    let rest = insert_sorted node bs in if node_before node b then node ∷ b ∷ bs else b ∷ rest

-- `std::ranges::copy` to the iterator.
pub put_all : List ℕ → CountingOutputIterator → CountingOutputIterator
unfolding put
put_all [] out = out
put_all (c ∷ cs) out = put_all cs (put out c)

pub record WriteLabelSuccess : Type 0 where
  pub out : CountingOutputIterator
  pub all_compressed : Bool

-- `hash` is std::hash<std::string_view>. `room` says if a vector of that many nodes can grow.
module _ (hash : List ℕ → ℕ) (room : ℕ → Bool) where
  pub new_node : List ℕ → ℕ → Node
  new_node s written = record { hash = hash s % 65536; offset = written % 65536; str = s }

  pub insert : Node → List Node → List Node
  unfolding insert_sorted
  insert node buckets = if room (length buckets) then insert_sorted node buckets else buckets

  -- The label when no node of the map is the rest of the name.
  write_new : CountingOutputIterator → List ℕ → Node → List Node → WriteLabelSuccess × List Node
  unfolding insert put_all put
  write_new out label node buckets =
      let buckets' = if leb out.written max_value then insert node buckets else buckets in
      (record { out = put_all label (put out (length label)); all_compressed = false }, buckets')

  -- What the label becomes, by what the map has for the rest of the name.
  pub write_found :
      CountingOutputIterator
      → List ℕ
      → Node
      → List Node
      → Option Node
      → WriteLabelSuccess × List Node
  unfolding write_new
  write_found out label node buckets none = write_new out label node buckets
  write_found out label node buckets (some known) =
      (record { out = encode_compression_ptr out known.offset; all_compressed = true }, buckets)

  pub write_label :
      CountingOutputIterator → List ℕ → List ℕ → List Node → Result (WriteLabelSuccess × List Node)
  unfolding write_found new_node find
  write_label out [] remaining_name buckets = refused empty_label
  write_label out (c ∷ cs) remaining_name buckets =
      if ltb 63 (length (c ∷ cs))
      then refused too_long_domain_name_label
      else (let node = new_node remaining_name out.written in
          done (write_found out (c ∷ cs) node buckets (find node buckets)))

  -- The loop of `encode_domain_name`, with the octet behind it.
  pub write_labels :
      List ℕ
      → List Part
      → CountingOutputIterator
      → List Node
      → Result (CountingOutputIterator × List Node)
  unfolding write_label put
  write_labels name [] out buckets = done (put out 0, buckets)
  write_labels name (l ∷ ls) out buckets = do
    (written, buckets') ← write_label out l.text (drop l.begin name) buckets
    let rest = write_labels name ls written.out buckets'
    if written.all_compressed then done (written.out, buckets') else rest

  pub encode_domain_name :
      CountingOutputIterator → List ℕ → List Node → Result (CountingOutputIterator × List Node)
  unfolding write_labels split_into_labels
  encode_domain_name out name buckets =
      if ltb fqdn_max_octet_len (length name)
      then refused too_long_domain_name
      else write_labels name (split_into_labels name) out buckets

pub record Question : Type 0 where
  pub id : ℕ
  pub opcode : ℕ
  pub recursion_desired : Bool
  pub name : List ℕ
  pub qtype : ℕ
  pub qclass : ℕ

-- The header of a question. The fields that the initializer does not name are 0.
pub question_header : Question → Header
unfolding set_recursion_desired set_opcode
question_header q = record {
  id = q.id;
  flags = set_recursion_desired q.recursion_desired (set_opcode q.opcode (record { value = 0 }));
  qdcount = 1;
  ancount = 0;
  nscount = 0;
  arcount = 0;
}

abbrev pub start_of : List ℕ → CountingOutputIterator
start_of sent = record { sent = sent; written = 0 }

-- `sent` is what was written through `out` before. The result is what was written after.
pub encode_question : (List ℕ → ℕ) → (ℕ → Bool) → List ℕ → Question → Result (List ℕ)
unfolding encode_header encode_domain_name question_header write_hton
encode_question hash room sent question = do
  (out, buckets) ←
      encode_domain_name hash room (encode_header (start_of sent) (question_header question))
        question.name []
  done (write_hton (write_hton out question.qtype) question.qclass).sent
