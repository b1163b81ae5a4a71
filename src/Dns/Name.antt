-- ===== src/Dns/Name.antt =====
-- `decode_label` and `parse_domain_name` of Protocol.cpp, with the two nested loops as two
-- functions on fuel over the variables that the loops change.
pub mod Denotes
pub mod Rounds
pub mod Sound
pub mod Inversion
pub mod Follows
pub mod Complete
pub mod Refuses
pub mod Termination
pub mod Loops
mod Tests
use corosig.Prelude.{
  ℕ, zero, suc, ◌+◌, ◌-◌, ◌%◌, ◌^◌, Bool, true, false, List, [], ◌∷◌, Option, none, some, length,
  take, drop, ltb, ◌==◌, if◌then◌else◌,
}
use corosig.Dns.Errors.{
  Outcome, ok, fail, diverge, ◌>>=◌, label_no_len, label_len_too_big, label_len_oob,
  name_len_too_big, compression_ptr_oob, compression_ptr_infinite_loop, no_root_label,
}
use corosig.Dns.Span.{Span, whole, subspan}
use corosig.Dns.Wire.{decode_compression_ptr}

abbrev pub fqdn_max_octet_len : ℕ
fqdn_max_octet_len = 255

-- On the list of the octets and the place of the first.
decode_label_at : ℕ → List ℕ → Outcome Span
decode_label_at start [] = fail label_no_len
decode_label_at start (len ∷ rest) =
    if ltb 63 len
    then fail label_len_too_big
    else if ltb (length (len ∷ rest)) ((len + 1) % 256)
    then fail label_len_oob
    else ok (record { start = start + 1; octets = take len rest })

unfoldable pub decode_label : Span → Outcome Span
unfolding decode_label_at
decode_label input = decode_label_at input.start input.octets

-- `m_original_message_start` is the message's first octet.
pub record DomainName : Type 0 where
  pub self_start : ℕ

pub record ParseDomainNameSuccess : Type 0 where
  pub bytes_to_consume : ℕ
  pub domain_name : DomainName

-- The variables of `parse_domain_name` that live across its rounds.
pub record Cursor : Type 0 where
  pub label_position : Span
  pub first_ptr : Bool
  pub bytes_to_consume : ℕ
  pub domain_name_len : ℕ

-- `original_message.size() - 1` on size_t.
pub last_index : List ℕ → ℕ
last_index message = (length message + 2 ^ 64 - 1) % 2 ^ 64

pub jump : List ℕ → ℕ → Cursor → Cursor
jump message ptr c = record {
  label_position = subspan ptr (whole message);
  first_ptr = false;
  bytes_to_consume = if c.first_ptr then (c.bytes_to_consume + 2) % 256 else c.bytes_to_consume;
  domain_name_len = c.domain_name_len;
}

-- The inner loop: `while (std::optional ptr = decode_compression_ptr(label_position))`.
pub follow_ptrs : List ℕ → ℕ → ℕ → Cursor → Outcome Cursor
unfolding last_index jump
follow_ptrs message zero first c = diverge
follow_ptrs message (suc fuel) first c = elim (decode_compression_ptr c.label_position.octets) [
  | none ↦ ok c
  | some ptr ↦
      let next =
        follow_ptrs message fuel (if c.first_ptr then ptr else first) (jump message ptr c) in
      if ltb (last_index message) ptr
      then fail compression_ptr_oob
      else if ptr == first
      then fail compression_ptr_infinite_loop
      else next
]

-- The offset that `first` has before a pointer is met: no 14-bit offset.
abbrev pub no_ptr : ℕ
no_ptr = 0xFFFF

label_size_with_len : Span → ℕ
label_size_with_len label = (length label.octets + 1) % 256

pub count_label : Span → Cursor → Cursor
unfolding label_size_with_len
count_label label c = record c {
  bytes_to_consume =
      if c.first_ptr
      then (c.bytes_to_consume + label_size_with_len label) % 256
      else c.bytes_to_consume;
  domain_name_len = c.domain_name_len + label_size_with_len label;
}

pub skip_label : Span → Cursor → Cursor
unfolding label_size_with_len
skip_label label c = record c {
  label_position = subspan (label_size_with_len label) c.label_position;
}

is_empty : List ℕ → Bool
is_empty [] = true
is_empty (x ∷ xs) = false

-- What a round does with its label: refuse the length, go on behind the label, or return.
finish_round :
    ℕ → Span → Cursor → (Cursor → Outcome ParseDomainNameSuccess) → Outcome ParseDomainNameSuccess
unfolding is_empty skip_label
finish_round name_start label c again =
    if ltb fqdn_max_octet_len c.domain_name_len
    then fail name_len_too_big
    else if is_empty label.octets
    then ok (record {
      bytes_to_consume = c.bytes_to_consume;
      domain_name = record { self_start = name_start };
    })
    else again (skip_label label c)

-- The outer loop. `ptr_fuel` bounds each run of the inner one.
pub walk : List ℕ → ℕ → ℕ → ℕ → List ℕ → Cursor → Outcome ParseDomainNameSuccess
unfolding finish_round count_label
walk message ptr_fuel rounds name_start [] c = fail no_root_label
walk message ptr_fuel zero name_start (x ∷ xs) c = diverge
walk message ptr_fuel (suc rounds) name_start (x ∷ xs) c = do
  c' ← follow_ptrs message ptr_fuel no_ptr c
  label ← decode_label c'.label_position
  finish_round name_start label (count_label label c')
      (λ n. walk message ptr_fuel rounds name_start n.label_position.octets n)

abbrev pub start_cursor : Span → Cursor
start_cursor s = record {
  label_position = s;
  first_ptr = true;
  bytes_to_consume = 0;
  domain_name_len = 0;
}

-- 256 rounds, as `domain_name_len` grows in each and ends the loop above 255.
unfoldable pub parse_domain_name : ℕ → List ℕ → Span → Outcome ParseDomainNameSuccess
unfolding walk follow_ptrs
parse_domain_name ptr_fuel message label_position =
    walk message ptr_fuel 256 label_position.start label_position.octets
      (start_cursor label_position)
