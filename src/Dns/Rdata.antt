-- ===== src/Dns/Rdata.antt =====
-- The RDATA parsers of Protocol.cpp. `ptr_fuel` is handed on to `parse_domain_name`.
use corosig.Prelude.{
  ℕ, ◌+◌, ◌%◌, not, ◌||◌, List, [], ◌∷◌, Option, none, some, length, take, ltb, ◌==◌, if◌then◌else◌,
}
use corosig.Dns.Errors
use corosig.Dns.Errors.{Outcome, ResponseDecodeError, ok, fail, diverge, ◌>>=◌}
use corosig.Dns.Span.{Span, subspan}
use corosig.Dns.Wire.{consume_2_octets, consume_4_octets}
use corosig.Dns.Name.{DomainName, parse_domain_name}
use corosig.Ip.{Ipv4Addr, Ipv6Addr}

-- `CharacterString`, `RDataNull`, `RDataObsolete` and `RDataNotYetSupported` hold spans.
pub data RData : Type 0 where
  canonical_name mailbox mail_group mailbox_rename name_server ptr : DomainName → RData
  hardware_info : Span → Span → RData
  mail_info : DomainName → DomainName → RData
  mail_exchange : DomainName → ℕ → RData
  null_data : Span → RData
  start_of_authority : DomainName → DomainName → ℕ → ℕ → ℕ → ℕ → ℕ → RData
  ipv4 : Ipv4Addr → RData
  ipv6 : Ipv6Addr → RData
  obsolete not_yet_supported : ℕ → Span → RData

-- `if (!res) return Failure{error};`
unfoldable pub or_else {ℓ} : {A : Type ℓ} → ResponseDecodeError → Outcome A → Outcome A
or_else error (ok a) = ok a
or_else error (fail e) = fail error
or_else error diverge = diverge

unfoldable pub require {ℓ} : {A : Type ℓ} → ResponseDecodeError → Option A → Outcome A
require error (some a) = ok a
require error none = fail error

parse_character_string_at : Span → List ℕ → Option Span
parse_character_string_at s [] = none
parse_character_string_at s (len ∷ rest) =
    if ltb (length s.octets) (len + 1)
    then none
    else some (record { start = s.start + 1; octets = take len rest })

pub parse_character_string : Span → Option Span
unfolding parse_character_string_at
parse_character_string s = parse_character_string_at s s.octets

pub parse_rdata_ipv4 : Span → Outcome RData
parse_rdata_ipv4 raw =
    if not (length raw.octets == 4)
    then fail Errors.resource_record_data_bad_a
    else ok (ipv4 (record { octets = raw.octets }))

pub parse_rdata_ipv6 : Span → Outcome RData
parse_rdata_ipv6 raw =
    if not (length raw.octets == 16)
    then fail Errors.resource_record_data_bad_aaaa
    else ok (ipv6 (record { octets = raw.octets }))

module _ (ptr_fuel : ℕ) (message : List ℕ) where
  -- `parse_domain_name`, with every error turned into `error`, and the span behind the name.
  pub name_in : ResponseDecodeError → Span → Outcome (DomainName × Span)
  unfolding or_else
  name_in error raw = do
    r ← or_else error (parse_domain_name ptr_fuel message raw)
    ok (r.domain_name, subspan r.bytes_to_consume raw)

  pub parse_rdata_one_domain_name :
      (DomainName → RData) → ResponseDecodeError → Span → Outcome RData
  unfolding or_else
  parse_rdata_one_domain_name make error raw = do
    r ← or_else error (parse_domain_name ptr_fuel message raw)
    ok (make r.domain_name)

  pub parse_rdata_soa : Span → Outcome RData
  unfolding name_in require
  parse_rdata_soa raw = do
    (mname, raw1) ← name_in Errors.resource_record_data_bad_soa raw
    (rname, raw2) ← name_in Errors.resource_record_data_bad_soa raw1
    (serial, raw3) ← require Errors.resource_record_data_bad_soa (consume_4_octets raw2)
    (refresh, raw4) ← require Errors.resource_record_data_bad_soa (consume_4_octets raw3)
    (retry, raw5) ← require Errors.resource_record_data_bad_soa (consume_4_octets raw4)
    (expire, raw6) ← require Errors.resource_record_data_bad_soa (consume_4_octets raw5)
    (minimum, raw7) ← require Errors.resource_record_data_bad_soa (consume_4_octets raw6)
    ok (start_of_authority mname rname serial refresh retry expire minimum)

  pub parse_rdata_minfo : Span → Outcome RData
  unfolding name_in
  parse_rdata_minfo raw = do
    (rmailbx, raw1) ← name_in Errors.resource_record_data_bad_minfo raw
    (emailbx, raw2) ← name_in Errors.resource_record_data_bad_minfo raw1
    ok (mail_info rmailbx emailbx)

  pub parse_rdata_mx : Span → Outcome RData
  unfolding name_in require
  parse_rdata_mx raw = do
    (preference, raw1) ← require Errors.resource_record_data_bad_minfo (consume_2_octets raw)
    (exchange, raw2) ← name_in Errors.resource_record_data_bad_minfo raw1
    ok (mail_exchange exchange preference)

pub parse_rdata_hinfo : Span → Outcome RData
unfolding require parse_character_string
parse_rdata_hinfo raw = do
  cpu ← require Errors.resource_record_data_bad_hinfo (parse_character_string raw)
  os ←
      require Errors.resource_record_data_bad_hinfo
        (parse_character_string (subspan (length cpu.octets + 1) raw))
  ok (hardware_info cpu os)

-- The switch of `parse_rdata` over `RdataType(rtype)`, a value of the underlying type uint8_t.
rdata_of : ℕ → List ℕ → ℕ → ℕ → Span → Outcome RData
unfolding parse_rdata_ipv4 parse_rdata_ipv6 parse_rdata_one_domain_name parse_rdata_hinfo
    parse_rdata_minfo parse_rdata_mx parse_rdata_soa
rdata_of ptr_fuel message type rtype raw =
    if type == 1
    then parse_rdata_ipv4 raw
    else if type == 28
    then parse_rdata_ipv6 raw
    else if type == 2
    then one name_server Errors.resource_record_data_bad_ns raw
    else if type == 5
    then one canonical_name Errors.resource_record_data_bad_cname raw
    else if type == 7
    then one mailbox Errors.resource_record_data_bad_mb raw
    else if type == 8
    then one mail_group Errors.resource_record_data_bad_mg raw
    else if type == 9
    then one mailbox_rename Errors.resource_record_data_bad_mr raw
    else if type == 12
    then one ptr Errors.resource_record_data_bad_ptr raw
    else if type == 13
    then parse_rdata_hinfo raw
    else if type == 14
    then parse_rdata_minfo ptr_fuel message raw
    else if type == 15
    then parse_rdata_mx ptr_fuel message raw
    else if type == 6
    then parse_rdata_soa ptr_fuel message raw
    else if type == 10
    then ok (null_data raw)
    else if type == 3 || type == 4
    then ok (obsolete rtype raw)
    else ok (not_yet_supported rtype raw)
  where
    one : (DomainName → RData) → ResponseDecodeError → Span → Outcome RData
    one = parse_rdata_one_domain_name ptr_fuel message

unfoldable pub parse_rdata : ℕ → List ℕ → ℕ → Span → Outcome RData
unfolding rdata_of
parse_rdata ptr_fuel message rtype raw = rdata_of ptr_fuel message (rtype % 256) rtype raw
