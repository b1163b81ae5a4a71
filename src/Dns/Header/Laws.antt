-- ===== src/Dns/Header/Laws.antt =====
-- Reading back what a setter of the flags has written, and what it leaves alone.
use corosig.Prelude.{ℕ, ◌<◌, ◌^◌, ◌≡◌, ◌≢◌, refl, sym, ◌∙◌, arith}
use corosig.Dns.Header.{set_bitfield, get_bitfield}
use corosig.Dns.Header.Fields.{
  Field, response, opcode, authoritative, truncation, desired, available, rcode, bits,
  get_bitfield-bits, set_bitfield-bits,
}

-- A bit field reads back as the value that was set, when that fits the field, as is asserted.
pub get_bitfield-set_bitfield :
    (f : Field) (word value : ℕ)
    → value < 2 ^ (bits f).width
    → get_bitfield (bits f) (set_bitfield (bits f) word value) ≡ value
get_bitfield-set_bitfield response word value fits =
    get_bitfield-bits response (set_bitfield (bits response) word value)
    ∙ omega (arith, set_bitfield-bits response word value)
get_bitfield-set_bitfield f word value fits =
    get_bitfield-bits f (set_bitfield (bits f) word value)
    ∙ omega (arith, set_bitfield-bits f word value)

-- Setting a field changes no other field.
pub get_bitfield-set_bitfield_ne :
    (f g : Field) (word value : ℕ)
    → f ≢ g
    → get_bitfield (bits g) (set_bitfield (bits f) word value) ≡ get_bitfield (bits g) word
get_bitfield-set_bitfield_ne response response word value ne = absurd (ne refl)
get_bitfield-set_bitfield_ne opcode opcode word value ne = absurd (ne refl)
get_bitfield-set_bitfield_ne authoritative authoritative word value ne = absurd (ne refl)
get_bitfield-set_bitfield_ne truncation truncation word value ne = absurd (ne refl)
get_bitfield-set_bitfield_ne desired desired word value ne = absurd (ne refl)
get_bitfield-set_bitfield_ne available available word value ne = absurd (ne refl)
get_bitfield-set_bitfield_ne rcode rcode word value ne = absurd (ne refl)
get_bitfield-set_bitfield_ne f g word value ne =
    get_bitfield-bits g (set_bitfield (bits f) word value)
    ∙ omega (arith, set_bitfield-bits f word value)
    ∙ sym (get_bitfield-bits g word)
