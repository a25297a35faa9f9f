-- ===== src/WebSocket/Frame/Bits.antt =====
-- The fields of the first two octets, by evaluation over their values.
use autobahn_python.Base.{
  ℕ, ◌*◌, ◌/◌, ◌%◌, ◌^◌, ◌<◌, ◌≡◌, refl, Bool, true, false, ◌&&◌, bit_and, bit_or, ◌==◌, not,
  if◌then◌else◌, all_below, all_below_sound, arith, ltb,
}
use autobahn_python.WebSocket.Frame.{first_octet}

-- The three fields of a first octet, put together and taken apart.
fields_back : Bool → ℕ → ℕ → Bool
fields_back fin rsv opcode =
    let b = bit_or (bit_or (if fin then 2 ^ 7 else 0) (rsv % 8 * 2 ^ 4)) (opcode % 128) in
    (if fin then not (bit_and b 0x80 == 0) else bit_and b 0x80 == 0)
    && ((bit_and b 0x70 / 2 ^ 4 == rsv) && ((bit_and b 0x0f == opcode) && ltb b 256))

fields_table : (fin : Bool) → all_below 8 (λ r. all_below 16 (fields_back fin r)) ≡ true
unfolding all_below fields_back
fields_table true = refl
fields_table false = refl

fields_hold : (fin : Bool) (r o : ℕ) → r < 8 → o < 16 → fields_back fin r o ≡ true
fields_hold fin r o hr ho =
    all_below_sound 16 (fields_back fin r) o
      (all_below_sound 8 (λ x. all_below 16 (fields_back fin x)) r (fields_table fin) hr) ho

pub first_octet_fields :
    (fin : Bool) (rsv opcode : ℕ)
    → rsv < 8
    → opcode < 16
    → let b = first_octet fin rsv opcode in
      (not (bit_and b 0x80 == 0) ≡ fin)
      × (bit_and b 0x70 / 2 ^ 4 ≡ rsv)
      × (bit_and b 0x0f ≡ opcode)
      × (b < 256)
unfolding first_octet fields_back
first_octet_fields true rsv opcode hr ho = ground (arith, fields_hold true rsv opcode hr ho)
first_octet_fields false rsv opcode hr ho = ground (arith, fields_hold false rsv opcode hr ho)

second_back : Bool → ℕ → Bool
second_back masked n =
    let b = bit_or (if masked then 2 ^ 7 else 0) n in
    (if masked then not (bit_and b 0x80 == 0) else bit_and b 0x80 == 0)
    && ((bit_and b 0x7f == n) && ltb b 256)

second_table : (masked : Bool) → all_below 128 (second_back masked) ≡ true
unfolding all_below second_back
second_table true = refl
second_table false = refl

pub second_octet_fields :
    (masked : Bool) (n : ℕ)
    → n < 128
    → let b = bit_or (if masked then 2 ^ 7 else 0) n in
      (not (bit_and b 0x80 == 0) ≡ masked) × (bit_and b 0x7f ≡ n) × (b < 256)
unfolding second_back
second_octet_fields true n h =
    ground (arith, all_below_sound 128 (second_back true) n (second_table true) h)
second_octet_fields false n h =
    ground (arith, all_below_sound 128 (second_back false) n (second_table false) h)
