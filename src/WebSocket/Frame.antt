-- ===== src/WebSocket/Frame.antt =====
-- The wire format of a frame: the octets that `sendFrame`, `beginMessageFrame` and
-- `PreparedMessage` put before a payload, and what `processData` reads of them.
pub mod Bits
pub mod RoundTrip
pub mod Travel
use autobahn_python.Base.{
  ℕ, suc, ◌+◌, ◌*◌, ◌/◌, ◌%◌, ◌^◌, Octets, List, [], ◌∷◌, ◌++◌, Bool, true, false, Option, none,
  some, bit_and, bit_or, ltb, leb, ◌==◌, not, if◌then◌else◌, be, unpack, take, drop, length,
}

-- FIN, RSV and opcode
unfoldable pub first_octet : Bool → ℕ → ℕ → ℕ
first_octet fin rsv opcode =
    bit_or (bit_or (if fin then 2 ^ 7 else 0) (rsv % 8 * 2 ^ 4)) (opcode % 128)

abbrev pub max_payload : ℕ
max_payload = 0x7fffffffffffffff

-- The second octet and the extended length; `none` is the exception "invalid payload length".
unfoldable pub length_octets : Bool → ℕ → Option (ℕ × Octets)
length_octets masked l =
    let b1 : ℕ = if masked then 2 ^ 7 else 0 in
    if leb l 125
    then some (bit_or b1 l, [])
    else if leb l 0xffff
    then some (bit_or b1 126, be 2 l)
    else if leb l max_payload
    then some (bit_or b1 127, be 8 l)
    else none

-- What the first two octets of a frame say.
pub record Opening : Type 0 where
  pub fin : Bool
  pub rsv : ℕ
  pub opcode : ℕ
  pub masked : Bool
  pub payload_len1 : ℕ

unfoldable pub opening : ℕ → ℕ → Opening
opening b0 b1 = record {
  fin = not (bit_and b0 0x80 == 0);
  rsv = bit_and b0 0x70 / 2 ^ 4;
  opcode = bit_and b0 0x0f;
  masked = not (bit_and b1 0x80 == 0);
  payload_len1 = bit_and b1 0x7f;
}

unfoldable pub extension_len : Opening → ℕ
extension_len o = if ltb o.payload_len1 126 then 0 else if o.payload_len1 == 126 then 2 else 8

unfoldable pub mask_len : Opening → ℕ
mask_len o = if o.masked then 4 else 0

-- The length of the complete header.
unfoldable pub header_len : Opening → ℕ
unfolding extension_len mask_len
header_len o = 2 + extension_len o + mask_len o

-- The payload length, from the octets behind the first two.
unfoldable pub payload_length : Opening → Octets → ℕ
payload_length o rest =
    if o.payload_len1 == 126
    then unpack (take 2 rest)
    else if o.payload_len1 == 127
    then unpack (take 8 rest)
    else o.payload_len1

unfoldable pub frame_mask : Opening → Octets → Option Octets
unfolding extension_len
frame_mask o rest = if o.masked then some (take 4 (drop (extension_len o) rest)) else none
