-- ===== src/WebSocket/Frame/RoundTrip.antt =====
-- The header of a frame that sending writes and receiving reads.
use autobahn_python.Base.{
  ℕ, ◌+◌, ◌^◌, ◌≤◌, ◌<◌, ◌≡◌, refl, sym, ap, ◌∙◌, Bool, true, false, Octets, [], ◌++◌, append_assoc,
  Option, none, some, if◌then◌else◌, arith, be, unpack, length, length-be, unpack-be, take, drop,
  take-append, drop-append, leb, Bool-cases, inl, inr, length-append, subst, is_some, bit_or, ◌==◌,
}
use autobahn_python.WebSocket.Frame.{
  first_octet, length_octets, max_payload, Opening, opening, extension_len, mask_len,
  payload_length, frame_mask,
}
use autobahn_python.WebSocket.Send.{or_empty}
use autobahn_python.WebSocket.Header.{frame_header}
use mathlib.Core.Option.{some-injective}
use autobahn_python.WebSocket.Frame.Bits.{first_octet_fields, second_octet_fields}

-- The field of seven bits, and the octets of the extended length.
pub short_len : ℕ → ℕ
short_len l = if leb l 125 then l else if leb l 0xffff then 126 else 127

pub long_len : ℕ → Octets
long_len l = if leb l 125 then [] else if leb l 0xffff then be 2 l else be 8 l

pub length_octets_are :
    (masked : Bool) (l : ℕ)
    → l ≤ max_payload
    → length_octets masked l ≡ some (bit_or (if masked then 2 ^ 7 else 0) (short_len l), long_len l)
unfolding length_octets short_len long_len
length_octets_are masked l h = ground arith

short_len_fits : (l : ℕ) → short_len l < 128
unfolding short_len
short_len_fits l = ground arith

written : Bool → ℕ → ℕ → Bool → ℕ → Opening
written fin rsv opcode masked n = record {
  fin = fin;
  rsv = rsv;
  opcode = opcode;
  masked = masked;
  payload_len1 = n;
}

opening_of :
    (fin : Bool) (rsv opcode : ℕ) (masked : Bool) (n : ℕ)
    → rsv < 8
    → opcode < 16
    → n < 128
    → opening (first_octet fin rsv opcode) (bit_or (if masked then 2 ^ 7 else 0) n)
      ≡ written fin rsv opcode masked n
unfolding opening written
opening_of fin rsv opcode masked n hr ho hn =
    let p = first_octet_fields fin rsv opcode hr ho in
    let q = second_octet_fields masked n hn in rw (p.0, p.1, p.2, q.0, q.1)

extension_of :
    (fin : Bool) (rsv opcode : ℕ) (masked : Bool) (l : ℕ)
    → extension_len (written fin rsv opcode masked (short_len l)) ≡ length (long_len l)
unfolding extension_len written short_len long_len
extension_of fin rsv opcode masked l = ground (arith, length-be 2 l, length-be 8 l)

length_of :
    (fin : Bool) (rsv opcode : ℕ) (masked : Bool) (l : ℕ) (more : Octets)
    → l ≤ max_payload
    → payload_length (written fin rsv opcode masked (short_len l)) (long_len l ++ more) ≡ l
unfolding payload_length written short_len long_len
length_of fin rsv opcode masked l more h = elim (Bool-cases (leb l 125)) [
  | inl e ↦
      let a : (l == 126) ≡ false = ground arith in
      let b : (l == 127) ≡ false = ground arith in rw (e, a, b)
  | inr e ↦ elim (Bool-cases (leb l 0xffff)) [
    | inl f ↦
        rw (e, f)
          (ap unpack (take-append 2 (be 2 l) more (sym (length-be 2 l)))
            ∙ unpack-be 2 l (ground arith))
    | inr f ↦
        rw (e, f)
          (ap unpack (take-append 8 (be 8 l) more (sym (length-be 8 l)))
            ∙ unpack-be 8 l (omega arith))
  ]
]

-- A mask has four octets.
pub data IsMask : Option Octets → Type 0 where
  unmasked : IsMask none
  masked : {mask : Octets} → length mask ≡ 4 → IsMask (some mask)

mask_of :
    (fin : Bool) (rsv opcode l : ℕ) (mask : Option Octets) (payload : Octets)
    → IsMask mask
    → frame_mask
        (written fin rsv opcode (is_some mask) (short_len l))
        (long_len l ++ (or_empty mask ++ payload))
      ≡ mask
unfolding frame_mask written
mask_of fin rsv opcode l _ payload unmasked = refl
mask_of fin rsv opcode l _ payload (masked {mask} h) = rw (extension_of fin rsv opcode true l) (
    ap some (
      ap (take 4) (drop-append (length (long_len l)) (long_len l) (mask ++ payload) refl)
      ∙ take-append 4 mask payload (sym h)))

mask_len_of :
    (fin : Bool) (rsv opcode l : ℕ) (mask : Option Octets)
    → IsMask mask
    → mask_len (written fin rsv opcode (is_some mask) (short_len l)) ≡ length (or_empty mask)
unfolding mask_len written
mask_len_of fin rsv opcode l _ unmasked = refl
mask_len_of fin rsv opcode l _ (masked h) = sym h

rest_of :
    (fin : Bool) (rsv opcode l : ℕ) (mask : Option Octets) (payload : Octets)
    → IsMask mask
    → let o = written fin rsv opcode (is_some mask) (short_len l) in
      drop (extension_len o + mask_len o) (long_len l ++ (or_empty mask ++ payload)) ≡ payload
rest_of fin rsv opcode l mask payload k =
    rw (extension_of fin rsv opcode (is_some mask) l, mask_len_of fin rsv opcode l mask k)
      (ap (drop (length (long_len l) + length (or_empty mask)))
          (sym (append_assoc (long_len l) (or_empty mask) payload))
        ∙ drop-append (length (long_len l) + length (or_empty mask)) (long_len l ++ or_empty mask)
            payload (sym (length-append (long_len l) (or_empty mask))))

read_back :
    (fin : Bool) (rsv opcode : ℕ) (mask : Option Octets) (l : ℕ) (payload : Octets)
    → IsMask mask
    → l ≤ max_payload
    → let o = written fin rsv opcode (is_some mask) (short_len l) in
      let rest = long_len l ++ (or_empty mask ++ payload) in
      (frame_header o rest
        ≡ record { opcode = opcode; fin = fin; rsv = rsv; length_field = l; mask = mask })
      × (drop (extension_len o + mask_len o) rest ≡ payload)
unfolding frame_header written
read_back fin rsv opcode mask l payload k hl =
    let a = length_of fin rsv opcode (is_some mask) l (or_empty mask ++ payload) hl in
    let b = mask_of fin rsv opcode l mask payload k in
    (rw (a, b), rest_of fin rsv opcode l mask payload k)

-- For a header as sendFrame writes it, with RSV below 8, an opcode below 16, no mask or one of
-- four octets, and a length up to 2^63 - 1, processData reads the same FIN, RSV, opcode, length
-- and mask, and what it leaves in the buffer is what follows the header.
pub header_received :
    (fin : Bool) (rsv opcode : ℕ) (mask : Option Octets) (l : ℕ) (payload : Octets)
    → rsv < 8
    → opcode < 16
    → IsMask mask
    → l ≤ max_payload
    → (b1 : ℕ) (el : Octets) → length_octets (is_some mask) l ≡ some (b1, el)
    → let o = opening (first_octet fin rsv opcode) b1 in
      let rest = el ++ (or_empty mask ++ payload) in
      (frame_header o rest
        ≡ record { opcode = opcode; fin = fin; rsv = rsv; length_field = l; mask = mask })
      × (drop (extension_len o + mask_len o) rest ≡ payload)
header_received fin rsv opcode mask l payload hr ho k hl b1 el e =
    let same : (bit_or (if is_some mask then 2 ^ 7 else 0) (short_len l), long_len l) ≡ (b1, el) =
      some-injective _ _ (sym (length_octets_are (is_some mask) l hl) ∙ e) in
    let o_is = opening_of fin rsv opcode (is_some mask) (short_len l) hr ho (short_len_fits l) in
    subst
      (λ p.
        let o = opening (first_octet fin rsv opcode) p.0 in
        let rest = p.1 ++ (or_empty mask ++ payload) in
        (frame_header o rest
          ≡ record { opcode = opcode; fin = fin; rsv = rsv; length_field = l; mask = mask })
        × (drop (extension_len o + mask_len o) rest ≡ payload))
      same (rw o_is (read_back fin rsv opcode mask l payload k hl))
