-- ===== src/WebSocket/Xor.antt =====
-- xormasker.py: the pure Python maskers. A masker object is a value of `Masker`, and `process`
-- returns the payload with the object afterwards. `payload[k] ^= m` on `array('B')` is `bit_xor`.
pub mod Mask
pub mod Laws
use autobahn_python.Base.{
  ℕ, suc, ◌+◌, Octets, List, [], ◌∷◌, get_or, length, bit_and, bit_xor, Option, none, some, ltb,
  if◌then◌else◌,
}

-- The three classes, each with its `_ptr`; the simple one has the mask, the shifted one has the
-- mask rotated by 0, 1, 2 and 3 octets.
pub data Masker : Type 0 where
  null : ℕ → Masker
  simple : ℕ → Octets → Masker
  shifted : ℕ → List Octets → Masker

-- The loop of `XorMaskerSimple.process`: the pointer moves with every octet.
unfoldable pub simple_loop : Octets → ℕ → Octets → Octets
simple_loop msk ptr [] = []
simple_loop msk ptr (b ∷ bs) =
    bit_xor b (get_or msk (bit_and ptr 3) 0) ∷ simple_loop msk (ptr + 1) bs

-- The loop of `XorMaskerShifted1.process`, over the rotated mask that it chose once.
unfoldable pub shifted_loop : Octets → ℕ → Octets → Octets
shifted_loop msk k [] = []
shifted_loop msk k (b ∷ bs) = bit_xor b (get_or msk (bit_and k 3) 0) ∷ shifted_loop msk (k + 1) bs

-- `mask[(i + j) & 3]` for j in 0, 1, 2, 3
unfoldable pub rotated : Octets → ℕ → Octets
rotated mask i =
    get_or mask (bit_and i 3) 0
    ∷ get_or mask (bit_and (i + 1) 3) 0
    ∷ get_or mask (bit_and (i + 2) 3) 0
    ∷ get_or mask (bit_and (i + 3) 3) 0
    ∷ []

-- The constructor of `XorMaskerShifted1`.
unfoldable pub mask_array : Octets → List Octets
unfolding rotated
mask_array mask = rotated mask 0 ∷ rotated mask 1 ∷ rotated mask 2 ∷ rotated mask 3 ∷ []

unfoldable pub pointer : Masker → ℕ
pointer (null ptr) = ptr
pointer (simple ptr _) = ptr
pointer (shifted ptr _) = ptr

unfoldable pub reset : Masker → Masker
reset (null _) = null 0
reset (simple _ msk) = simple 0 msk
reset (shifted _ arrays) = shifted 0 arrays

unfoldable pub process : Masker → Octets → Octets × Masker
unfolding simple_loop shifted_loop
process (null ptr) bs = (bs, null (ptr + length bs))
process (simple ptr msk) bs = (simple_loop msk ptr bs, simple (ptr + length bs) msk)
process (shifted ptr arrays) bs =
    (shifted_loop (get_or arrays (bit_and ptr 3) []) 0 bs, shifted (ptr + length bs) arrays)

unfoldable pub create_xor_masker : Octets → Option ℕ → Masker
unfolding mask_array
create_xor_masker mask none = simple 0 mask
create_xor_masker mask (some n) = if ltb n 128 then simple 0 mask else shifted 0 (mask_array mask)
