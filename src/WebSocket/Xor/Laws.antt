-- ===== src/WebSocket/Xor/Laws.antt =====
-- The two maskers of xormasker.py side by side, in chunks, and used twice.
use autobahn_python.Base.{
  ℕ, zero, suc, ◌+◌, ◌%◌, ◌<◌, Octets, IsByte, All, List, [], ◌∷◌, ◌++◌, get_or, length, ◌≡◌, refl,
  sym, ◌∙◌, ◌⊎◌, inl, inr, arith, some, ltb, bit_and, bit_xor, Bool-cases, join,
}
use autobahn_python.WebSocket.Xor.{
  Masker, simple, shifted, simple_loop, shifted_loop, rotated, mask_array, pointer, process,
  create_xor_masker,
}
use autobahn_python.WebSocket.Xor.Mask.{bit_and-three, bit_xor_twice}

-- The octet of the mask that meets the payload at the pointer `p`.
abbrev mask_at : Octets → ℕ → ℕ
mask_at msk p = get_or msk (p % 4) 0

mod4_cases : (p : ℕ) → (p % 4 ≡ 0) ⊎ ((p % 4 ≡ 1) ⊎ ((p % 4 ≡ 2) ⊎ (p % 4 ≡ 3)))
mod4_cases p = omega arith

get-rotated : (msk : Octets) (i k : ℕ) → get_or (rotated msk i) (k % 4) 0 ≡ mask_at msk (i + k)
unfolding rotated
get-rotated msk i k = ground (
  arith,
  mod4_cases k,
  mod4_cases i,
  bit_and-three i,
  bit_and-three (i + 1),
  bit_and-three (i + 2),
  bit_and-three (i + 3),
)

-- The payload under the mask, octet by octet, the first one at the pointer `p`.
masked : Octets → ℕ → Octets → Octets
masked msk p [] = []
masked msk p (b ∷ bs) = bit_xor b (mask_at msk p) ∷ masked msk (p + 1) bs

simple_loop-masked : (msk : Octets) (p : ℕ) (bs : Octets) → simple_loop msk p bs ≡ masked msk p bs
unfolding simple_loop masked
simple_loop-masked msk p [] = refl
simple_loop-masked msk p (b ∷ bs) = rw (bit_and-three p, simple_loop-masked msk (p + 1) bs)

shifted_loop-masked :
    (msk : Octets) (i k p : ℕ) (bs : Octets)
    → i + k ≡ p
    → shifted_loop (rotated msk i) k bs ≡ masked msk p bs
unfolding shifted_loop masked
shifted_loop-masked msk i k p [] e = refl
shifted_loop-masked msk i k p (b ∷ bs) e = rw (
  bit_and-three k,
  get-rotated msk i k,
  e,
  shifted_loop-masked msk i (k + 1) (p + 1) bs (omega arith),
)

get-mask_array :
    (msk : Octets) (p : ℕ) → get_or (mask_array msk) (bit_and p 3) [] ≡ rotated msk (p % 4)
unfolding mask_array
get-mask_array msk p = ground (arith, bit_and-three p, mod4_cases p)

masked-mod :
    (msk : Octets) (p q : ℕ) (bs : Octets) → p % 4 ≡ q % 4 → masked msk p bs ≡ masked msk q bs
unfolding masked
masked-mod msk p q [] e = refl
masked-mod msk p q (b ∷ bs) e = rw (e, masked-mod msk (p + 1) (q + 1) bs (omega arith))

-- XorMaskerShifted1 computes what XorMaskerSimple computes at the same pointer, for every mask,
-- pointer and payload, and both leave the same pointer.
pub process-shifted_simple :
    (msk : Octets) (ptr : ℕ) (bs : Octets)
    → ((process (shifted ptr (mask_array msk)) bs).0 ≡ (process (simple ptr msk) bs).0)
      × (pointer (process (shifted ptr (mask_array msk)) bs).1
          ≡ pointer (process (simple ptr msk) bs).1)
unfolding process pointer
process-shifted_simple msk ptr bs = (
  rw (get-mask_array msk ptr) (
      shifted_loop-masked msk (ptr % 4) 0 (ptr % 4) bs (omega arith)
      ∙ masked-mod msk (ptr % 4) ptr bs (omega arith)
      ∙ sym (simple_loop-masked msk ptr bs)),
  refl,
)

masked-append :
    (msk : Octets) (p : ℕ) (xs ys : Octets)
    → masked msk p (xs ++ ys) ≡ masked msk p xs ++ masked msk (p + length xs) ys
unfolding masked
masked-append msk p [] ys = let e : p + 0 ≡ p = omega arith in rw e
masked-append msk p (x ∷ xs) ys =
    let e : p + 1 + length xs ≡ p + suc (length xs) = omega arith in
    rw (masked-append msk (p + 1) xs ys, e)

-- The masker that a frame of any length gets computes `masked` from the pointer on.
pub data Carries (msk : Octets) (ptr : ℕ) : Masker → Type 0 where
  by_simple : {m : Masker} → m ≡ simple ptr msk → Carries msk ptr m
  by_shifted : {m : Masker} → m ≡ shifted ptr (mask_array msk) → Carries msk ptr m

create-Carries : (msk : Octets) (n : ℕ) → Carries msk 0 (create_xor_masker msk (some n))
unfolding create_xor_masker
create-Carries msk n = elim (Bool-cases (ltb n 128)) [
  | inl e ↦ rw e (by_simple refl)
  | inr e ↦ rw e (by_shifted refl)
]

process-Carries :
    (msk : Octets) (ptr : ℕ) (m : Masker) (bs : Octets)
    → Carries msk ptr m
    → ((process m bs).0 ≡ masked msk ptr bs) × Carries msk (ptr + length bs) (process m bs).1
unfolding process
process-Carries msk ptr m bs (by_simple e) = rw e (simple_loop-masked msk ptr bs, by_simple refl)
process-Carries msk ptr m bs (by_shifted e) =
    rw e ((process-shifted_simple msk ptr bs).0 ∙ simple_loop-masked msk ptr bs, by_shifted refl)

-- A receiver's calls of `process`, one for each chunk that arrives, with the payloads joined.
abbrev pub process_chunks : Masker → List Octets → Octets
process_chunks m [] = []
process_chunks m (c ∷ cs) = (process m c).0 ++ process_chunks (process m c).1 cs

chunks-Carries :
    (msk : Octets) (ptr : ℕ) (m : Masker) (cs : List Octets)
    → Carries msk ptr m
    → process_chunks m cs ≡ masked msk ptr (join cs)
unfolding masked
chunks-Carries msk ptr m [] h = refl
chunks-Carries msk ptr m (c ∷ cs) h =
    let (e, h') = process-Carries msk ptr m c h in
    rw (
      e,
      masked-append msk ptr c (join cs),
      chunks-Carries msk (ptr + length c) (process m c).1 cs h',
    )

get_or-IsByte : (xs : Octets) (i : ℕ) → All IsByte xs → get_or xs i 0 < 256
get_or-IsByte [] i h = omega arith
get_or-IsByte (x ∷ xs) zero h = h.0
get_or-IsByte (x ∷ xs) (suc i) h = get_or-IsByte xs i h.1

mask_at-IsByte : (msk : Octets) (p : ℕ) → All IsByte msk → mask_at msk p < 256
mask_at-IsByte msk p h = get_or-IsByte msk (p % 4) h

masked_twice :
    (msk : Octets) (p : ℕ) (bs : Octets)
    → All IsByte msk
    → All IsByte bs
    → masked msk p (masked msk p bs) ≡ bs
unfolding masked
masked_twice msk p [] hm h = refl
masked_twice msk p (b ∷ bs) hm (hb, h) =
    rw (
      bit_xor_twice b (mask_at msk p) hb (mask_at-IsByte msk p hm),
      masked_twice msk (p + 1) bs hm h,
    )

-- A payload of octets that is masked with the masker for any length is recovered by the masker of
-- the same mask for any other length, in any chunks.
pub unmask_chunks :
    (msk : Octets) (n k : ℕ) (payload : Octets) (cs : List Octets)
    → All IsByte msk
    → All IsByte payload
    → join cs ≡ (process (create_xor_masker msk (some n)) payload).0
    → process_chunks (create_xor_masker msk (some k)) cs ≡ payload
unmask_chunks msk n k payload cs hm hp e =
    chunks-Carries msk 0 (create_xor_masker msk (some k)) cs (create-Carries msk k)
    ∙ rw
        (
          e,
          (process-Carries msk 0 (create_xor_masker msk (some n)) payload (create-Carries msk n)).0,
        )
        (masked_twice msk 0 payload hm hp)
