-- ===== src/Base/Bytes.antt =====
-- Octet strings as lists of numbers, and `struct.pack` and `struct.unpack` in network byte order.
use Prim.Native.Nat.{ℕ, zero, suc, ◌+◌, ◌*◌, ◌/◌, ◌%◌, ◌^◌, ◌<◌}
use Prim.Native.Char.{code}
use Prim.Native.String.{String}
use mathlib.Core.Path.{◌≡◌, refl}
use mathlib.Core.Bool.{Bool, true, ◌&&◌}
use mathlib.Core.List.{List, [], ◌∷◌, ◌++◌}
use native.Mathlib.Omega.{arith}
use native.Mathlib.Nat.{pow-suc}
use autobahn_python.Base.Lists.{length, All, length-append}

abbrev pub Octets : Type 0
Octets = List ℕ

abbrev pub IsByte : ℕ → Type 0
IsByte b = b < 256

-- The octets of an ASCII literal.
unfoldable pub ascii : String → Octets
ascii String.[] = []
ascii (String.◌∷◌ c s) = code c ∷ ascii s

-- `struct.pack` of an unsigned number in `n` octets: "!H" is `be 2`, "!I" is `be 4`, "!Q" is `be 8`.
unfoldable pub be : ℕ → ℕ → Octets
be zero v = []
be (suc n) v = be n (v / 256) ++ v % 256 ∷ []

-- `struct.unpack` of an unsigned number, after the octets that `acc` stands for.
unfoldable pub unpack_from : ℕ → Octets → ℕ
unpack_from acc [] = acc
unpack_from acc (b ∷ bs) = unpack_from (acc * 256 + b) bs

abbrev pub unpack : Octets → ℕ
unpack = unpack_from 0

pub length-be : (n v : ℕ) → length (be n v) ≡ n
unfolding be
length-be zero v = refl
length-be (suc n) v =
    omega (arith, length-append (be n (v / 256)) (v % 256 ∷ []), length-be n (v / 256))

unpack_from-append :
    (acc : ℕ) (xs : Octets) (b : ℕ) → unpack_from acc (xs ++ b ∷ []) ≡ unpack_from acc xs * 256 + b
unfolding unpack_from
unpack_from-append acc [] b = refl
unpack_from-append acc (x ∷ xs) b = unpack_from-append (acc * 256 + x) xs b

-- What was packed is unpacked, if it fits.
pub unpack-be : (n v : ℕ) → v < 256 ^ n → unpack (be n v) ≡ v
unfolding be
unpack-be zero v h = unfold unpack_from in omega arith
unpack-be (suc n) v h = omega (
  arith,
  unpack_from-append 0 (be n (v / 256)) (v % 256),
  unpack-be n (v / 256) (omega (arith, pow-suc 256 n)),
)

All-append {ℓ κ} :
    {A : Type ℓ} (P : A → Type κ) (xs ys : List A) → All P xs → All P ys → All P (xs ++ ys)
All-append P [] ys none_left rest = rest
All-append P (x ∷ xs) ys front rest = (front.0, All-append P xs ys front.1 rest)

pub be-IsByte : (n v : ℕ) → All IsByte (be n v)
unfolding be
be-IsByte zero v = tt
be-IsByte (suc n) v = All-append IsByte (be n (v / 256)) _ (be-IsByte n (v / 256)) (omega arith, tt)

-- A test of the numbers below a bound, for proofs by evaluation.
unfoldable pub all_below : ℕ → (ℕ → Bool) → Bool
all_below zero test = true
all_below (suc k) test = all_below k test && test k

pub all_below_sound :
    (bound : ℕ) (test : ℕ → Bool) (i : ℕ) → all_below bound test ≡ true → i < bound → test i ≡ true
unfolding all_below
all_below_sound zero test i passed i_lt = absurd (omega arith)
all_below_sound (suc k) test i passed i_lt = ground (arith, all_below_sound k test i)
