-- ===== src/WebSocket/Utf8/Run.antt =====
-- The automaton without the early end of `validate`, and where each octet leads it.
use autobahn_python.Base.{
  ℕ, ◌+◌, ◌≤◌, ◌<◌, Octets, IsByte, All, [], ◌∷◌, ◌≡◌, ◌≢◌, refl, sym, ap, ◌∙◌, ◌⊎◌, inl, inr,
  arith, some,
}
use autobahn_python.WebSocket.Utf8.{next_state, validate_loop}
use autobahn_python.WebSocket.Utf8.Table.{class_of, target, next_state-target}

-- The automaton without the early end.
unfoldable pub run : ℕ → Octets → ℕ
run s [] = s
run s (b ∷ bs) = run (target s (class_of b)) bs

pub target_small : (s c : ℕ) → target s c < 9
target_small s c = ground arith

pub stuck_at_one : (bs : Octets) → run 1 bs ≡ 1
unfolding run
stuck_at_one [] = refl
stuck_at_one (x ∷ xs) = stuck_at_one xs

pub validate_loop-run :
    (s i : ℕ) (bs : Octets) → s < 9 → All IsByte bs → (validate_loop s i bs).0 ≡ run s bs
unfolding validate_loop run
validate_loop-run s i [] hs h = refl
validate_loop-run s i (b ∷ bs) hs h = ground (
  arith,
  next_state-target s b,
  target_small s (class_of b),
  validate_loop-run (next_state s b) (i + 1) bs,
  stuck_at_one bs,
)

pub reject_state :
    (s i k : ℕ) (bs : Octets) → (validate_loop s i bs).1 ≡ some k → (validate_loop s i bs).0 ≡ 1
unfolding validate_loop
reject_state s i k [] h = cc
reject_state s i k (b ∷ bs) h = ground (arith, reject_state (next_state s b) (i + 1) k bs)

-- Where each octet leads, by its range.
abbrev pub In : ℕ → ℕ → ℕ → Type 0
In lo hi b = (lo ≤ b) × (b < hi)

pub ascii_at_0 : (b : ℕ) → b < 0x80 → target 0 (class_of b) ≡ 0
ascii_at_0 b h = ground arith

pub two_at_0 : (b : ℕ) → In 0xc2 0xe0 b → target 0 (class_of b) ≡ 2
two_at_0 b h = ground arith

pub three_at_0 : (b : ℕ) → In 0xe1 0xf0 b → b ≢ 0xed → target 0 (class_of b) ≡ 3
three_at_0 b h n = ground arith

pub four_at_0 : (b : ℕ) → In 0xf1 0xf4 b → target 0 (class_of b) ≡ 7
four_at_0 b h = ground arith

pub tail_at_2 : (b : ℕ) → In 0x80 0xc0 b → target 2 (class_of b) ≡ 0
tail_at_2 b h = ground arith

pub tail_at_3 : (b : ℕ) → In 0x80 0xc0 b → target 3 (class_of b) ≡ 2
tail_at_3 b h = ground arith

pub tail_at_4 : (b : ℕ) → In 0xa0 0xc0 b → target 4 (class_of b) ≡ 2
tail_at_4 b h = ground arith

pub tail_at_5 : (b : ℕ) → In 0x80 0xa0 b → target 5 (class_of b) ≡ 2
tail_at_5 b h = ground arith

pub tail_at_6 : (b : ℕ) → In 0x90 0xc0 b → target 6 (class_of b) ≡ 3
tail_at_6 b h = ground arith

pub tail_at_7 : (b : ℕ) → In 0x80 0xc0 b → target 7 (class_of b) ≡ 3
tail_at_7 b h = ground arith

pub tail_at_8 : (b : ℕ) → In 0x80 0x90 b → target 8 (class_of b) ≡ 3
tail_at_8 b h = ground arith

pub run_one : (a : ℕ) (bs : Octets) → a < 0x80 → run 0 (a ∷ bs) ≡ run 0 bs
unfolding run
run_one a bs h = rw (ascii_at_0 a h)

module _ (a b : ℕ) (bs : Octets) where
  pub run_two : In 0xc2 0xe0 a → In 0x80 0xc0 b → run 0 (a ∷ b ∷ bs) ≡ run 0 bs
  unfolding run
  run_two ha hb = rw (two_at_0 a ha, tail_at_2 b hb)

  pub run_three :
      (c s : ℕ)
      → target 0 (class_of a) ≡ s
      → target s (class_of b) ≡ 2
      → In 0x80 0xc0 c
      → run 0 (a ∷ b ∷ c ∷ bs) ≡ run 0 bs
  unfolding run
  run_three c s ha hb hc = rw (ha, hb, tail_at_2 c hc)

  pub run_four :
      (c d s : ℕ)
      → target 0 (class_of a) ≡ s
      → target s (class_of b) ≡ 3
      → In 0x80 0xc0 c
      → In 0x80 0xc0 d
      → run 0 (a ∷ b ∷ c ∷ d ∷ bs) ≡ run 0 bs
  unfolding run
  run_four c d s ha hb hc hd = rw (ha, hb, tail_at_3 c hc, tail_at_2 d hd)

-- The octets that a state takes: those from `lo` below `hi`, to the state `s'`.
abbrev pub Takes : ℕ → ℕ → ℕ → ℕ → Type 0
Takes s lo hi s' =
    (b : ℕ) → (In lo hi b × (target s (class_of b) ≡ s')) ⊎ (target s (class_of b) ≡ 1)

abbrev pub Continues : ℕ → ℕ → ℕ → Octets → Type 0
Continues lo hi s' bs = (b : ℕ) × (r : Octets) × (bs ≡ b ∷ r) × In lo hi b × (run s' r ≡ 0)

pub continue_from :
    (s lo hi s' : ℕ) (bs : Octets) → s ≢ 0 → Takes s lo hi s' → run s bs ≡ 0 → Continues lo hi s' bs
unfolding run
continue_from s lo hi s' [] n t e = absurd (n e)
continue_from s lo hi s' (b ∷ bs) n t e = elim (t b) [
  | inl (i, q) ↦ (b, bs, refl, i, ap (λ x. run x bs) (sym q) ∙ e)
  | inr q ↦ absurd (omega (arith, ap (λ x. run x bs) q, stuck_at_one bs))
]

pub Takes-2 : Takes 2 0x80 0xc0 0
Takes-2 b = ground arith

pub Takes-3 : Takes 3 0x80 0xc0 2
Takes-3 b = ground arith

pub Takes-4 : Takes 4 0xa0 0xc0 2
Takes-4 b = ground arith

pub Takes-5 : Takes 5 0x80 0xa0 2
Takes-5 b = ground arith

pub Takes-6 : Takes 6 0x90 0xc0 3
Takes-6 b = ground arith

pub Takes-7 : Takes 7 0x80 0xc0 3
Takes-7 b = ground arith

pub Takes-8 : Takes 8 0x80 0x90 3
Takes-8 b = ground arith
