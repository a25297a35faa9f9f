-- ===== src/Base/Actions.antt =====
-- Methods that change an object and may raise. What was written before a raise stays written.
use mathlib.Core.Path.{◌≡◌, refl}
use mathlib.Core.Bool.{Bool, true, false}
use autobahn_python.Base.Tests.{if◌then◌else◌}

-- What the modelled methods raise.
pub data Error : Type 0 where
  not_yet_connected disconnected payload_exceeded invalid_payload_length invalid_ping invalid_pong :
      Error
  invalid_close_code reason_without_code invalid_send_state invalid_frame_length : Error
  invalid_fragment_size empty_repeated_payload struct_error codec_error logic_error : Error
  no_frame_masker not_implemented data_too_big transport_lost batch_format_error : Error
  invalid_message invalid_uri assertion_failed : Error

pub data Result (A : Type 0) : Type 0 where
  ok : A → Result A
  err : Error → Result A

abbrev pub Exec : Type 0 → Type 0 → Type 0
Exec S A = S → Result A × S

module _ {S A : Type 0} where
  unfoldable pub pure : A → Exec S A
  pure a s = (ok a, s)

  unfoldable pub raise : Error → Exec S A
  raise e s = (err e, s)

  -- reads the object
  unfoldable pub gets : (S → A) → Exec S A
  gets f s = (ok (f s), s)

unfoldable pub modify : {S : Type 0} → (S → S) → Exec S (Unit {0})
modify f s = (ok tt, f s)

module _ {S A B : Type 0} where
  abbrev pub proceed : Result A → (A → Exec S B) → Exec S B
  proceed (ok a) f s = f a s
  proceed (err e) f s = (err e, s)

  infixl 10 ◌>>=◌
  -- opening this opens the actions above too
  unfoldable pub ◌>>=◌ : Exec S A → (A → Exec S B) → Exec S B
  unfolding pure raise gets modify
  ◌>>=◌ m f s = let (r, s') = m s in proceed r f s'

infixl 10 ◌>>◌
abbrev pub ◌>>◌ : {S B : Type 0} → Exec S (Unit {0}) → Exec S B → Exec S B
m >> n = m >>= λ _. n

-- `if b: m`
abbrev pub when : {S : Type 0} → Bool → Exec S (Unit {0}) → Exec S (Unit {0})
when b m = if b then m else pure tt

-- An invariant `P` survives a method, on a return and on a raise alike.
pub record Keeps {S A : Type 0} (P : S → Type 0) (m : Exec S A) : Type 0 where
  pub after : (before : S) → P before → P (m before).1

pub Keeps-modify :
    {S : Type 0} {P : S → Type 0} (f : S → S) → ((s : S) → P s → P (f s)) → Keeps P (modify f)
unfolding modify
Keeps-modify f k = record { after = k }

module _ {S A : Type 0} {P : S → Type 0} where
  pub Keeps-pure : (a : A) → Keeps P (pure a)
  unfolding pure
  Keeps-pure a = record { after = λ _ p. p }

  pub Keeps-raise : (e : Error) → Keeps P (raise {A = A} e)
  unfolding raise
  Keeps-raise e = record { after = λ _ p. p }

  pub Keeps-gets : (f : S → A) → Keeps P (gets f)
  unfolding gets
  Keeps-gets f = record { after = λ _ p. p }

  pub Keeps-if : (b : Bool) {x y : Exec S A} → Keeps P x → Keeps P y → Keeps P (if b then x else y)
  Keeps-if true kx _ = kx
  Keeps-if false _ ky = ky

-- The same from one state, where a branch may use its test.
pub after_if :
    {S A : Type 0} (P : S → Type 0) (b : Bool) (x y : Exec S A) (s : S)
    → (b ≡ true → P (x s).1)
    → (b ≡ false → P (y s).1)
    → P ((if b then x else y) s).1
after_if P true x y s px py = px refl
after_if P false x y s px py = py refl

module _ {S A B : Type 0} (P : S → Type 0) where
  proceed_keeps :
      (f : A → Exec S B)
      → ((a : A) → Keeps P (f a))
      → (r : Result A) (s : S) → P s
      → P (proceed r f s).1
  proceed_keeps f kf (ok a) s p = (kf a).after s p
  proceed_keeps f kf (err _) s p = p

pub Keeps-bind :
    {S A B : Type 0} {P : S → Type 0} {m : Exec S A} {f : A → Exec S B}
    → Keeps P m
    → ((a : A) → Keeps P (f a))
    → Keeps P (m >>= f)
unfolding ◌>>=◌
Keeps-bind {P} {m} {f} km kf = record {
  after = λ s p. proceed_keeps P f kf (m s).0 (m s).1 (km.after s p);
}

-- What holds of the result and of the object after a method, if `P` holds before.
pub record Ensures {S A : Type 0} (P : S → Type 0) (Q : Result A → S → Type 0) (m : Exec S A)
    : Type 0 where
  pub holds : (s : S) → P s → Q (m s).0 (m s).1

module _ {S A B : Type 0} {P : S → Type 0} {Q : Result B → S → Type 0} where
  kept_then :
      (m : Exec S A) (f : A → Exec S B)
      → ((a : A) → Ensures P Q (f a))
      → ((e : Error) (s : S) → P s → Q (err e) s)
      → (r : Result A) (s : S) → P s
      → Q (proceed r f s).0 (proceed r f s).1
  kept_then m f kf ke (ok a) s p = (kf a).holds s p
  kept_then m f kf ke (err e) s p = ke e s p

  pub Ensures-kept :
      {m : Exec S A} {f : A → Exec S B}
      → Keeps P m
      → ((e : Error) (s : S) → P s → Q (err e) s)
      → ((a : A) → Ensures P Q (f a))
      → Ensures P Q (m >>= f)
  unfolding ◌>>=◌
  Ensures-kept {m} {f} k ke kf = record {
    holds = λ s p. kept_then m f kf ke (m s).0 (m s).1 (k.after s p);
  }

module _ {S A B : Type 0} (R : Result A → S → Type 0) {Q : Result B → S → Type 0} where
  ensured_then :
      (f : A → Exec S B)
      → ((a : A) → Ensures (R (ok a)) Q (f a))
      → ((e : Error) (s : S) → R (err e) s → Q (err e) s)
      → (r : Result A) (s : S) → R r s
      → Q (proceed r f s).0 (proceed r f s).1
  ensured_then f kf ke (ok a) s p = (kf a).holds s p
  ensured_then f kf ke (err e) s p = ke e s p

  pub Ensures-bind :
      {P : S → Type 0} {m : Exec S A} {f : A → Exec S B}
      → Ensures P R m
      → ((e : Error) (s : S) → R (err e) s → Q (err e) s)
      → ((a : A) → Ensures (R (ok a)) Q (f a))
      → Ensures P Q (m >>= f)
  unfolding ◌>>=◌
  Ensures-bind {m} {f} k ke kf = record {
    holds = λ s p. ensured_then f kf ke (m s).0 (m s).1 (k.holds s p);
  }

module _ {S A : Type 0} {P : S → Type 0} {Q : Result A → S → Type 0} where
  pub Ensures-modify :
      {R : S → Type 0} (f : S → S) {n : Exec S A}
      → ((s : S) → P s → R (f s))
      → Ensures R Q n
      → Ensures P Q (modify f >> n)
  unfolding ◌>>=◌
  Ensures-modify f h k = record { holds = λ s p. k.holds (f s) (h s p) }

  pub Ensures-pure : (a : A) → ((s : S) → P s → Q (ok a) s) → Ensures P Q (pure a)
  unfolding pure
  Ensures-pure a h = record { holds = h }

  pub Ensures-if :
      (b : Bool) {x y : Exec S A}
      → (b ≡ true → Ensures P Q x)
      → (b ≡ false → Ensures P Q y)
      → Ensures P Q (if b then x else y)
  Ensures-if true p q = p refl
  Ensures-if false p q = q refl

  -- the rest of the block may use what was read
  pub Ensures-gets :
      {B : Type 0} {g : S → B} {f : B → Exec S A}
      → ((b : B) → Ensures (λ s. P s × (g s ≡ b)) Q (f b))
      → Ensures P Q (gets g >>= f)
  unfolding ◌>>=◌
  Ensures-gets {g} k = record { holds = λ s p. (k (g s)).holds s (p, refl) }

pub ruleset keeps_rules = (Keeps-pure, Keeps-raise, Keeps-gets, Keeps-modify, Keeps-if, Keeps-bind)
