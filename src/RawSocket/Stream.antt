-- ===== src/RawSocket/Stream.antt =====
-- The strings that a stream of octets holds, and what one round makes of its front.
pub mod Loop
use autobahn_python.Base.{
  ℕ, zero, suc, ◌+◌, ◌-◌, ◌≤◌, ◌<◌, Octets, List, [], ◌∷◌, ◌++◌, append-nil, append_assoc, true,
  false, Option, none, some, leb, take, drop, length, length-append, length-drop, ◌≡◌, refl, sym,
  ap, subst, ◌∙◌, ◌⊎◌, inl, inr, arith, Bool-cases, Result, ok,
}
use autobahn_python.RawSocket.{
  Socket, Header, Event, received, emit, header_fields, decode_header, current_header, round,
  take_frame, after_frame, deliver, string_received, abort, process_frames, Ending, left, Round,
  next, ended,
}

-- The front of the octets is a complete frame with a string.
pub record IsFrame (max_length : ℕ) (h : Header) (rest : Octets) : Type 0 where
  pub read : decode_header max_length rest ≡ some h
  pub is_string : h.frame_type ≡ 0
  pub enough : 4 + h.frame_length ≤ length rest

-- `Holds max octets strings tail`: the octets are frames with these strings, then `tail`, which is the
-- begin of a frame at most.
pub data Holds (max_length : ℕ) : Octets → List Octets → Octets → Type 0 where
  short : {tail : Octets} → length tail < 4 → Holds max_length tail [] tail
  partial :
      {tail : Octets} (h : Header)
      → decode_header max_length tail ≡ some h
      → h.frame_type ≡ 0
      → 4 ≤ length tail
      → length tail < 4 + h.frame_length
      → Holds max_length tail [] tail
  frame :
      {rest : Octets} {strings : List Octets} {tail : Octets} (h : Header)
      → IsFrame max_length h rest
      → Holds max_length (drop (4 + h.frame_length) rest) strings tail
      → Holds max_length rest (take h.frame_length (drop 4 rest) ∷ strings) tail

-- The strings that were given to the session, in order.
abbrev pub strings_of : List Event → List Octets
strings_of [] = []
strings_of (received s ∷ log) = strings_of log ++ s ∷ []
strings_of (_ ∷ log) = strings_of log

-- The header of the octets does not depend on what follows the first four.
pub decode-append :
    (max_length : ℕ) (xs ys : Octets)
    → 4 ≤ length xs
    → decode_header max_length (xs ++ ys) ≡ decode_header max_length xs
unfolding decode_header header_fields
decode-append max_length [] ys h = absurd (omega arith)
decode-append max_length (a ∷ []) ys h = absurd (omega arith)
decode-append max_length (a ∷ b ∷ []) ys h = absurd (omega arith)
decode-append max_length (a ∷ b ∷ d ∷ []) ys h = absurd (omega arith)
decode-append max_length (a ∷ b ∷ d ∷ e ∷ xs) ys h = refl

module _ {ℓ} {A : Type ℓ} where
  pub drop-append_le :
      (n : ℕ) (xs ys : List A) → n ≤ length xs → drop n (xs ++ ys) ≡ drop n xs ++ ys
  drop-append_le zero xs ys h = refl
  drop-append_le (suc n) [] ys h = absurd (omega arith)
  drop-append_le (suc n) (x ∷ xs) ys h = drop-append_le n xs ys (omega arith)

  take-append_le : (n : ℕ) (xs ys : List A) → n ≤ length xs → take n (xs ++ ys) ≡ take n xs
  take-append_le zero xs ys h = refl
  take-append_le (suc n) [] ys h = absurd (omega arith)
  take-append_le (suc n) (x ∷ xs) ys h = ap (λ t. x ∷ t) (take-append_le n xs ys (omega arith))

-- The object between two rounds, with `rest` to be read.
pub record IsReady (max_length : ℕ) (rest : Octets) (c : Socket) : Type 0 where
  pub has_session : c.session ≡ true
  pub limit_is : c.max_length ≡ max_length
  pub header_is :
      (c.header ≡ none)
      ⊎ ((h : Header) × (c.header ≡ some h)
          × (decode_header max_length rest ≡ some h)
          × (4 ≤ length rest))

header_known :
    (max_length : ℕ) (rest : Octets) (c : Socket)
    → IsReady max_length rest c
    → current_header c.header c.max_length rest ≡ decode_header max_length rest
unfolding current_header
header_known max_length rest c r = elim r.header_is [
  | inl e ↦
      ap (λ h. current_header h c.max_length rest) e ∙ ap (λ m. decode_header m rest) r.limit_is
  | inr (h, e, d, _) ↦ ap (λ g. current_header g c.max_length rest) e ∙ sym d
]

-- What the delivery of a string does.
record IsDelivered (payload : Octets) (c d : Socket) (r : Result (Unit {0})) : Type 0 where
  no_exception : r ≡ ok tt
  logged : strings_of d.log ≡ strings_of c.log ++ payload ∷ []
  same_session : d.session ≡ c.session
  same_limit : d.max_length ≡ c.max_length
  same_header : d.header ≡ c.header

string-IsDelivered :
    (payload : Octets) (c : Socket)
    → c.session ≡ true
    → IsDelivered payload c (string_received payload c).1 (string_received payload c).0
unfolding string_received abort emit
string-IsDelivered payload c h = ground arith

deliver-IsDelivered :
    (t : ℕ) (payload : Octets) (c : Socket)
    → t ≡ 0
    → c.session ≡ true
    → IsDelivered payload c (deliver t payload c).1 (deliver t payload c).0
unfolding deliver
deliver-IsDelivered t payload c e h = rw e (string-IsDelivered payload c h)

module _ (max_length : ℕ) (rest : Octets) (c : Socket) where
  round_short : length rest < 4 → round rest c ≡ (ended (left rest), c)
  unfolding round
  round_short h = ground arith

  round_known :
      (h : Header)
      → 4 ≤ length rest
      → decode_header max_length rest ≡ some h
      → IsReady max_length rest c
      → round rest c ≡ take_frame rest (some h) c
  unfolding round
  round_known h l d r =
      let t : leb 4 (length rest) ≡ true = ground arith in
      rw t (ap (λ g. take_frame rest g c) (header_known max_length rest c r ∙ d))

  stays_partial :
      (h : Header)
      → leb h.frame_length (length rest - 4) ≡ false
      → take_frame rest (some h) c ≡ (ended (left rest), record c { header = some h })
  unfolding take_frame
  stays_partial h t = rw t

  round_partial :
      (h : Header)
      → 4 ≤ length rest
      → decode_header max_length rest ≡ some h
      → length rest < 4 + h.frame_length
      → IsReady max_length rest c
      → round rest c ≡ (ended (left rest), record c { header = some h })
  round_partial h l d s r =
      let t : leb h.frame_length (length rest - 4) ≡ false = ground arith in
      round_known h l d r ∙ stays_partial h t

  -- A round that delivers a string.
  record IsRound (h : Header) (rd : Round) (d : Socket) : Type 0 where
    goes_on : rd ≡ next (drop (4 + h.frame_length) rest)
    ready : IsReady max_length (drop (4 + h.frame_length) rest) d
    string_logged : strings_of d.log ≡ strings_of c.log ++ take h.frame_length (drop 4 rest) ∷ []

  round_frame :
      (h : Header)
      → IsFrame max_length h rest
      → IsReady max_length rest c
      → IsRound h (round rest c).0 (round rest c).1
  unfolding take_frame after_frame
  round_frame h f r =
      let t : leb h.frame_length (length rest - 4) ≡ true = ground (arith, f.enough) in
      let p =
        deliver-IsDelivered h.frame_type (take h.frame_length (drop 4 rest))
          (record c { header = none }) f.is_string r.has_session in
      subst (λ x. IsRound h x.0 x.1) (sym (round_known h (omega (arith, f.enough)) f.read r))
        (rw (t, p.no_exception)
          (record {
            goes_on = refl;
            ready = record {
              has_session = p.same_session ∙ r.has_session;
              limit_is = p.same_limit ∙ r.limit_is;
              header_is = inl p.same_header;
            };
            string_logged = p.logged;
          }))
