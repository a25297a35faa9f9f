-- ===== src/WebSocket/Frame/Travel.antt =====
-- A frame from `sendFrame` of one side to `processData` of the other.
use autobahn_python.Base.{
  drop, ℕ, ◌+◌, ◌≤◌, ◌<◌, Octets, [], ◌∷◌, ◌++◌, append-nil, All, IsByte, be, be-IsByte, length-be,
  Bool, false, ◌&&◌, Option, none, some, is_some, ltb, length, Result, ok, ◌≡◌, refl, sym, ap,
  subst, ◌∙◌, Bool-cases, inl, inr,
}
use autobahn_python.WebSocket.Conn.{Conn, is_closed}
use autobahn_python.WebSocket.Xor.{create_xor_masker, process}
use autobahn_python.WebSocket.Xor.Laws.{unmask_chunks}
use autobahn_python.WebSocket.Frame.{
  first_octet, length_octets, max_payload, opening, extension_len, mask_len,
}
use autobahn_python.WebSocket.Header.{frame_masker, frame_header, enter_frame}
use autobahn_python.WebSocket.Send.{
  or_empty, masks_frames, draw_mask, mask_payload, send_raw, send_drawn, send_frame_payload,
  send_chosen, send_frame, repeat_payload,
}
use autobahn_python.WebSocket.Send.Order.{outgoing, outgoing-send_data}
use autobahn_python.WebSocket.Frame.RoundTrip.{
  IsMask, unmasked, masked, header_received, length_octets_are,
}

-- The octets are a frame with this content for the receiver, when it has seen the first two of them.
pub record Arrives (opcode : ℕ) (fin : Bool) (rsv : ℕ) (payload octets : Octets) (receiver : Conn)
    : Type 0 where
  pub b0 : ℕ
  pub b1 : ℕ
  pub rest : Octets
  pub mask : Option Octets
  pub octets_are : octets ≡ b0 ∷ b1 ∷ rest
  pub frame_is :
      (enter_frame (opening b0 b1) rest receiver).rx.current_frame
      ≡ some (record {
        opcode = opcode;
        fin = fin;
        rsv = rsv;
        length_field = length payload;
        mask = mask;
      })
  pub content :
      (process
        (enter_frame (opening b0 b1) rest receiver).rx.current_frame_masker
        (enter_frame (opening b0 b1) rest receiver).buffer).0
      ≡ payload

unmasked_payload :
    (a : Bool) (mask payload : Octets)
    → All IsByte mask
    → All IsByte payload
    → (process (frame_masker a (some mask) (length payload)) (mask_payload a mask payload)).0
      ≡ payload
unfolding frame_masker mask_payload process
unmasked_payload a mask payload hm hp = elim (Bool-cases (ltb 0 (length payload) && a)) [
  | inl e ↦ rw e (
      sym (append-nil _)
      ∙ unmask_chunks mask (length payload) (length payload) payload
          ((process (create_xor_masker mask (some (length payload))) payload).0 ∷ []) hm hp
          (append-nil _))
  | inr e ↦ rw e refl
]

null_masker :
    (a : Bool) (payload : Octets)
    → (process (frame_masker a none (length payload)) payload).0 ≡ payload
unfolding frame_masker process
null_masker a payload = refl

raw-Arrives :
    (fin : Bool) (rsv opcode : ℕ) (mask : Option Octets) (payload sent : Octets) (receiver : Conn)
    → rsv < 8
    → opcode < 16
    → IsMask mask
    → length payload ≤ max_payload
    → (process (frame_masker receiver.cfg.apply_mask mask (length payload)) sent).0 ≡ payload
    → (b1 : ℕ) (el : Octets) → length_octets (is_some mask) (length payload) ≡ some (b1, el)
    → Arrives opcode fin rsv payload
        (first_octet fin rsv opcode ∷ b1 ∷ (el ++ (or_empty mask ++ sent)))
        receiver
unfolding enter_frame frame_header
raw-Arrives fin rsv opcode mask payload sent receiver hr ho k hl p b1 el e =
    let h = header_received fin rsv opcode mask (length payload) sent hr ho k hl b1 el e in
    let rest = el ++ (or_empty mask ++ sent) in
    let o = opening (first_octet fin rsv opcode) b1 in
    record {
      b0 = first_octet fin rsv opcode;
      b1 = b1;
      rest = el ++ (or_empty mask ++ sent);
      mask = mask;
      octets_are = refl;
      frame_is = ap some h.0;
      content =
          ap
            (λ f.
              (process (frame_masker receiver.cfg.apply_mask f.mask f.length_field)
                (drop (extension_len o + mask_len o) rest)).0)
            h.0
          ∙ ap (λ bs. (process (frame_masker receiver.cfg.apply_mask mask (length payload)) bs).0)
              h.1
          ∙ p;
    }

-- What is sent, how, and that it arrives.
abbrev pub Sends :
    (opcode : ℕ) (fin : Bool) (rsv : ℕ) (payload : Octets) (receiver sender : Conn)
    → Result (Unit {0}) × Conn
    → Type 0
Sends opcode fin rsv payload receiver sender r =
    (r.0 ≡ ok tt)
    × ((octets : Octets) × (outgoing r.1 ≡ outgoing sender ++ octets)
        × Arrives opcode fin rsv payload octets receiver)

raw-Sends :
    (fin : Bool) (rsv opcode : ℕ) (mask : Option Octets) (payload sent : Octets) (sync : Bool)
    (chopsize : Option ℕ) (c receiver : Conn)
    → rsv < 8
    → opcode < 16
    → IsMask mask
    → length payload ≤ max_payload
    → is_closed c.state ≡ false
    → (process (frame_masker receiver.cfg.apply_mask mask (length payload)) sent).0 ≡ payload
    → Sends opcode fin rsv payload receiver c (
        send_raw opcode
          (first_octet fin rsv opcode)
          (or_empty mask ++ sent)
          (length_octets (is_some mask) (length payload))
          sync
          chopsize
          c)
unfolding send_raw
raw-Sends fin rsv opcode mask payload sent sync chopsize c receiver hr ho k hl h p =
    let e = length_octets_are (is_some mask) (length payload) hl in
    rw e (
      refl,
      (
        _,
        outgoing-send_data _ sync chopsize _ h,
        raw-Arrives fin rsv opcode mask payload sent receiver hr ho k hl p _ _ e,
      ),
    )

-- On a connection that is not closed, sendFrame of a payload of at most 2^63 - 1 octets without a
-- mask of the caller, with RSV below 8 and an opcode below 16, returns and puts octets behind all
-- that was written or queued before, from which the entry of a frame on another connection with
-- the same applyMask reads this opcode, FIN, RSV and length, and leaves a buffer that its masker
-- turns into the payload.
pub send_frame-Sends :
    (opcode : ℕ) (payload : Octets) (fin : Bool) (rsv : ℕ) (sync : Bool) (chopsize : Option ℕ)
    (sender receiver : Conn)
    → rsv < 8
    → opcode < 16
    → length payload ≤ max_payload
    → All IsByte payload
    → is_closed sender.state ≡ false
    → sender.cfg.apply_mask ≡ receiver.cfg.apply_mask
    → Sends opcode fin rsv payload receiver sender
        (send_frame opcode payload fin rsv none none chopsize sync sender)
unfolding send_frame send_chosen repeat_payload send_frame_payload send_drawn draw_mask
send_frame-Sends opcode payload fin rsv sync chopsize sender receiver hr ho hl hp h a =
    elim (Bool-cases (masks_frames sender.cfg)) [
      | inl e ↦
          let mask = be 4 (sender.world.getrandbits sender.random_draws) in
          rw e (
            raw-Sends fin rsv opcode (some mask) payload
              (mask_payload sender.cfg.apply_mask mask payload) sync chopsize
              (record sender { random_draws = sender.random_draws + 1 }) receiver hr ho
              (masked (length-be 4 _)) hl h
              (subst
                (λ x.
                  (process (frame_masker x (some mask) (length payload))
                    (mask_payload sender.cfg.apply_mask mask payload)).0
                  ≡ payload)
                a
                (unmasked_payload sender.cfg.apply_mask mask payload
                  (be-IsByte 4 (sender.world.getrandbits sender.random_draws)) hp)))
      | inr e ↦ rw e (
          raw-Sends fin rsv opcode none payload payload sync chopsize sender receiver hr ho unmasked
            hl h (null_masker receiver.cfg.apply_mask payload))
    ]
