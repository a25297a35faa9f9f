-- ===== src/RawSocket/Chunks.antt =====
-- Octets that come in chunk after chunk, and the strings that they hold.
use autobahn_python.Base.{
  ℕ, ◌+◌, ◌<◌, Octets, List, [], ◌∷◌, ◌++◌, append-nil, append_assoc, join, Option, none, some,
  length, length-append, ◌≡◌, refl, sym, ap, subst, ◌∙◌, ◌⊎◌, inl, inr, arith, inl, inr, Result, ok,
  err,
}
use mathlib.Core.Option.{some-injective}
use autobahn_python.RawSocket.{
  Socket, Header, decode_header, frames_received, conclude, conclude_run, process_frames, Ending,
}
use autobahn_python.RawSocket.Stream.{
  Holds, short, partial, frame, strings_of, decode-append, IsReady,
}
use autobahn_python.RawSocket.Stream.Loop.{IsStopped, loop}

-- Octets that wait for more.
abbrev pub Waits : ℕ → Octets → Type 0
Waits max_length w =
    (length w < 4)
    ⊎ ((h : Header) × (decode_header max_length w ≡ some h) × (length w < 4 + h.frame_length))

Holds-Waits : {m : ℕ} {w t : Octets} {s : List Octets} → Holds m w s t → s ≡ [] → Waits m w
Holds-Waits (short l) e = inl l
Holds-Waits (partial h d i l k) e = inr (h, d, k)
Holds-Waits (frame h g k) e = absurd (cc)

Waits-none :
    {m : ℕ} {w t : Octets} {s : List Octets} → Holds m w s t → Waits m w → (s ≡ []) × (t ≡ w)
Waits-none (short _) _ = (refl, refl)
Waits-none (partial h d i l k) _ = (refl, refl)
Waits-none (frame h g k) (inl l) = absurd (omega (arith, g.enough))
Waits-none (frame h g k) (inr (h', d, n)) =
    let same : h ≡ h' = some-injective _ _ (sym g.read ∙ d) in
    absurd (omega (arith, g.enough, ap (λ x. x.frame_length) same))

-- The octets that come in, chunk after chunk.
abbrev pub and_then :
    Option (Result (Unit {0}) × Socket)
    → (Socket → Option (Result (Unit {0}) × Socket))
    → Option (Result (Unit {0}) × Socket)
and_then none k = none
and_then (some (ok _, d)) k = k d
and_then (some (err e, d)) k = some (err e, d)

unfoldable pub receive_all : List Octets → Socket → Option (Result (Unit {0}) × Socket)
receive_all [] c = some (ok tt, c)
receive_all (octets ∷ more) c = and_then (frames_received octets c) (λ d. receive_all more d)

-- All is delivered, in order, and `tail` is left.
pub record IsAllDelivered (strings : List Octets) (tail : Octets) (c : Socket)
    (r : Option (Result (Unit {0}) × Socket)) : Type 0 where
  pub finally : Socket
  pub result_is : r ≡ some (ok tt, finally)
  pub delivered_are : strings_of finally.log ≡ strings_of c.log ++ strings
  pub buffer_is : finally.buffer ≡ tail

-- One call, at a buffer that is followed by `later`.
record IsReceived (max_length : ℕ) (later tail : Octets) (strings : List Octets) (c : Socket)
    (r : Option (Result (Unit {0}) × Socket)) : Type 0 where
  after : Socket
  given : List Octets
  to_come : List Octets
  result_is : r ≡ some (ok tt, after)
  is_ready : IsReady max_length after.buffer after
  all_logged : strings_of after.log ≡ strings_of c.log ++ given
  in_order : strings ≡ given ++ to_come
  holds : Holds max_length (after.buffer ++ later) to_come tail
  waits : Holds max_length after.buffer [] after.buffer

concluded :
    (m : ℕ) (later tail : Octets) (strings : List Octets) (c : Socket)
    (r : Option (Ending × Socket))
    → IsStopped m later tail strings c r
    → IsReceived m later tail strings c (conclude_run r)
unfolding conclude_run conclude
concluded m later tail strings c r i = record {
  after = record i.after { buffer = i.rest };
  given = i.given;
  to_come = i.to_come;
  result_is = ap conclude_run i.result_is;
  is_ready = record {
    has_session = i.is_ready.has_session;
    limit_is = i.is_ready.limit_is;
    header_is = i.is_ready.header_is;
  };
  all_logged = i.all_logged;
  in_order = i.in_order;
  holds = i.holds;
  waits = i.waits;
}

with_more :
    (m : ℕ) (octets : Octets) (c : Socket)
    → IsReady m c.buffer c
    → IsReady m (c.buffer ++ octets) (record c { buffer = c.buffer ++ octets })
with_more m octets c r = record {
  has_session = r.has_session;
  limit_is = r.limit_is;
  header_is = elim r.header_is [
    | inl e ↦ inl e
    | inr (h, e, d, l) ↦
        inr (
          h,
          e,
          decode-append m c.buffer octets l ∙ d,
          omega (arith, length-append c.buffer octets),
        )
  ];
}

same_log :
    {m : ℕ} {later tail : Octets} {strings : List Octets} {c : Socket}
    {r : Option (Result (Unit {0}) × Socket)} (buffer : Octets)
    → IsReceived m later tail strings (record c { buffer = buffer }) r
    → IsReceived m later tail strings c r
same_log buffer i = record {
  after = i.after;
  given = i.given;
  to_come = i.to_come;
  result_is = i.result_is;
  is_ready = i.is_ready;
  all_logged = i.all_logged;
  in_order = i.in_order;
  holds = i.holds;
  waits = i.waits;
}

frames_received-IsReceived :
    (m : ℕ) (octets later tail : Octets) (strings : List Octets) (c : Socket)
    → IsReady m c.buffer c
    → Holds m ((c.buffer ++ octets) ++ later) strings tail
    → IsReceived m later tail strings c (frames_received octets c)
unfolding frames_received
frames_received-IsReceived m octets later tail strings c r k =
    let buffer = c.buffer ++ octets in
    let d = record c { buffer = buffer } in
    same_log buffer (
      concluded m later tail strings d (process_frames (length buffer + 1) buffer d) (
        loop m later tail (length buffer + 1) buffer strings d (omega arith)
          (with_more m octets c r) k))

pub receive_all-IsAllDelivered :
    (m : ℕ) (cs : List Octets) (tail : Octets) (strings : List Octets) (c : Socket)
    → IsReady m c.buffer c
    → Waits m c.buffer
    → Holds m (c.buffer ++ join cs) strings tail
    → IsAllDelivered strings tail c (receive_all cs c)
unfolding receive_all
receive_all-IsAllDelivered m [] tail strings c r w k =
    let p = Waits-none (subst (λ x. Holds m x strings tail) (append-nil c.buffer) k) w in
    record {
      finally = c;
      result_is = refl;
      delivered_are = sym (ap (λ s. strings_of c.log ++ s) p.0 ∙ append-nil _);
      buffer_is = sym p.1;
    }
receive_all-IsAllDelivered m (o ∷ os) tail strings c r w k =
    let i =
      frames_received-IsReceived m o (join os) tail strings c r
        (subst (λ x. Holds m x strings tail) (sym (append_assoc c.buffer o (join os))) k) in
    let j =
      receive_all-IsAllDelivered m os tail i.to_come i.after i.is_ready (Holds-Waits i.waits refl)
        i.holds in
    rw i.result_is (record {
      finally = j.finally;
      result_is = j.result_is;
      delivered_are =
          j.delivered_are
          ∙ ap (λ l. l ++ i.to_come) i.all_logged
          ∙ append_assoc _ i.given i.to_come
          ∙ ap (λ s. strings_of c.log ++ s) (sym i.in_order);
      buffer_is = j.buffer_is;
    })
