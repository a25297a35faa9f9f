-- ===== src/Wamp/Batch.antt =====
-- Batches of messages: `serialize` and `unserialize` of MsgPackObjectSerializer of wamp/serializer.py,
-- which those of CBORObjectSerializer repeat. msgpack's packb and unpackb are parameters.
pub mod RoundTrip
use autobahn_python.Base.{
  ℕ, zero, suc, ◌+◌, ◌^◌, Octets, List, [], ◌∷◌, ◌++◌, Bool, true, false, Option, none, some, ltb,
  take, drop, length, be, unpack, if◌then◌else◌, Error, Result, ok, err,
}
use autobahn_python.Wamp.Value.{Value, ◌>>=◌, map}

-- `msgs.append(_unpackb(data))` and what the loop does after it.
unfoldable pub append_unpacked :
    Result Value → Option (Result (List Value)) → Option (Result (List Value))
append_unpacked (ok v) later = map (λ r. r >>= λ vs. ok (v ∷ vs)) later
append_unpacked (err e) later = some (err e)

module _ (packb : Value → Octets) where
  -- `batched` is `self._batched`.
  unfoldable pub serialize_object : Bool → Value → Result Octets
  serialize_object batched obj =
      let packed = packb obj in
      if batched
      then (if ltb (length packed) (2 ^ 32)
          then ok (be 4 (length packed) ++ packed)
          else err Error.struct_error)
      else ok packed

module _ (unpackb : Octets → Result Value) where
  -- The loop on `payload[i:]`. A round takes four octets at least. Since `i` never passes the end, the
  -- test after the loop is always false and is left out.
  unfoldable pub read_batch : ℕ → Octets → Option (Result (List Value))
  read_batch zero rest = none
  read_batch (suc fuel) [] = some (ok [])
  read_batch (suc fuel) (b ∷ bs) =
      let rest = b ∷ bs in
      let l = unpack (take 4 rest) in
      let later = read_batch fuel (drop (4 + l) rest) in
      if ltb (length rest) 4
      then some (err Error.batch_format_error)
      else if ltb (length rest) (4 + l)
      then some (err Error.batch_format_error)
      else append_unpacked (unpackb (take l (drop 4 rest))) later

  unfoldable pub unserialize_objects : Bool → Octets → Option (Result (List Value))
  unserialize_objects batched payload =
      if batched
      then read_batch (suc (length payload)) payload
      else some (unpackb payload >>= λ v. ok (v ∷ []))
