-- ===== src/Wamp/Batch/RoundTrip.antt =====
-- Writing and reading batches of messages.
use autobahn_python.Base.{
  Bool-cases, inl, inr, ℕ, zero, suc, ◌+◌, ◌^◌, ◌<◌, Octets, List, [], ◌∷◌, ◌++◌, true, false, some,
  ltb, take, drop, length, be, unpack, Result, ok, All, ◌≡◌, refl, ap, ◌∙◌, arith, length-append,
  length-be, unpack-be, take-append, drop-append,
}
use autobahn_python.Wamp.Value.{Value, ◌>>=◌, map}
use autobahn_python.Wamp.Batch.{append_unpacked, serialize_object, read_batch, unserialize_objects}

module _ (packb : Value → Octets) (unpackb : Octets → Result Value) where
  -- A payload of several objects, each as the serializer writes it.
  pub data IsBatch : List Value → Octets → Type 0 where
    nothing : IsBatch [] []
    object :
        {obj : Value} {objs : List Value} {later : Octets} (data_of : Octets)
        → serialize_object packb true obj ≡ ok data_of
        → IsBatch objs later
        → IsBatch (obj ∷ objs) (data_of ++ later)

  -- A round of the loop that takes `n` octets.
  round :
      (fuel n b : ℕ) (bs : Octets)
      → unpack (take 4 (b ∷ bs)) ≡ n
      → ltb (length (b ∷ bs)) 4 ≡ false
      → ltb (length (b ∷ bs)) (4 + n) ≡ false
      → read_batch unpackb (suc fuel) (b ∷ bs)
        ≡ append_unpacked
            (unpackb (take n (drop 4 (b ∷ bs))))
            (read_batch unpackb fuel (drop (4 + n) (b ∷ bs)))
  unfolding read_batch
  round fuel n b bs u t v = rw (u, t, v) refl

  -- The first object of a batch.
  entry :
      (fuel : ℕ) (obj : Value) (later : Octets)
      → length (packb obj) < 2 ^ 32
      → unpackb (packb obj) ≡ ok obj
      → read_batch unpackb (suc fuel) ((be 4 (length (packb obj)) ++ packb obj) ++ later)
        ≡ map (λ r. r >>= λ vs. ok (obj ∷ vs)) (read_batch unpackb fuel later)
  unfolding append_unpacked be
  entry fuel obj later h e =
      let n = length (packb obj) in
      round fuel n _ _ (unpack-be 4 n (omega arith)) (ground arith)
        (ground (arith, length-append (packb obj) later))
      ∙ rw (take-append n (packb obj) later refl, e)
          (ap (λ r. map (λ v. v >>= λ vs. ok (obj ∷ vs)) (read_batch unpackb fuel r))
            (drop-append (4 + n) (be 4 n ++ packb obj) later
              (omega (arith, length-append (be 4 n) (packb obj), length-be 4 n))))

  serialized :
      (obj : Value) (octets : Octets)
      → serialize_object packb true obj ≡ ok octets
      → (length (packb obj) < 2 ^ 32) × (octets ≡ be 4 (length (packb obj)) ++ packb obj)
  unfolding serialize_object
  serialized obj octets h = elim (Bool-cases (ltb (length (packb obj)) (2 ^ 32))) [
    | inl t ↦ (ground arith, ground arith)
    | inr t ↦ absurd (ground arith)
  ]

  read_batch-IsBatch :
      (fuel : ℕ) (objs : List Value) (payload : Octets)
      → length payload < fuel
      → All (λ obj. unpackb (packb obj) ≡ ok obj) objs
      → IsBatch objs payload
      → read_batch unpackb fuel payload ≡ some (ok objs)
  unfolding read_batch
  read_batch-IsBatch zero objs payload h a b = absurd (omega arith)
  read_batch-IsBatch (suc fuel) [] _ h a nothing = refl
  read_batch-IsBatch (suc fuel) (obj ∷ objs) _ h a (object {later} octets e b) =
      let p = serialized obj octets e in
      rw p.1 (
        entry fuel obj later p.0 a.0
        ∙ ap (map (λ r. r >>= λ vs. ok (obj ∷ vs))) (
            read_batch-IsBatch fuel objs later
              (omega (
                arith,
                length-append octets later,
                ap length p.1,
                length-append (be 4 (length (packb obj))) (packb obj),
                length-be 4 (length (packb obj)),
              ))
              a.1 b))

-- If unpackb gives back each of some objects from the octets that packb makes of it, then the
-- batch that consists of what a batched MsgPack serializer writes for each of them is
-- unserialized without an error to the same objects in the same order; no objects give the empty
-- batch.
pub unserialize_objects-IsBatch :
    (packb : Value → Octets) (unpackb : Octets → Result Value) (objs : List Value)
    (payload : Octets)
    → All (λ obj. unpackb (packb obj) ≡ ok obj) objs
    → IsBatch packb unpackb objs payload
    → unserialize_objects unpackb true payload ≡ some (ok objs)
unfolding unserialize_objects
unserialize_objects-IsBatch packb unpackb objs payload a b =
    read_batch-IsBatch packb unpackb (suc (length payload)) objs payload (omega arith) a b
