-- ===== src/WebSocket/Close/Truncate.antt =====
-- The limit of `encode_truncate`.
use autobahn_python.Base.{
  ℕ, ◌+◌, ◌≤◌, Octets, [], ◌∷◌, ◌++◌, ltb, ◌==◌, take, length, length-append, length-take, arith,
  Bool-cases, inl, inr,
}
use autobahn_python.WebSocket.Utf8.{next_state}
use autobahn_python.WebSocket.Close.{whole_code_points, encode_truncate}

whole_code_points_le :
    (s : ℕ) (held bs : Octets) → length (whole_code_points s held bs) ≤ length held + length bs
unfolding whole_code_points
whole_code_points_le s held [] = omega arith
whole_code_points_le s held (b ∷ bs) = elim (Bool-cases (next_state s b == 0)) [
  | inl e ↦ rw e (
      omega (
        arith,
        length-append (held ++ b ∷ []) (whole_code_points 0 [] bs),
        length-append held (b ∷ []),
        whole_code_points_le 0 [] bs,
      ))
  | inr e ↦ rw e (
      omega (
        arith,
        length-append held (b ∷ []),
        whole_code_points_le (next_state s b) (held ++ b ∷ []) bs,
      ))
]

-- encode_truncate gives at most as many octets as its limit.
pub encode_truncate_le : (text : Octets) (limit : ℕ) → length (encode_truncate text limit) ≤ limit
unfolding encode_truncate
encode_truncate_le text limit = elim (Bool-cases (ltb limit (length text))) [
  | inl e ↦
      rw e (omega (arith, whole_code_points_le 0 [] (take limit text), length-take limit text))
  | inr e ↦ rw e (ground arith)
]
