-- ===== src/Keys/Codec.antt =====
-- Round trips of internal keys and of length-prefixed values.
use mathlib.Core.List.{append_assoc}
use basalt.Prelude.{
  ℕ, ◌+◌, ◌-◌, ◌/◌, ◌%◌, ◌≤◌, ◌≡◌, some, [], ◌++◌, arith, Bytes, IsU64, length, take, length-append,
  take-append_left, drop-append_left, le_bytes, length-le_bytes, le_value-le_bytes, put_uvarint,
  uvarint-put_uvarint,
}
use basalt.Keys.{
  ok, max_seq, max_kind, trailer, append_internal_key, user_key, trailer_of, decode_internal_key,
  append_length_prefixed, decode_length_prefixed,
}

pub trailer-lt : (seq kind : ℕ) → seq ≤ max_seq → kind ≤ max_kind → IsU64 (trailer seq kind)
unfolding trailer
trailer-lt seq kind hs hk = omega arith

pub trailer_fields :
    (seq kind : ℕ)
    → seq ≤ max_seq
    → kind ≤ max_kind
    → (trailer seq kind / 256 ≡ seq) × (trailer seq kind % 256 ≡ kind)
unfolding trailer
trailer_fields seq kind hs hk = omega arith

module _ (u : Bytes) (t : ℕ) where
  pub length-encoded : length (u ++ le_bytes 8 t) ≡ length u + 8
  length-encoded = omega (arith, length-append u (le_bytes 8 t), length-le_bytes 8 t)

  prefix_length : length (u ++ le_bytes 8 t) - 8 ≡ length u
  prefix_length = omega (arith, length-encoded)

  pub take-encoded : take (length (u ++ le_bytes 8 t) - 8) (u ++ le_bytes 8 t) ≡ u
  take-encoded = rw prefix_length (take-append_left u (le_bytes 8 t))

  pub trailer_of-encoded : IsU64 t → trailer_of (u ++ le_bytes 8 t) ≡ t
  unfolding trailer_of
  trailer_of-encoded h =
      rw prefix_length
        (rw (drop-append_left u (le_bytes 8 t)) (le_value-le_bytes 8 t (omega arith)))

  pub user_key-encoded : user_key (u ++ le_bytes 8 t) ≡ some u
  unfolding user_key
  user_key-encoded = ground (arith, length-encoded, take-encoded)

-- An encoded key with its destination prefix decodes to the prefix and user key joined, the
-- sequence number and the kind.
pub decode-append_internal_key :
    (dst u : Bytes) (seq kind : ℕ) (enc : Bytes)
    → append_internal_key dst u seq kind ≡ some enc
    → decode_internal_key enc ≡ ok (record { user_key = dst ++ u; seq = seq; kind = kind })
unfolding append_internal_key decode_internal_key
decode-append_internal_key dst u seq kind enc h = ground (
  arith,
  trailer_fields seq kind,
  trailer-lt seq kind,
  length-encoded (dst ++ u) (trailer seq kind),
  take-encoded (dst ++ u) (trailer seq kind),
  trailer_of-encoded (dst ++ u) (trailer seq kind),
)

pub append_internal_key-eq :
    (u : Bytes) (seq kind : ℕ)
    → seq ≤ max_seq
    → kind ≤ max_kind
    → append_internal_key [] u seq kind ≡ some (u ++ le_bytes 8 (trailer seq kind))
unfolding append_internal_key
append_internal_key-eq u seq kind hs hk = ground arith

-- What was framed is read back, and the bytes behind it are left.
pub decode-append_length_prefixed :
    (val rest : Bytes)
    → IsU64 (length val)
    → decode_length_prefixed (append_length_prefixed [] val ++ rest) ≡ some (val, rest)
unfolding decode_length_prefixed append_length_prefixed
decode-append_length_prefixed val rest h =
    let e : (put_uvarint (length val) ++ val) ++ rest ≡ put_uvarint (length val) ++ (val ++ rest) =
      append_assoc (put_uvarint (length val)) val rest in
    rw e (
      ground (
        arith,
        uvarint-put_uvarint (length val) (val ++ rest) h,
        length-append val rest,
        take-append_left val rest,
        drop-append_left val rest,
      ))
