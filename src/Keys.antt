-- ===== src/Keys.antt =====
-- internal/base: encoded internal keys (internal_key.go) and length-prefixed values (varint.go).
pub mod Order
pub mod Before
pub mod Codec
mod Tests
use basalt.Prelude.{
  ℕ, ◌+◌, ◌-◌, ◌*◌, ◌/◌, ◌%◌, ◌^◌, Ordering, compare, Option, none, some, List, [], ◌∷◌, ◌++◌,
  Bytes, length, take, drop, le_bytes, le_value, bytes_compare, put_uvarint, uvarint, ltb,
  if◌then◌else◌,
}

-- `Kind` is a uint8: a decoded one may be any byte until it is checked.
abbrev pub kind_delete : ℕ
kind_delete = 0

abbrev pub kind_put : ℕ
kind_put = 1

abbrev pub max_kind : ℕ
max_kind = kind_put

abbrev pub trailer_len : ℕ
trailer_len = 8

abbrev pub max_seq : ℕ
max_seq = 2 ^ 56 - 1

pub record InternalKey : Type 0 where
  pub user_key : Bytes
  pub seq : ℕ
  pub kind : ℕ

pub data KeyError : Type 0 where
  key_too_short invalid_kind : KeyError

pub data Decoded : Type 0 where
  ok : InternalKey → Decoded
  err : KeyError → Decoded

-- `seq<<8|uint64(kind)`: the low byte of the shifted number is 0, so `|` of a byte is `+`.
unfoldable pub trailer : ℕ → ℕ → ℕ
trailer seq kind = (seq * 256) % 2 ^ 64 + kind

-- `none` is the panic on a sequence number or a kind out of range.
unfoldable pub append_internal_key : Bytes → Bytes → ℕ → ℕ → Option Bytes
unfolding trailer
append_internal_key dst user_key seq kind =
    if ltb max_seq seq
    then none
    else if ltb max_kind kind
    then none
    else some ((dst ++ user_key) ++ le_bytes 8 (trailer seq kind))

unfoldable pub append_seek_key : Bytes → Bytes → ℕ → Option Bytes
unfolding append_internal_key
append_seek_key dst user_key seq = append_internal_key dst user_key seq max_kind

-- `none` is the panic on a slice that is shorter than the trailer.
unfoldable pub user_key : Bytes → Option Bytes
user_key encoded =
    if ltb (length encoded) trailer_len
    then none
    else some (take (length encoded - trailer_len) encoded)

-- binary.LittleEndian.Uint64 of the last eight bytes.
unfoldable pub trailer_of : Bytes → ℕ
trailer_of encoded = le_value (drop (length encoded - trailer_len) encoded)

unfoldable pub decode_internal_key : Bytes → Decoded
unfolding trailer_of
decode_internal_key encoded =
    if ltb (length encoded) trailer_len
    then err key_too_short
    else let t = trailer_of encoded in
      if ltb max_kind (t % 256)
      then err invalid_kind
      else ok (record {
        user_key = take (length encoded - trailer_len) encoded;
        seq = t / 256;
        kind = t % 256;
      })

abbrev pub then_trailers : ℕ → ℕ → Ordering → Ordering
then_trailers ta tb Ordering.lt = Ordering.lt
then_trailers ta tb Ordering.gt = Ordering.gt
then_trailers ta tb Ordering.eq = compare tb ta

-- User keys ascending, then trailers descending; a panic on a key shorter than the trailer.
unfoldable pub compare_keys : Bytes → Bytes → Option Ordering
unfolding user_key trailer_of
compare_keys a b = elim (user_key a) [
  | none ↦ none
  | some ua ↦ elim (user_key b) [
    | none ↦ none
    | some ub ↦ some (then_trailers (trailer_of a) (trailer_of b) (bytes_compare ua ub))
  ]
]

unfoldable pub append_length_prefixed : Bytes → Bytes → Bytes
append_length_prefixed dst val = (dst ++ put_uvarint (length val)) ++ val

-- `none` is ErrCorruptFraming.
unfoldable pub decode_length_prefixed : Bytes → Option (Bytes × Bytes)
decode_length_prefixed src = elim (uvarint src) [
  | none ↦ none
  | some (n, rest) ↦ if ltb (length rest) n then none else some (take n rest, drop n rest)
]
