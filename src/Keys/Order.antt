-- ===== src/Keys/Order.antt =====
-- The order of encoded internal keys.
use basalt.Prelude.{
  ℕ, ◌≤◌, ◌≡◌, ◌≢◌, ◌↔◌, some, Ordering, compare, [], arith, Bytes, bytes_compare,
  bytes_compare_refl,
}
use basalt.Keys.{max_seq, max_kind, trailer, append_internal_key, append_seek_key, compare_keys}
use basalt.Keys.Codec.{trailer-lt, user_key-encoded, trailer_of-encoded}

-- The order that the encoding stands for: user keys ascending, then sequence numbers
-- descending, then kinds descending.
abbrev then_descending : ℕ → ℕ → Ordering → Ordering
then_descending a b Ordering.lt = Ordering.lt
then_descending a b Ordering.gt = Ordering.gt
then_descending a b Ordering.eq = compare b a

unfoldable pub version_order : Bytes → ℕ → ℕ → Bytes → ℕ → ℕ → Ordering
version_order u s k v t l = then_descending k l (then_descending s t (bytes_compare u v))

compare-trailer :
    (s k t l : ℕ)
    → s ≤ max_seq
    → k ≤ max_kind
    → t ≤ max_seq
    → l ≤ max_kind
    → compare (trailer t l) (trailer s k) ≡ then_descending k l (compare t s)
unfolding trailer
compare-trailer s k t l hs hk ht hl = ground arith

-- On keys that encode (u, s, k) and (v, t, l), `Compare` answers by user key ascending, then
-- sequence number descending, then kind descending.
pub compare_keys-append_internal_key :
    (u : Bytes) (s k : ℕ) (v : Bytes) (t l : ℕ) (a b : Bytes)
    → append_internal_key [] u s k ≡ some a
    → append_internal_key [] v t l ≡ some b
    → compare_keys a b ≡ some (version_order u s k v t l)
unfolding append_internal_key compare_keys version_order
compare_keys-append_internal_key u s k v t l a b ha hb = ground (
  arith,
  trailer-lt s k,
  trailer-lt t l,
  user_key-encoded u (trailer s k),
  user_key-encoded v (trailer t l),
  trailer_of-encoded u (trailer s k),
  trailer_of-encoded v (trailer t l),
  compare-trailer s k t l,
)

-- A version (u, s, k) is at or behind the seek key of (u, seq) exactly when s is at most seq: the
-- seek lands on the newest version that a snapshot at seq sees.
pub seek_key_visible :
    (u : Bytes) (s k seq : ℕ) (a key : Bytes)
    → append_internal_key [] u s k ≡ some a
    → append_seek_key [] u seq ≡ some key
    → (compare_keys a key ≢ some Ordering.lt) ↔ (s ≤ seq)
unfolding append_seek_key version_order append_internal_key
seek_key_visible u s k seq a key ha hk =
    ground
      (arith, compare_keys-append_internal_key u s k u seq max_kind a key, bytes_compare_refl u)
