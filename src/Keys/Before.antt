-- ===== src/Keys/Before.antt =====
-- base.Compare(a, b) < 0 as a strict order on keys that hold a trailer.
use basalt.Prelude.{
  ◌≤◌, ◌≡◌, ◌≢◌, refl, some, Ordering, [], ◌∷◌, arith, Bool, true, false, Bytes, length,
  bytes_compare, bytes_compare_refl, take, ◌-◌,
}
use basalt.Keys.{compare_keys, user_key, trailer_of, trailer_len, then_trailers}

-- The test of a Compare result. Both keys hold a trailer wherever the program compares keys, so
-- the panic is not reached.
unfoldable pub before : Bytes → Bytes → Bool
before a b = elim (compare_keys a b) [ some Ordering.lt ↦ true | _ ↦ false ]

abbrev pub HasTrailer : Bytes → Type 0
HasTrailer a = trailer_len ≤ length a

bytes_compare_trans :
    (a b c : Bytes)
    → bytes_compare a b ≡ Ordering.lt
    → bytes_compare b c ≡ Ordering.lt
    → bytes_compare a c ≡ Ordering.lt
unfolding bytes_compare
bytes_compare_trans [] [] c h k = absurd (ground arith)
bytes_compare_trans [] (y ∷ b) [] h k = absurd (ground arith)
bytes_compare_trans [] (y ∷ b) (z ∷ c) h k = refl
bytes_compare_trans (x ∷ a) [] c h k = absurd (ground arith)
bytes_compare_trans (x ∷ a) (y ∷ b) [] h k = absurd (ground arith)
bytes_compare_trans (x ∷ a) (y ∷ b) (z ∷ c) h k = ground (arith, bytes_compare_trans a b c)

pub bytes_compare-eq : (a b : Bytes) → bytes_compare a b ≡ Ordering.eq → a ≡ b
unfolding bytes_compare
bytes_compare-eq [] [] h = refl
bytes_compare-eq [] (y ∷ b) h = absurd (ground arith)
bytes_compare-eq (x ∷ a) [] h = absurd (ground arith)
bytes_compare-eq (x ∷ a) (y ∷ b) h = ground (arith, bytes_compare-eq a b)

pub bytes_compare_flip :
    (a b : Bytes) → bytes_compare a b ≡ Ordering.gt → bytes_compare b a ≡ Ordering.lt
unfolding bytes_compare
bytes_compare_flip [] [] h = absurd (ground arith)
bytes_compare_flip [] (y ∷ b) h = absurd (ground arith)
bytes_compare_flip (x ∷ a) [] h = refl
bytes_compare_flip (x ∷ a) (y ∷ b) h = ground (arith, bytes_compare_flip a b)

-- The user key and the trailer of a key that holds one.
abbrev pub name_of : Bytes → Bytes
name_of a = take (length a - trailer_len) a

compare_keys_lem :
    (a b : Bytes)
    → HasTrailer a
    → HasTrailer b
    → compare_keys a b
      ≡ some (then_trailers (trailer_of a) (trailer_of b) (bytes_compare (name_of a) (name_of b)))
unfolding compare_keys user_key
compare_keys_lem a b h k = ground arith

pub before_trans :
    (a b c : Bytes)
    → HasTrailer a
    → HasTrailer b
    → HasTrailer c
    → before a b ≡ true
    → before b c ≡ true
    → before a c ≡ true
unfolding before
before_trans a b c ha hb hc p q = ground (
  arith,
  compare_keys_lem a b,
  compare_keys_lem b c,
  compare_keys_lem a c,
  bytes_compare_trans (name_of a) (name_of b) (name_of c),
  bytes_compare-eq (name_of a) (name_of b),
  bytes_compare-eq (name_of b) (name_of c),
)

pub before_irrefl : (a : Bytes) → HasTrailer a → before a a ≡ false
unfolding before
before_irrefl a h = ground (arith, compare_keys_lem a a, bytes_compare_refl (name_of a))

-- Keys of which neither is before the other compare equal.
pub before_total :
    (a b : Bytes)
    → HasTrailer a
    → HasTrailer b
    → before a b ≡ false
    → before b a ≡ false
    → compare_keys a b ≡ some Ordering.eq
unfolding before
before_total a b ha hb p q = ground (
  arith,
  compare_keys_lem a b,
  compare_keys_lem b a,
  bytes_compare_flip (name_of a) (name_of b),
  bytes_compare-eq (name_of a) (name_of b),
)

-- Compare succeeds on keys that hold a trailer only.
pub compare_keys-HasTrailer :
    (a b : Bytes) (o : Ordering) → compare_keys a b ≡ some o → HasTrailer a × HasTrailer b
unfolding compare_keys user_key
compare_keys-HasTrailer a b o h = (ground (arith, h), ground (arith, h))

-- A key before `b` is before every key that `b` is not behind.
pub before_step :
    (a b c : Bytes)
    → HasTrailer a
    → HasTrailer b
    → HasTrailer c
    → before a b ≡ true
    → compare_keys b c ≢ some Ordering.gt
    → before a c ≡ true
unfolding before
before_step a b c ha hb hc p q = ground (
  arith,
  p,
  q,
  compare_keys_lem a b,
  compare_keys_lem b c,
  compare_keys_lem a c,
  bytes_compare_trans (name_of a) (name_of b) (name_of c),
  bytes_compare-eq (name_of a) (name_of b),
  bytes_compare-eq (name_of b) (name_of c),
)

-- A key that is not behind `b` is before every key that `b` is before.
pub before_behind :
    (a b c : Bytes)
    → HasTrailer a
    → HasTrailer b
    → HasTrailer c
    → compare_keys a b ≢ some Ordering.gt
    → before b c ≡ true
    → before a c ≡ true
unfolding before
before_behind a b c ha hb hc p q = ground (
  arith,
  p,
  q,
  compare_keys_lem a b,
  compare_keys_lem b c,
  compare_keys_lem a c,
  bytes_compare_trans (name_of a) (name_of b) (name_of c),
  bytes_compare-eq (name_of a) (name_of b),
  bytes_compare-eq (name_of b) (name_of c),
)
