-- ===== src/Prelude/Binary.antt =====
-- Byte slices as lists of numbers, and the parts of Go's encoding/binary and bytes that the
-- program uses: fixed-width little-endian integers, uvarints, bytes.Compare.
use Prim.Native.Nat.{ℕ, zero, suc, ◌+◌, ◌-◌, ◌*◌, ◌/◌, ◌%◌, ◌^◌, ◌≤◌, ◌<◌, compare, Ordering}
use mathlib.Core.Path.{◌≡◌, refl, ap}
use mathlib.Core.Bool.{◌&&◌}
use mathlib.Core.Option
use mathlib.Core.Option.{Option, none, some}
use mathlib.Core.Logic.{inl, inr}
use mathlib.Core.List.{List, [], ◌∷◌, ◌++◌}
use native.Mathlib.Omega.{arith}
use native.Mathlib.Nat.{pow-suc}
use basalt.Prelude.Tests.{ltb, ◌==◌, if◌then◌else◌, Option-cases}
use basalt.Prelude.Lists.{length, take, drop}

abbrev pub Bytes : Type 0
Bytes = List ℕ

abbrev pub IsByte : ℕ → Type 0
IsByte b = b < 256

abbrev pub IsU64 : ℕ → Type 0
IsU64 v = v < 2 ^ 64

-- The width lowest bytes of a number, lowest first: binary.LittleEndian.PutUint64 at width 8.
unfoldable pub le_bytes : ℕ → ℕ → Bytes
le_bytes zero v = []
le_bytes (suc width) v = v % 256 ∷ le_bytes width (v / 256)

-- The number that bytes spell, lowest first: binary.LittleEndian.Uint64 on 8 bytes.
unfoldable pub le_value : Bytes → ℕ
le_value [] = 0
le_value (b ∷ bs) = b + 256 * le_value bs

pub length-le_bytes : (width v : ℕ) → length (le_bytes width v) ≡ width
unfolding le_bytes
length-le_bytes zero v = refl
length-le_bytes (suc width) v = ap suc (length-le_bytes width (v / 256))

pub le_value-le_bytes : (width v : ℕ) → v < 256 ^ width → le_value (le_bytes width v) ≡ v
unfolding le_bytes le_value
le_value-le_bytes zero v h = omega arith
le_value-le_bytes (suc width) v h =
    omega (arith, le_value-le_bytes width (v / 256) (omega (arith, pow-suc 256 width)))

pub take-le_bytes :
    (width v : ℕ) (rest : Bytes) → take width (le_bytes width v ++ rest) ≡ le_bytes width v
unfolding le_bytes
take-le_bytes zero v rest = refl
take-le_bytes (suc width) v rest = ap (λ t. v % 256 ∷ t) (take-le_bytes width (v / 256) rest)

pub drop-le_bytes : (width v : ℕ) (rest : Bytes) → drop width (le_bytes width v ++ rest) ≡ rest
unfolding le_bytes
drop-le_bytes zero v rest = refl
drop-le_bytes (suc width) v rest = drop-le_bytes width (v / 256) rest

-- binary.AppendUvarint, seven bits a byte; ten bytes hold every uint64.
unfoldable pub uvarint_bytes : ℕ → ℕ → Bytes
uvarint_bytes zero v = []
uvarint_bytes (suc k) v =
    let rest = uvarint_bytes k (v / 128) in if ltb v 128 then v ∷ [] else (v % 128 + 128) ∷ rest

unfoldable pub put_uvarint : ℕ → Bytes
put_uvarint v = uvarint_bytes 10 v

abbrev shifted : ℕ → ℕ × Bytes → ℕ × Bytes
shifted b (v, rest) = (b - 128 + 128 * v, rest)

-- binary.Uvarint with `k` bytes left to read: the value and the bytes behind it; `none` stands for
-- a count n <= 0, that is an input that ends inside the number or a value beyond 64 bits.
unfoldable pub uvarint_within : ℕ → Bytes → Option (ℕ × Bytes)
uvarint_within k [] = none
uvarint_within zero (b ∷ bs) = none
uvarint_within (suc k) (b ∷ bs) =
    let more = Option.map (shifted b) (uvarint_within k bs) in
    if ltb b 128 then (if k == 0 && ltb 1 b then none else some (b, bs)) else more

unfoldable pub uvarint : Bytes → Option (ℕ × Bytes)
uvarint bs = uvarint_within 10 bs

uvarint_within-uvarint_bytes :
    (k v : ℕ) (rest : Bytes)
    → v < 2 * 128 ^ k
    → uvarint_within (suc k) (uvarint_bytes (suc k) v ++ rest) ≡ some (v, rest)
unfolding uvarint_within uvarint_bytes
uvarint_within-uvarint_bytes zero v rest h = ground arith
uvarint_within-uvarint_bytes (suc k) v rest h = ground (
  arith,
  pow-suc 128 k,
  uvarint_within-uvarint_bytes k (v / 128) rest (omega (arith, pow-suc 128 k)),
)

-- Reading back what was written leaves whatever follows it.
pub uvarint-put_uvarint :
    (v : ℕ) (rest : Bytes) → IsU64 v → uvarint (put_uvarint v ++ rest) ≡ some (v, rest)
unfolding uvarint put_uvarint
uvarint-put_uvarint v rest h = uvarint_within-uvarint_bytes 9 v rest (omega arith)

pub length-put_uvarint : (v : ℕ) → 1 ≤ length (put_uvarint v)
unfolding put_uvarint uvarint_bytes
length-put_uvarint v = ground arith

uvarint_within-shrinks :
    (k : ℕ) (bs : Bytes) (v : ℕ) (rest : Bytes)
    → uvarint_within k bs ≡ some (v, rest)
    → length rest < length bs
unfolding uvarint_within
uvarint_within-shrinks k [] v rest h = ground arith
uvarint_within-shrinks zero (b ∷ bs) v rest h = ground arith
uvarint_within-shrinks (suc k) (b ∷ bs) v rest h = elim (Option-cases (uvarint_within k bs)) [
  | inl e ↦ ground arith
  | inr ((w, tail), e) ↦ ground (arith, uvarint_within-shrinks k bs w tail e)
]

-- Reading a uvarint takes at least one byte.
pub uvarint-shrinks :
    (bs : Bytes) (v : ℕ) (rest : Bytes) → uvarint bs ≡ some (v, rest) → length rest < length bs
unfolding uvarint
uvarint-shrinks bs v rest h = uvarint_within-shrinks 10 bs v rest h

-- bytes.Compare: lexicographic order.
unfoldable pub bytes_compare : Bytes → Bytes → Ordering
bytes_compare [] [] = Ordering.eq
bytes_compare [] (y ∷ ys) = Ordering.lt
bytes_compare (x ∷ xs) [] = Ordering.gt
bytes_compare (x ∷ xs) (y ∷ ys) = elim (compare x y) [
  | Ordering.eq ↦ bytes_compare xs ys
  | Ordering.lt ↦ Ordering.lt
  | Ordering.gt ↦ Ordering.gt
]

pub bytes_compare_refl : (xs : Bytes) → bytes_compare xs xs ≡ Ordering.eq
unfolding bytes_compare
bytes_compare_refl [] = refl
bytes_compare_refl (x ∷ xs) = ground (arith, bytes_compare_refl xs)

-- Words of 64 bits wrap around.
abbrev pub add64 : ℕ → ℕ → ℕ
add64 a b = (a + b) % 2 ^ 64

abbrev pub sub64 : ℕ → ℕ → ℕ
sub64 a b = (a + 2 ^ 64 - b) % 2 ^ 64
