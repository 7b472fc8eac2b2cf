-- ===== src/Wal/Record.antt =====
-- internal/wal/record.go: crc-framed records. crc32c is hash/crc32 with the Castagnoli polynomial.
pub mod Scan
use Prim.Native.Nat.{bit_xor}
use basalt.Prelude.{
  ◌≡◌, ◌⊎◌, inl, inr, refl, ℕ, zero, suc, ◌+◌, ◌-◌, ◌/◌, ◌%◌, ◌^◌, Option, none, some, List, [],
  ◌∷◌, ◌++◌, ltb, ◌==◌, if◌then◌else◌, Bytes, length, take, drop, le_bytes, le_value,
}

abbrev pub record_header_len : ℕ
record_header_len = 8

-- `k` steps of the bitwise division by the reversed polynomial.
unfoldable pub crc_bits : ℕ → ℕ → ℕ
crc_bits zero c = c
crc_bits (suc k) c = crc_bits k (if c % 2 == 1 then bit_xor (c / 2) 0x82f63b78 else c / 2)

unfoldable pub crc_bytes : ℕ → Bytes → ℕ
crc_bytes c [] = c
crc_bytes c (b ∷ bs) = crc_bytes (crc_bits 8 (bit_xor c b)) bs

-- crc32.Update; crc32.Checksum starts it at 0.
unfoldable pub crc_update : ℕ → Bytes → ℕ
unfolding crc_bytes crc_bits
crc_update crc p = bit_xor (crc_bytes (bit_xor crc 0xffffffff) p) 0xffffffff

-- The checksum of a record, over the length field and the payload, as four bytes hold it.
unfoldable pub record_crc : Bytes → Bytes → ℕ
record_crc len_buf payload = crc_update (crc_update 0 len_buf) payload % 2 ^ 32

-- `none` is the panic on a payload that the length field cannot hold.
unfoldable pub append_record : Bytes → Bytes → Option Bytes
append_record dst payload =
    if ltb (2 ^ 32 - 1) (length payload)
    then none
    else let len_buf = le_bytes 4 (length payload) in
      some (dst ++ (le_bytes 4 (record_crc len_buf payload) ++ (len_buf ++ payload)))

-- `none` is ok=false.
unfoldable pub next_record : Bytes → Option (Bytes × Bytes)
next_record buf =
    let want_crc = le_value (take 4 buf) in
    let len_buf = take 4 (drop 4 buf) in
    let len = le_value len_buf in
    let body = drop record_header_len buf in
    if ltb (length buf) record_header_len
    then none
    else if ltb (length buf - record_header_len) len
    then none
    else if record_crc len_buf (take len body) == want_crc
    then some (take len body, drop len body)
    else none

-- What ScanRecords returns: the length of the clean prefix and the error of fn, beside the state
-- that fn built up.
pub record Scanned {ℓ κ} (S : Type ℓ) (E : Type κ) : Type (ℓ ⊔ κ) where
  pub state : S
  pub clean_len : ℕ
  pub error : Option E

pub data Visit {ℓ κ} (S : Type ℓ) (E : Type κ) : Type (ℓ ⊔ κ) where
  go_on : S → Visit S E
  fail : E → Visit S E

pub Visit-cases {ℓ κ} :
    {S : Type ℓ} {E : Type κ} (v : Visit S E) → ((e : E) × (v ≡ fail e)) ⊎ ((s : S) × (v ≡ go_on s))
Visit-cases (fail e) = inl (e, refl)
Visit-cases (go_on s) = inr (s, refl)

module _ {ℓ κ} {S : Type ℓ} {E : Type κ} (fn : S → Bytes → Visit S E) where
  -- The loop, at most `fuel` rounds of it; `done` is the number of bytes behind it.
  unfoldable pub scan_loop : ℕ → ℕ → S → Bytes → Scanned S E
  scan_loop zero done s rest = record { state = s; clean_len = done; error = none }
  scan_loop (suc fuel) done s rest = elim (next_record rest) [
    | none ↦ record { state = s; clean_len = done; error = none }
    | some (payload, next) ↦ elim (fn s payload) [
      | fail e ↦ record { state = s; clean_len = done; error = some e }
      | go_on s' ↦ scan_loop fuel (done + (length rest - length next)) s' next
    ]
  ]

  -- A record takes eight bytes at least, so a round for each byte is enough.
  unfoldable pub scan_records : S → Bytes → Scanned S E
  scan_records s buf = scan_loop (length buf) 0 s buf
