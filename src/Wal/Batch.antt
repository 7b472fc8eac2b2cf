-- ===== src/Wal/Batch.antt =====
-- internal/wal/batch.go: the batch that the engine logs per write. A nil value is the empty one.
pub mod RoundTrip
use basalt.Prelude.{
  ℕ, zero, suc, ◌+◌, ◌/◌, ◌≤◌, ◌<◌, ◌≡◌, ◌⊎◌, Option, none, some, List, [], ◌∷◌, ◌++◌, Bool, ltb,
  ◌==◌, ◌||◌, not, if◌then◌else◌, Bytes, IsU64, length, take, drop, All, le_bytes, le_value,
  put_uvarint, uvarint,
}
use basalt.Keys.{kind_put, kind_delete, append_length_prefixed, decode_length_prefixed}

pub record Op : Type 0 where
  pub kind : ℕ
  pub user_key : Bytes
  pub value : Bytes

pub record Batch : Type 0 where
  pub base_seq : ℕ
  pub ops : List Op

unfoldable pub put : Bytes → Bytes → Batch → Batch
put user_key value b = record b {
  ops = b.ops ++ (record { kind = kind_put; user_key = user_key; value = value } ∷ []);
}

unfoldable pub delete : Bytes → Batch → Batch
delete user_key b = record b {
  ops = b.ops ++ (record { kind = kind_delete; user_key = user_key; value = [] } ∷ []);
}

-- What the loop of Encode appends for one op: the kind byte, the key and, for puts, the value.
unfoldable pub encode_op : Op → Bytes
encode_op op =
    op.kind
    ∷ (append_length_prefixed [] op.user_key
        ++ (if op.kind == kind_put then append_length_prefixed [] op.value else []))

unfoldable pub encode_ops : List Op → Bytes
encode_ops [] = []
encode_ops (op ∷ ops) = encode_op op ++ encode_ops ops

unfoldable pub encode : Batch → Bytes → Bytes
encode b dst = dst ++ (le_bytes 8 b.base_seq ++ (put_uvarint (length b.ops) ++ encode_ops b.ops))

-- One round of the loop of DecodeBatch; `none` is ErrCorruptBatch.
unfoldable pub decode_op : Bytes → Option (Op × Bytes)
decode_op [] = none
decode_op (kind ∷ rest) =
    if (kind == kind_put) || (kind == kind_delete)
    then elim (decode_length_prefixed rest) [
      | none ↦ none
      | some (key, rest') ↦
          if kind == kind_put
          then elim (decode_length_prefixed rest') [
            | none ↦ none
            | some (value, rest'') ↦
                some (record { kind = kind; user_key = key; value = value }, rest'')
          ]
          else some (record { kind = kind; user_key = key; value = [] }, rest')
    ]
    else none

-- The loop, `count` rounds of it.
unfoldable pub decode_ops : ℕ → Bytes → Option (List Op × Bytes)
decode_ops zero rest = some ([], rest)
decode_ops (suc count) rest = elim (decode_op rest) [
  | none ↦ none
  | some (op, rest') ↦ elim (decode_ops count rest') [
    | none ↦ none
    | some (ops, end) ↦ some (op ∷ ops, end)
  ]
]

unfoldable pub decode_batch : Bytes → Option Batch
decode_batch payload = if ltb (length payload) 8 then none else elim (uvarint (drop 8 payload)) [
  | none ↦ none
  | some (count, rest) ↦
      if ltb (length rest / 2) count then none else elim (decode_ops count rest) [
        | none ↦ none
        | some (ops, end) ↦
            if length end == 0
            then some (record { base_seq = le_value (take 8 payload); ops = ops })
            else none
      ]
]

-- A put, or a delete without a value; lengths fit a word.
pub record IsOp (op : Op) : Type 0 where
  pub kinds : (op.kind ≡ kind_put) ⊎ (op.kind ≡ kind_delete) × (op.value ≡ [])
  pub key_fits : IsU64 (length op.user_key)
  pub value_fits : IsU64 (length op.value)

pub record IsBatch (b : Batch) : Type 0 where
  pub seq_fits : IsU64 b.base_seq
  pub count_fits : IsU64 (length b.ops)
  pub all_ops : All IsOp b.ops
