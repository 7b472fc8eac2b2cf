-- ===== src/Wal/Batch/RoundTrip.antt =====
-- DecodeBatch reads back what Encode wrote.
use mathlib.Core.List.{append-nil, append_assoc}
use basalt.Prelude.{
  ◌*◌, ◌≤◌, ◌≡◌, refl, some, List, [], ◌∷◌, ◌++◌, arith, inl, inr, ◌==◌, if◌then◌else◌, Bytes,
  length, All, length-append, le_bytes, le_value-le_bytes, length-le_bytes, take-le_bytes,
  drop-le_bytes, put_uvarint, uvarint-put_uvarint, length-put_uvarint,
}
use basalt.Keys.{kind_put, kind_delete, append_length_prefixed}
use basalt.Keys.Codec.{decode-append_length_prefixed}
use basalt.Wal.Batch.{
  Op, Batch, IsOp, IsBatch, encode_op, encode_ops, encode, decode_op, decode_ops, decode_batch,
}

encode_op_put :
    (op : Op) (rest : Bytes)
    → op.kind ≡ kind_put
    → encode_op op ++ rest
      ≡ op.kind
        ∷ (append_length_prefixed [] op.user_key ++ (append_length_prefixed [] op.value ++ rest))
unfolding encode_op
encode_op_put op rest h = ground (
  arith,
  append_assoc (append_length_prefixed [] op.user_key) (append_length_prefixed [] op.value) rest,
)

encode_op_delete :
    (op : Op) (rest : Bytes)
    → op.kind ≡ kind_delete
    → encode_op op ++ rest ≡ op.kind ∷ (append_length_prefixed [] op.user_key ++ rest)
unfolding encode_op
encode_op_delete op rest h = ground (arith, append-nil (append_length_prefixed [] op.user_key))

decode_op-encode_op :
    (op : Op) (rest : Bytes) → IsOp op → decode_op (encode_op op ++ rest) ≡ some (op, rest)
decode_op-encode_op op rest w = elim w.kinds [
  | inl p ↦ rw (encode_op_put op rest p) (
      unfold decode_op in
      ground (
        arith,
        p,
        decode-append_length_prefixed op.user_key (append_length_prefixed [] op.value ++ rest)
            w.key_fits,
        decode-append_length_prefixed op.value rest w.value_fits,
      ))
  | inr (d, v) ↦ rw (encode_op_delete op rest d) (
      unfold decode_op in
      ground (arith, d, v, decode-append_length_prefixed op.user_key rest w.key_fits))
]

decode_ops-encode_ops :
    (ops : List Op) (rest : Bytes)
    → All IsOp ops
    → decode_ops (length ops) (encode_ops ops ++ rest) ≡ some (ops, rest)
unfolding decode_ops encode_ops
decode_ops-encode_ops [] rest w = refl
decode_ops-encode_ops (op ∷ ops) rest w = rw (append_assoc (encode_op op) (encode_ops ops) rest) (
    ground (
      arith,
      decode_op-encode_op op (encode_ops ops ++ rest) w.0,
      decode_ops-encode_ops ops rest w.1,
    ))

-- Every op takes at least two bytes.
length-encode_ops : (ops : List Op) → 2 * length ops ≤ length (encode_ops ops)
unfolding encode_ops encode_op append_length_prefixed
length-encode_ops [] = omega arith
length-encode_ops (op ∷ ops) = omega (
  arith,
  length-encode_ops ops,
  length-append (encode_op op) (encode_ops ops),
  length-append (append_length_prefixed [] op.user_key)
      (if op.kind == kind_put then append_length_prefixed [] op.value else []),
  length-append (put_uvarint (length op.user_key)) op.user_key,
  length-put_uvarint (length op.user_key),
)

-- A batch of puts and valueless deletes whose numbers fit a word decodes from its encoding.
pub decode_batch-encode : (b : Batch) → IsBatch b → decode_batch (encode b []) ≡ some b
unfolding decode_batch encode
decode_batch-encode b w =
    let body : Bytes = put_uvarint (length b.ops) ++ encode_ops b.ops in
    ground (
      arith,
      length-append (le_bytes 8 b.base_seq) body,
      length-le_bytes 8 b.base_seq,
      drop-le_bytes 8 b.base_seq body,
      take-le_bytes 8 b.base_seq body,
      le_value-le_bytes 8 b.base_seq w.seq_fits,
      uvarint-put_uvarint (length b.ops) (encode_ops b.ops) w.count_fits,
      length-encode_ops b.ops,
      append-nil (encode_ops b.ops),
      decode_ops-encode_ops b.ops [] w.all_ops,
    )
