-- ===== src/Keys/Tests.antt =====
-- The theorems on internal keys at concrete inputs.
use basalt.Prelude.{◌≤◌, ◌≡◌, ◌≢◌, ◌↔◌, refl, some, [], ◌∷◌, ◌++◌, arith, Bytes, Ordering, le_bytes}
use basalt.Keys.{
  ok, append_internal_key, append_seek_key, decode_internal_key, compare_keys,
  append_length_prefixed, decode_length_prefixed,
}
use basalt.Keys.Codec.{decode-append_internal_key, decode-append_length_prefixed}
use basalt.Keys.Order.{version_order, compare_keys-append_internal_key, seek_key_visible}

-- The user key "ab" at sequence number 7, and at 5.
abbrev ab : Bytes
ab = 97 ∷ 98 ∷ []

abbrev ab_7 : Bytes
ab_7 = 97 ∷ 98 ∷ 1 ∷ 7 ∷ 0 ∷ 0 ∷ 0 ∷ 0 ∷ 0 ∷ 0 ∷ []

abbrev ab_5 : Bytes
ab_5 = 97 ∷ 98 ∷ 1 ∷ 5 ∷ 0 ∷ 0 ∷ 0 ∷ 0 ∷ 0 ∷ 0 ∷ []

encodes_7 : append_internal_key [] ab 7 1 ≡ some ab_7
unfolding append_internal_key le_bytes
encodes_7 = refl

encodes_5 : append_internal_key [] ab 5 1 ≡ some ab_5
unfolding append_internal_key le_bytes
encodes_5 = refl

seeks_7 : append_seek_key [] ab 7 ≡ some ab_7
unfolding append_seek_key le_bytes
seeks_7 = refl

decode-append_internal_key_example :
    decode_internal_key ab_7 ≡ ok (record { user_key = ab; seq = 7; kind = 1 })
decode-append_internal_key_example = decode-append_internal_key [] ab 7 1 ab_7 encodes_7

compare_keys-append_internal_key_example :
    compare_keys ab_7 ab_5 ≡ some (version_order ab 7 1 ab 5 1)
compare_keys-append_internal_key_example =
    compare_keys-append_internal_key ab 7 1 ab 5 1 ab_7 ab_5 encodes_7 encodes_5

seek_key_visible_example : (compare_keys ab_5 ab_7 ≢ some Ordering.lt) ↔ (5 ≤ 7)
seek_key_visible_example = seek_key_visible ab 5 1 7 ab_5 ab_7 encodes_5 seeks_7

decode-append_length_prefixed_example :
    decode_length_prefixed (append_length_prefixed [] ab ++ (9 ∷ [])) ≡ some (ab, 9 ∷ [])
decode-append_length_prefixed_example = decode-append_length_prefixed ab (9 ∷ []) (omega arith)
