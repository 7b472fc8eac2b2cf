-- ===== src/Manifest/Edit/RoundTrip.antt =====
-- decodeEdit reads back what encode wrote.
use mathlib.Core.List.{append-nil, append_assoc}
use basalt.Prelude.{
  ℕ, zero, suc, ◌≤◌, ◌≡◌, refl, sym, subst, ◌∙◌, some, List, [], ◌∷◌, ◌++◌, arith, Bool, true,
  false, Bytes, length, length-append, All, put_uvarint, length-put_uvarint,
}
use basalt.Keys.{append_length_prefixed}
use basalt.Manifest.Edit.{
  FileMeta, DeletedFile, VersionEdit, no_edit, set_log_number, set_next_file_num, set_last_seq,
  tag_log_number, tag_next_file_num, tag_last_seq, tag_add_file, tag_delete_file, encode_counter,
  encode_add, encode_adds, encode_delete, encode_deletes, encode, decode_field, decode_fields,
  decode_edit,
}
use basalt.Manifest.Edit.Fields.{
  IsFileMeta, IsDeletedFile, IsCounter, IsEdit, decode_field-log_number, decode_field-next_file_num,
  decode_field-last_seq, decode_field-add, decode_field-delete,
}

-- With enough fuel, the loop goes from the state `e` at `buf` to the state `e'` at `rest`.
Reads : VersionEdit → Bytes → VersionEdit → Bytes → Type 0
Reads e buf e' rest =
    (fuel : ℕ)
    → length buf ≤ fuel
    → (left : ℕ) × (length rest ≤ left) × (decode_fields fuel e buf ≡ decode_fields left e' rest)

Reads-refl : (e : VersionEdit) (buf : Bytes) → Reads e buf e buf
unfolding Reads
Reads-refl e buf fuel h = (fuel, h, refl)

Reads-trans :
    (e : VersionEdit) (buf : Bytes) (e₁ : VersionEdit) (buf₁ : Bytes) (e₂ : VersionEdit)
    (buf₂ : Bytes)
    → Reads e buf e₁ buf₁
    → Reads e₁ buf₁ e₂ buf₂
    → Reads e buf e₂ buf₂
unfolding Reads
Reads-trans e buf e₁ buf₁ e₂ buf₂ r s fuel h =
    let (mid, k, p) = r fuel h in let (left, l, q) = s mid k in (left, l, p ∙ q)

-- One round.
Reads-field :
    (e : VersionEdit) (front rest : Bytes) (e' : VersionEdit)
    → 1 ≤ length front
    → decode_field e (front ++ rest) ≡ some (e', rest)
    → Reads e (front ++ rest) e' rest
unfolding Reads
Reads-field e [] rest e' l h fuel k = absurd (omega arith)
Reads-field e (b ∷ front) rest e' l h zero k = absurd (omega arith)
Reads-field e (b ∷ front) rest e' l h (suc fuel) k =
    (fuel, omega (arith, length-append front rest), unfold decode_fields in ground (arith, h))

length-encode_add : (f : FileMeta) → 1 ≤ length (encode_add f)
unfolding encode_add
length-encode_add f =
    let more : Bytes =
      put_uvarint f.level
      ++ (put_uvarint f.file_num
          ++ (put_uvarint f.size
              ++ (append_length_prefixed [] f.smallest ++ append_length_prefixed [] f.largest))) in
    omega (arith, length-append (put_uvarint tag_add_file) more, length-put_uvarint tag_add_file)

length-encode_delete : (d : DeletedFile) → 1 ≤ length (encode_delete d)
unfolding encode_delete
length-encode_delete d = omega (
  arith,
  length-append (put_uvarint tag_delete_file) (put_uvarint d.level ++ put_uvarint d.file_num),
  length-put_uvarint tag_delete_file,
)

Reads-adds :
    (e : VersionEdit) (fs : List FileMeta) (rest : Bytes)
    → All IsFileMeta fs
    → Reads e (encode_adds fs ++ rest) (record e { add_files = e.add_files ++ fs }) rest
unfolding encode_adds
Reads-adds e [] rest w = rw (append-nil e.add_files) (Reads-refl e rest)
Reads-adds e (f ∷ fs) rest w =
    let e' : VersionEdit = record e { add_files = e.add_files ++ (f ∷ []) } in
    let one : Reads e (encode_add f ++ (encode_adds fs ++ rest)) e' (encode_adds fs ++ rest) =
      Reads-field e (encode_add f) (encode_adds fs ++ rest) e' (length-encode_add f)
        (decode_field-add e f (encode_adds fs ++ rest) w.0) in
    let more = Reads-adds e' fs rest w.1 in
    let last : VersionEdit = record e { add_files = e.add_files ++ (f ∷ fs) } in
    let same : (e.add_files ++ (f ∷ [])) ++ fs ≡ e.add_files ++ (f ∷ fs) =
      append_assoc e.add_files (f ∷ []) fs in
    let more' : Reads e' (encode_adds fs ++ rest) last rest =
      subst (λ t. Reads e' (encode_adds fs ++ rest) (record e { add_files = t }) rest) same more in
    rw (append_assoc (encode_add f) (encode_adds fs) rest) (
      Reads-trans e (encode_add f ++ (encode_adds fs ++ rest)) e' (encode_adds fs ++ rest) last rest
        one more')

Reads-deletes :
    (e : VersionEdit) (ds : List DeletedFile) (rest : Bytes)
    → All IsDeletedFile ds
    → Reads e (encode_deletes ds ++ rest) (record e { delete_files = e.delete_files ++ ds }) rest
unfolding encode_deletes
Reads-deletes e [] rest w = rw (append-nil e.delete_files) (Reads-refl e rest)
Reads-deletes e (d ∷ ds) rest w =
    let e' : VersionEdit = record e { delete_files = e.delete_files ++ (d ∷ []) } in
    let one : Reads e (encode_delete d ++ (encode_deletes ds ++ rest)) e'
        (encode_deletes ds ++ rest) =
      Reads-field e (encode_delete d) (encode_deletes ds ++ rest) e' (length-encode_delete d)
        (decode_field-delete e d (encode_deletes ds ++ rest) w.0) in
    let more = Reads-deletes e' ds rest w.1 in
    let last : VersionEdit = record e { delete_files = e.delete_files ++ (d ∷ ds) } in
    let same : (e.delete_files ++ (d ∷ [])) ++ ds ≡ e.delete_files ++ (d ∷ ds) =
      append_assoc e.delete_files (d ∷ []) ds in
    let more' : Reads e' (encode_deletes ds ++ rest) last rest =
      subst (λ t. Reads e' (encode_deletes ds ++ rest) (record e { delete_files = t }) rest) same
        more in
    rw (append_assoc (encode_delete d) (encode_deletes ds) rest) (
      Reads-trans e (encode_delete d ++ (encode_deletes ds ++ rest)) e' (encode_deletes ds ++ rest)
        last rest one more')

-- A counter that is there is set, one that is absent leaves the zero value.
Reads-counter :
    (e e' : VersionEdit) (has : Bool) (tag v : ℕ) (rest : Bytes)
    → (has ≡ true → decode_field e ((put_uvarint tag ++ put_uvarint v) ++ rest) ≡ some (e', rest))
    → (has ≡ false → e' ≡ e)
    → Reads e (encode_counter has tag v ++ rest) e' rest
unfolding encode_counter
Reads-counter e e' false tag v rest there absent =
    subst (λ t. Reads e rest t rest) (sym (absent refl)) (Reads-refl e rest)
Reads-counter e e' true tag v rest there absent =
    Reads-field e (put_uvarint tag ++ put_uvarint v) rest e'
      (omega (arith, length-append (put_uvarint tag) (put_uvarint v), length-put_uvarint v))
      (there refl)

Reads-log_number :
    (e : VersionEdit) (has : Bool) (v : ℕ) (rest : Bytes)
    → IsCounter has v
    → e.has_log_number ≡ false
    → e.log_number ≡ 0
    → Reads e
        (encode_counter has tag_log_number v ++ rest)
        (record e { has_log_number = has; log_number = v })
        rest
unfolding set_log_number
Reads-log_number e has v rest w none_yet zero_yet =
    Reads-counter e (record e { has_log_number = has; log_number = v }) has tag_log_number v rest
      (λ h. ground (arith, h, decode_field-log_number e v rest w.0))
      (λ h. ground (arith, h, w.1, none_yet, zero_yet))

Reads-next_file_num :
    (e : VersionEdit) (has : Bool) (v : ℕ) (rest : Bytes)
    → IsCounter has v
    → e.has_next_file_num ≡ false
    → e.next_file_num ≡ 0
    → Reads e
        (encode_counter has tag_next_file_num v ++ rest)
        (record e { has_next_file_num = has; next_file_num = v })
        rest
unfolding set_next_file_num
Reads-next_file_num e has v rest w none_yet zero_yet =
    Reads-counter e (record e { has_next_file_num = has; next_file_num = v }) has tag_next_file_num
      v rest (λ h. ground (arith, h, decode_field-next_file_num e v rest w.0))
      (λ h. ground (arith, h, w.1, none_yet, zero_yet))

Reads-last_seq :
    (e : VersionEdit) (has : Bool) (v : ℕ) (rest : Bytes)
    → IsCounter has v
    → e.has_last_seq ≡ false
    → e.last_seq ≡ 0
    → Reads e
        (encode_counter has tag_last_seq v ++ rest)
        (record e { has_last_seq = has; last_seq = v })
        rest
unfolding set_last_seq
Reads-last_seq e has v rest w none_yet zero_yet =
    Reads-counter e (record e { has_last_seq = has; last_seq = v }) has tag_last_seq v rest
      (λ h. ground (arith, h, decode_field-last_seq e v rest w.0))
      (λ h. ground (arith, h, w.1, none_yet, zero_yet))

-- The fields in the order of encode.
Reads-encode : (e : VersionEdit) → IsEdit e → Reads no_edit (encode e []) e []
unfolding encode
Reads-encode e w =
    let deletes : Bytes = encode_deletes e.delete_files in
    let files : Bytes = encode_adds e.add_files ++ deletes in
    let seqs : Bytes = encode_counter e.has_last_seq tag_last_seq e.last_seq ++ files in
    let nexts : Bytes =
      encode_counter e.has_next_file_num tag_next_file_num e.next_file_num ++ seqs in
    let logs : Bytes = encode_counter e.has_log_number tag_log_number e.log_number ++ nexts in
    let e₁ : VersionEdit = record no_edit {
      has_log_number = e.has_log_number;
      log_number = e.log_number;
    } in
    let e₂ : VersionEdit = record e₁ {
      has_next_file_num = e.has_next_file_num;
      next_file_num = e.next_file_num;
    } in
    let e₃ : VersionEdit = record e₂ { has_last_seq = e.has_last_seq; last_seq = e.last_seq } in
    let e₄ : VersionEdit = record e₃ { add_files = e.add_files } in
    let read_deletes : Reads e₄ deletes e [] =
      subst (λ t. Reads e₄ t e []) (append-nil deletes)
        (Reads-deletes e₄ e.delete_files [] w.deletes) in
    Reads-trans no_edit logs e₁ nexts e []
      (Reads-log_number no_edit e.has_log_number e.log_number nexts w.log_number refl refl)
      (Reads-trans e₁ nexts e₂ seqs e []
        (Reads-next_file_num e₁ e.has_next_file_num e.next_file_num seqs w.next_file_num refl refl)
        (Reads-trans e₂ seqs e₃ files e []
          (Reads-last_seq e₂ e.has_last_seq e.last_seq files w.last_seq refl refl)
          (Reads-trans e₃ files e₄ deletes e [] (Reads-adds e₃ e.add_files deletes w.adds)
            read_deletes)))

-- An edit decodes from its encoding: one whose numbers fit a word, whose absent counters are zero,
-- whose files are at existing levels and have bounds that hold an internal key's trailer.
pub decode_edit-encode : (e : VersionEdit) → IsEdit e → decode_edit (encode e []) ≡ some e
unfolding decode_edit Reads
decode_edit-encode e w =
    let (left, h, p) = Reads-encode e w (length (encode e [])) (omega arith) in
    p ∙ (unfold decode_fields in refl)
