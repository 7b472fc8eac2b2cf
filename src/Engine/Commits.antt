-- ===== src/Engine/Commits.antt =====
-- Publishing ops, and write as a whole.
use basalt.Prelude.{
  ℕ, suc, ◌+◌, ◌≡◌, refl, sym, ap, subst, ◌∙◌, Option, none, some, List, [], ◌∷◌, arith, false,
  Bytes, Option-cases, inl, inr, add64, length, Bool-cases,
}
use basalt.Memtable
use basalt.Memtable.{MemTable, SkipNode, new_table, find_ge, descend, advance, answer}
use basalt.Memtable.Visible.{same_bytes}
use basalt.Wal.Batch.{Op}
use basalt.Engine.{
  Db, written, Reply, not_found, read_failed, add_ops, finish, search, get, or_else, publish,
}
use basalt.Engine.Settled.{
  get-settled, IsDb, behind, behind-settled, l0-later, deeper-later, imm-later,
}
use basalt.Engine.Writes.{hit_after, reply_after, add_ops-get, add_ops_in_range}

unfoldable pub reply_of : Option (Option (Bytes × ℕ)) → Reply
reply_of none = read_failed
reply_of (some none) = not_found
reply_of (some (some (v, kind))) = finish v kind

or_else-hit_after :
    (key : Bytes) (ops : List Op) (hit rest : Option (Option (Bytes × ℕ)))
    → reply_of (or_else (hit_after key ops hit) rest)
      ≡ reply_after key ops (reply_of (or_else hit rest))
unfolding hit_after reply_after or_else reply_of
or_else-hit_after key [] hit rest = refl
or_else-hit_after key (op ∷ ops) hit rest = elim (Bool-cases (same_bytes op.user_key key)) [
  | inl same ↦
      ground (arith, same, or_else-hit_after key ops (some (some (op.value, op.kind))) rest)
  | inr other ↦ ground (arith, other, or_else-hit_after key ops hit rest)
]

module _ {ℓ} {T : Type ℓ} (table_get : T → Bytes → ℕ → Option (Option (Bytes × ℕ))) where
  pub get_open :
      (key : Bytes) (db : Db T)
      → db.closed ≡ false
      → get table_get key db
        ≡ reply_of (or_else (Memtable.get key db.seq db.mem) (behind table_get key db.seq db))
  unfolding get search behind reply_of
  get_open key db h = ground (arith, h)

  behind_mem :
      (key : Bytes) (q : ℕ) (db : Db T) (m : MemTable)
      → behind table_get key q (record db { mem = m; seq = q }) ≡ behind table_get key q db
  unfolding behind
  behind_mem key q db m = refl

  pub publish-get :
      (draws : ℕ → ℕ → ℕ) (ops : List Op) (db db' : Db T)
      → IsDb table_get db
      → db.closed ≡ false
      → publish draws ops db ≡ written db'
      → IsDb table_get db'
        × (db'.closed ≡ false)
        × ((key : Bytes) → get table_get key db' ≡ reply_after key ops (get table_get key db))
  unfolding publish
  publish-get draws ops db db' w opened h =
      elim (Option-cases (add_ops draws (add64 db.seq 1) ops db.mem)) [
        | inl panic ↦ absurd (ground (arith, panic))
        | inr (m, e) ↦
            let q = db.seq + length ops in
            let first : add64 db.seq 1 ≡ suc db.seq = omega (arith, w.seq_in) in
            let adds : add_ops draws (suc db.seq) ops db.mem ≡ some m =
              subst (λ t. add_ops draws t ops db.mem ≡ some m) first e in
            let in_range = add_ops_in_range draws [] q db.seq ops db.mem m w.mem w.seq_in adds in
            let last : add64 db.seq (length ops) ≡ q = omega (arith, in_range) in
            let next : Db T = record db { mem = m; seq = q } in
            let same : next ≡ db' = ground (arith, e, h, last) in
            let lemma = λ (key : Bytes).
              add_ops-get draws key q db.seq ops db.mem m w.mem w.seq_in adds (omega arith)
                in_range in
            let moved : (key : Bytes)
                → or_else (Memtable.get key q m) (behind table_get key q next)
                  ≡ or_else (hit_after key ops (Memtable.get key db.seq db.mem))
                      (behind table_get key db.seq db) =
              λ key.
                let rest : behind table_get key q next ≡ behind table_get key db.seq db =
                  behind_mem key q db m
                  ∙ behind-settled table_get key q db w (omega arith) in_range in
                ap (λ t. or_else t (behind table_get key q next))
                  ((lemma key).1
                    ∙ ap (hit_after key ops) (
                        get-settled key db.seq q db.mem (omega arith) in_range w.mem.table
                          w.mem.upto))
                ∙ ap (or_else (hit_after key ops (Memtable.get key db.seq db.mem))) rest in
            let is_next : IsDb table_get next = record {
              mem = (lemma []).0;
              imm = imm-later db.seq q db.imm (omega arith) w.imm;
              l0 = l0-later table_get db.seq q db.l0 (omega arith) in_range w.l0;
              deeper = deeper-later table_get db.seq q db.deeper (omega arith) in_range w.deeper;
              seq_in = in_range;
            } in
            (
              subst (IsDb table_get) same is_next,
              ap (λ (d : Db T). d.closed) (sym same) ∙ opened,
              λ key.
                  ap (get table_get key) (sym same)
                  ∙ get_open key next opened
                  ∙ ap reply_of (moved key)
                  ∙ or_else-hit_after key ops (Memtable.get key db.seq db.mem)
                      (behind table_get key db.seq db)
                  ∙ ap (reply_after key ops) (sym (get_open key db opened)),
            )
      ]
