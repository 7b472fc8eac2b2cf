-- ===== src/Engine/Writes.antt =====
-- What a write changes for the readers.
use basalt.Prelude.{
  ℕ, suc, ◌+◌, ◌≤◌, ◌≡◌, sym, ap, subst, ◌∙◌, Option, some, List, [], ◌∷◌, arith, if◌then◌else◌,
  Bytes, All, Option-cases, inl, inr, add64, length,
}
use basalt.Keys.{max_seq}
use basalt.Keys.Codec.{decode-append_internal_key}
use basalt.Memtable
use basalt.Memtable.{MemTable, SkipNode, new_table}
use basalt.Memtable.Insert.{All-insert, All-map}
use basalt.Memtable.Added.{add-Added, add-IsTable}
use basalt.Memtable.Visible.{same_bytes, Older, encoded_in_range}
use basalt.Memtable.Latest.{get-add}
use basalt.Wal.Batch.{Op}
use basalt.Engine.{Reply, add_ops, finish}
use basalt.Engine.Settled.{AtMost, Upto}

-- The last op on a key decides what it reads.
unfoldable pub hit_after :
    Bytes → List Op → Option (Option (Bytes × ℕ)) → Option (Option (Bytes × ℕ))
hit_after key [] hit = hit
hit_after key (op ∷ ops) hit =
    hit_after key ops (if same_bytes op.user_key key then some (some (op.value, op.kind)) else hit)

-- The specification of a write: the reply for a key after the ops, from the one before them.
unfoldable pub reply_after : Bytes → List Op → Reply → Reply
reply_after key [] reply = reply
reply_after key (op ∷ ops) reply =
    reply_after key ops (if same_bytes op.user_key key then finish op.value op.kind else reply)

add-Upto :
    (draw : ℕ → ℕ) (u : Bytes) (p k : ℕ) (v : Bytes) (m m' : MemTable)
    → Upto p m
    → Memtable.add draw u (suc p) k v m ≡ some m'
    → Upto (suc p) m' × (suc p ≤ max_seq)
add-Upto draw u p k v m m' w h =
    let a = add-Added draw u (suc p) k v m w.table m' h in
    let n : SkipNode = record { key = a.key; value = v; height = a.height } in
    let older =
      All-map (AtMost p) (AtMost (suc p)) m.nodes (λ n f ik e. omega (arith, f ik e)) w.upto in
    (
      record {
        table = (add-IsTable draw u (suc p) k v m m' w.table h).0;
        upto = subst (All (AtMost (suc p))) (sym a.now) (
            All-insert (AtMost (suc p)) a.front n a.back (subst (All (AtMost (suc p))) a.was older)
              (λ ik e.
                ground (arith, e, decode-append_internal_key [] u (suc p) k a.key a.key_is)));
      },
      (encoded_in_range u (suc p) k a.key a.key_is).0,
    )

all-Older :
    (u : Bytes) (p : ℕ) (nodes : List SkipNode) → All (AtMost p) nodes → All (Older u (suc p)) nodes
all-Older u p nodes w =
    All-map (AtMost p) (Older u (suc p)) nodes (λ n f ik e same. omega (arith, f ik e)) w

module _ (draws : ℕ → ℕ → ℕ) (key : Bytes) (q : ℕ) where
  -- After the ops, a reader that sees them all reads what the last op on its key says.
  pub add_ops-get :
      (p : ℕ) (ops : List Op) (m m' : MemTable)
      → Upto p m
      → p ≤ max_seq
      → add_ops draws (suc p) ops m ≡ some m'
      → p + length ops ≤ q
      → q ≤ max_seq
      → Upto (p + length ops) m'
        × (Memtable.get key q m' ≡ hit_after key ops (Memtable.get key q m))
  unfolding add_ops hit_after
  add_ops-get p [] m m' w l h le in_range =
      let e : p + 0 ≡ p = omega arith in
      let same : m ≡ m' = ground (arith, h) in
      (subst (λ t. Upto (p + 0) t) same (rw e w), ap (Memtable.get key q) (sym same))
  add_ops-get p (op ∷ ops) m m' w l h le in_range =
      elim (Option-cases (Memtable.add (draws (suc p)) op.user_key (suc p) op.kind op.value m)) [
        | inl panic ↦ absurd (ground (arith, panic))
        | inr (mid, e) ↦
            let (w', _) = add-Upto (draws (suc p)) op.user_key p op.kind op.value m mid w e in
            let next : add64 (suc p) 1 ≡ suc (suc p) = omega arith in
            let rest : add_ops draws (suc (suc p)) ops mid ≡ some m' =
              subst (λ t. add_ops draws t ops mid ≡ some m') next (ground (arith, e, h)) in
            let (w'', ih) =
              add_ops-get (suc p) ops mid m' w' (omega arith) rest (omega arith) in_range in
            let sum : suc p + length ops ≡ p + suc (length ops) = omega arith in
            (
              subst (λ t. Upto t m') sum w'',
              ih
                  ∙ ap (hit_after key ops) (
                      ground (
                        arith,
                        get-add (draws (suc p)) op.user_key (suc p) op.kind op.value m mid key q
                            w.table e (all-Older op.user_key p m.nodes w.upto) in_range,
                      )),
            )
      ]

  -- The sequence numbers stay in range, since Add panics on one that is not.
  pub add_ops_in_range :
      (p : ℕ) (ops : List Op) (m m' : MemTable)
      → Upto p m
      → p ≤ max_seq
      → add_ops draws (suc p) ops m ≡ some m'
      → p + length ops ≤ max_seq
  unfolding add_ops
  add_ops_in_range p [] m m' w l h = omega arith
  add_ops_in_range p (op ∷ ops) m m' w l h =
      elim (Option-cases (Memtable.add (draws (suc p)) op.user_key (suc p) op.kind op.value m)) [
        | inl panic ↦ absurd (ground (arith, panic))
        | inr (mid, e) ↦
            let (w', le) = add-Upto (draws (suc p)) op.user_key p op.kind op.value m mid w e in
            let next : add64 (suc p) 1 ≡ suc (suc p) = omega arith in
            let rest : add_ops draws (suc (suc p)) ops mid ≡ some m' =
              subst (λ t. add_ops draws t ops mid ≡ some m') next (ground (arith, e, h)) in
            omega (arith, add_ops_in_range (suc p) ops mid m' w' le rest)
      ]
