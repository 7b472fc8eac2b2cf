-- ===== src/Machine/Applies.antt =====
-- raftsm.go
-- What Apply makes of the engine, for an engine that keeps its promises.
use mathlib.Core.List.{append-nil, append_assoc}
use basalt.Prelude.{
  ℕ, ◌+◌, ◌<◌, ◌≡◌, refl, ap, sym, subst, ◌∙◌, Option, none, some, List, [], ◌%◌, ◌^◌, ◌∷◌, ◌++◌,
  true, false, if◌then◌else◌, arith, Bytes, bytes_compare, length, le_bytes, le_value, take,
  take-le_bytes, drop-le_bytes, length-le_bytes, le_value-le_bytes, length-append, All, Ordering,
  Bool-cases, inl, inr,
}
use basalt.Keys.Before.{bytes_compare-eq}
use basalt.Raft.Types.{Entry}
use basalt.Wal.Batch.{Op}
use basalt.Memtable.Visible.{same_bytes}
use basalt.Engine.{reserved_prefix, has_prefix, Reply, finish, found}
use basalt.Engine.Writes.{reply_after}
use basalt.Machine.{
  reversed, applied_key, session_key, Command, plan_command, command_of, plan, session_op,
  applied_op, StateMachine, done, Applied, apply, recover_applied,
}
use basalt.Machine.Steps.{Took, apply_split}
use basalt.Machine.Interface.{Promises}
use basalt.Machine.Kept.{takes_effect, sessions_after, kept_first, kept, carried, ops_of}

reply_after-append :
    (key : Bytes) (a b : List Op) (reply : Reply)
    → reply_after key (a ++ b) reply ≡ reply_after key b (reply_after key a reply)
unfolding reply_after
reply_after-append key [] b reply = refl
reply_after-append key (op ∷ a) b reply =
    reply_after-append key a b
      (if same_bytes op.user_key key then finish op.value op.kind else reply)

-- An op on another key changes nothing.
reply_after_other :
    (key : Bytes) (op : Op) (reply : Reply)
    → same_bytes op.user_key key ≡ false
    → reply_after key (op ∷ []) reply ≡ reply
unfolding reply_after
reply_after_other key op reply h = ground (arith, h)

has_prefix-append : (p x : Bytes) → has_prefix p (p ++ x) ≡ true
unfolding has_prefix
has_prefix-append [] [] = refl
has_prefix-append [] (y ∷ x) = refl
has_prefix-append (b ∷ p) x = ground (arith, has_prefix-append p x)

ops_of-append : (a b : List Command) → ops_of (a ++ b) ≡ ops_of a ++ ops_of b
unfolding ops_of
ops_of-append [] b = refl
ops_of-append (c ∷ a) b =
    ap (λ t. c.batch.ops ++ t) (ops_of-append a b)
    ∙ sym (append_assoc c.batch.ops (ops_of a) (ops_of b))

-- A key outside of the reserved range is none of the state machine's own.
reserved_other :
    (key x : Bytes)
    → has_prefix reserved_prefix key ≡ false
    → same_bytes (reserved_prefix ++ x) key ≡ false
reserved_other key x h = elim (Bool-cases (same_bytes (reserved_prefix ++ x) key)) [
  | inr other ↦ other
  | inl same ↦
      let equal : bytes_compare (reserved_prefix ++ x) key ≡ Ordering.eq = ground arith in
      let e = bytes_compare-eq (reserved_prefix ++ x) key equal in
      absurd (
        ground
          (arith, h, sym (ap (has_prefix reserved_prefix) e), has_prefix-append reserved_prefix x))
]

abbrev session_name : ℕ → Bytes
session_name client =
    (115 ∷ 101 ∷ 115 ∷ 115 ∷ 105 ∷ 111 ∷ 110 ∷ 47 ∷ []) ++ reversed (le_bytes 8 client) []

module _ (key : Bytes) (free : has_prefix reserved_prefix key ≡ false) where
  applied_op_unseen :
      (ops : List Op) (e : Entry) (reply : Reply)
      → reply_after key (ops ++ (applied_op e ∷ [])) reply ≡ reply_after key ops reply
  unfolding applied_op
  applied_op_unseen ops e reply =
      reply_after-append key ops (applied_op e ∷ []) reply
      ∙ reply_after_other key (applied_op e) (reply_after key ops reply)
          (reserved_other key (97 ∷ 112 ∷ 112 ∷ 108 ∷ 105 ∷ 101 ∷ 100 ∷ []) free)

  session_op_unseen :
      (ops : List Op) (client seq : ℕ) (reply : Reply)
      → reply_after key (ops ++ (session_op client seq ∷ [])) reply ≡ reply_after key ops reply
  unfolding session_op session_key
  session_op_unseen ops client seq reply =
      reply_after-append key ops (session_op client seq ∷ []) reply
      ∙ reply_after_other key (session_op client seq) (reply_after key ops reply)
          (reserved_other key (session_name client) free)

  plan_command-reads :
      (sessions : List (ℕ × ℕ)) (c : Command) (reply : Reply)
      → reply_after key (plan_command sessions c).ops reply
        ≡ reply_after key (ops_of (kept_first sessions (some c))) reply
  unfolding plan_command kept_first takes_effect ops_of
  plan_command-reads sessions c reply =
      ground (arith, session_op_unseen c.batch.ops c.client_id c.seq reply, append-nil c.batch.ops)

  -- What the state machine adds to the ops of a command, no reader outside of its range sees.
  plan-reads :
      (sessions : List (ℕ × ℕ)) (o : Option Command) (e : Entry) (reply : Reply)
      → reply_after key ((plan sessions o).ops ++ (applied_op e ∷ [])) reply
        ≡ reply_after key (ops_of (kept_first sessions o)) reply
  unfolding plan kept_first ops_of
  plan-reads sessions none e reply = applied_op_unseen [] e reply
  plan-reads sessions (some c) e reply =
      applied_op_unseen (plan_command sessions c).ops e reply ∙ plan_command-reads sessions c reply

recover_applied-found :
    (index term : ℕ)
    → index < 2 ^ 64
    → term < 2 ^ 64
    → recover_applied (found (le_bytes 8 index ++ le_bytes 8 term)) ≡ some (index, term)
unfolding recover_applied
recover_applied-found index term a b =
    let word = le_value-le_bytes 8 index a in
    let back = ap (take 8) (sym (append-nil (le_bytes 8 term))) ∙ take-le_bytes 8 term [] in
    let len : length (le_bytes 8 index ++ le_bytes 8 term) ≡ 16 = omega (
      arith,
      length-append (le_bytes 8 index) (le_bytes 8 term),
      length-le_bytes 8 index,
      length-le_bytes 8 term,
    ) in
    let fst = ap le_value (take-le_bytes 8 index (le_bytes 8 term)) ∙ word in
    let snd =
      ap (λ t. le_value (take 8 t)) (drop-le_bytes 8 index (le_bytes 8 term))
      ∙ ap le_value back
      ∙ le_value-le_bytes 8 term b in
    ground (arith, len, fst, snd)

applied_op-read :
    (e : Entry) (reply : Reply)
    → reply_after applied_key (applied_op e ∷ []) reply
      ≡ found (le_bytes 8 e.index ++ le_bytes 8 e.term)
unfolding reply_after applied_op finish bytes_compare
applied_op-read e reply = refl

module _ {ℓ} {D : Type ℓ} {apply_raft : List Op → D → Option D} {read : Bytes → D → Reply}
    {Sound : D → Type ℓ} (promises : Promises apply_raft read Sound) where
  pub apply-kept :
      (key : Bytes) (entries : List Entry) (sm sm' : StateMachine D) (outs : List Applied)
      → has_prefix reserved_prefix key ≡ false
      → Sound sm.db
      → apply apply_raft entries sm ≡ done sm' outs
      → Sound sm'.db
        × (read key sm'.db ≡ reply_after key (ops_of (kept sm.sessions entries)) (read key sm.db))
  unfolding apply kept ops_of reply_after
  apply-kept key [] sm sm' outs free w h =
      let same : sm ≡ sm' = ground (arith, h) in
      (
        subst (λ (t : StateMachine D). Sound t.db) same w,
        ap (λ (t : StateMachine D). read key t.db) (sym same),
      )
  apply-kept key (e ∷ es) sm sm' outs free w h =
      let (mid, out, t, rest, h') = apply_split apply_raft e es sm sm' outs h in
      let o = carried (command_of e) in
      let ops = (plan sm.sessions o).ops ++ (applied_op e ∷ []) in
      let (w', ih) =
        apply-kept key es mid sm' rest free (promises.keeps ops sm.db mid.db w t.db_is) h' in
      let first =
        promises.reads ops sm.db mid.db key w t.db_is
        ∙ plan-reads key free sm.sessions o e (read key sm.db) in
      let later = kept (sessions_after sm.sessions o) es in
      let before = read key sm.db in
      (
        w',
        ih
            ∙ ap (λ t. reply_after key (ops_of (kept t es)) (read key mid.db)) t.sessions_are
            ∙ ap (reply_after key (ops_of later)) first
            ∙ sym (reply_after-append key (ops_of (kept_first sm.sessions o)) (ops_of later) before)
            ∙ ap (λ t. reply_after key t before)
                (sym (ops_of-append (kept_first sm.sessions o) later)),
      )

  pub apply-applied :
      (entries : List Entry) (sm sm' : StateMachine D) (outs : List Applied)
      → sm.applied < 2 ^ 64
      → apply apply_raft entries sm ≡ done sm' outs
      → sm'.applied ≡ (sm.applied + length entries) % 2 ^ 64
  unfolding apply
  apply-applied [] sm sm' outs fits h =
      let same : sm ≡ sm' = ground (arith, h) in
      subst (λ (t : StateMachine D). t.applied ≡ (sm.applied + 0) % 2 ^ 64) same
        (omega (arith, fits))
  apply-applied (e ∷ es) sm sm' outs fits h =
      let (mid, out, t, rest, h') = apply_split apply_raft e es sm sm' outs h in
      let ih = apply-applied es mid sm' rest (omega (arith, t.applied_is, t.index_is)) h' in
      omega (arith, ih, t.applied_is, t.index_is)

  -- The engine's applied record says what the state machine says.
  abbrev pub Recorded : StateMachine D → Type 0
  Recorded sm = recover_applied (read applied_key sm.db) ≡ some (sm.applied, sm.term)

  Took-Recorded :
      (e : Entry) (sm sm' : StateMachine D) (out : List Applied)
      → Sound sm.db
      → e.term < 2 ^ 64
      → Took apply_raft e sm sm' out
      → Recorded sm'
  Took-Recorded e sm sm' out w fits t =
      let ops = (plan sm.sessions (carried (command_of e))).ops in
      let read_is =
        promises.reads (ops ++ (applied_op e ∷ [])) sm.db sm'.db applied_key w t.db_is
        ∙ reply_after-append applied_key ops (applied_op e ∷ []) (read applied_key sm.db)
        ∙ applied_op-read e (reply_after applied_key ops (read applied_key sm.db)) in
      ap recover_applied read_is
      ∙ recover_applied-found e.index e.term (omega (arith, t.index_is)) fits
      ∙ ground (arith, t.applied_is, t.term_is)

  pub apply-Recorded :
      (entries : List Entry) (sm sm' : StateMachine D) (outs : List Applied)
      → Sound sm.db
      → Recorded sm
      → All (λ (e : Entry). e.term < 2 ^ 64) entries
      → apply apply_raft entries sm ≡ done sm' outs
      → Recorded sm'
  unfolding apply
  apply-Recorded [] sm sm' outs w r fits h =
      let same : sm ≡ sm' = ground (arith, h) in subst Recorded same r
  apply-Recorded (e ∷ es) sm sm' outs w r (fit, fits) h =
      let (mid, out, t, rest, h') = apply_split apply_raft e es sm sm' outs h in
      let ops = (plan sm.sessions (carried (command_of e))).ops ++ (applied_op e ∷ []) in
      apply-Recorded es mid sm' rest (promises.keeps ops sm.db mid.db w t.db_is)
        (Took-Recorded e sm mid out w fit t) fits h'
