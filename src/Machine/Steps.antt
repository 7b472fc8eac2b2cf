-- ===== src/Machine/Steps.antt =====
-- raftsm.go
-- The rounds of the loop of Apply.
use basalt.Prelude.{
  ℕ, ◌≡◌, ◌⊎◌, refl, sym, subst, Option, none, some, List, [], ◌∷◌, ◌++◌, true, ◌==◌, arith, add64,
  Option-cases, inl, inr,
}
use basalt.Raft.Types.{Entry}
use basalt.Wal.Batch.{Op}
use basalt.Machine.{
  Command, plan_command, command_of, plan, record_session, applied_op, StateMachine, Outcome, done,
  stopped, ApplyError, Applied, apply_entry, apply,
}
use basalt.Machine.Kept.{sessions_after, carried}

pub Outcome-cases {ℓ} :
    {D : Type ℓ} (o : Outcome D)
    → ((sm : StateMachine D) × (out : List Applied) × (o ≡ done sm out))
      ⊎ ((x : ApplyError) × (sm : StateMachine D) × (o ≡ stopped x sm))
Outcome-cases (done sm out) = inl (sm, out, refl)
Outcome-cases (stopped x sm) = inr (x, sm, refl)

record_session-plan :
    (sessions : List (ℕ × ℕ)) (o : Option Command)
    → record_session (plan sessions o).session sessions ≡ sessions_after sessions o
unfolding plan plan_command record_session sessions_after
record_session-plan sessions none = refl
record_session-plan sessions (some c) = ground arith

module _ {ℓ} {D : Type ℓ} (apply_raft : List Op → D → Option D) where
  -- What one entry does.
  pub record Took (e : Entry) (sm sm' : StateMachine D) (out : List Applied) : Type ℓ where
    pub db_is :
        apply_raft ((plan sm.sessions (carried (command_of e))).ops ++ (applied_op e ∷ [])) sm.db
        ≡ some sm'.db
    pub index_is : e.index ≡ add64 sm.applied 1
    pub applied_is : sm'.applied ≡ e.index
    pub term_is : sm'.term ≡ e.term
    pub sessions_are : sm'.sessions ≡ sessions_after sm.sessions (carried (command_of e))

  pub apply_entry-Took :
      (e : Entry) (sm sm' : StateMachine D) (out : List Applied)
      → apply_entry apply_raft e sm ≡ done sm' out
      → Took e sm sm' out
  unfolding apply_entry
  apply_entry-Took e sm sm' out h = elim (Option-cases (command_of e)) [
    | inl bad ↦ absurd (ground (arith, bad, h))
    | inr (c, good) ↦
        let p = plan sm.sessions c in
        elim (Option-cases (apply_raft (p.ops ++ (applied_op e ∷ [])) sm.db)) [
          | inl fails ↦ absurd (ground (arith, good, fails, h))
          | inr (db, works) ↦
              let now : (e.index == add64 sm.applied 1 ≡ true)
                  × (record {
                    db = db;
                    applied = e.index;
                    term = e.term;
                    sessions = record_session p.session sm.sessions;
                  }
                      ≡ sm') =
                (ground (arith, good, works, h), ground (arith, good, works, h)) in
              subst (λ t. Took e sm t out) now.1
                (record {
                  db_is =
                      subst
                        (λ t.
                          apply_raft ((plan sm.sessions (carried t)).ops ++ (applied_op e ∷ []))
                            sm.db
                          ≡ some db)
                        (sym good) works;
                  index_is = ground (arith, now.0);
                  applied_is = refl;
                  term_is = refl;
                  sessions_are =
                      subst
                        (λ t.
                          record_session p.session sm.sessions
                          ≡ sessions_after sm.sessions (carried t))
                        (sym good) (record_session-plan sm.sessions c);
                })
        ]
  ]

  -- An Apply that succeeds went through its first entry and then the others.
  pub apply_split :
      (e : Entry) (es : List Entry) (sm sm' : StateMachine D) (outs : List Applied)
      → apply apply_raft (e ∷ es) sm ≡ done sm' outs
      → (mid : StateMachine D) × (out : List Applied) × Took e sm mid out
        × (rest : List Applied) × (apply apply_raft es mid ≡ done sm' rest)
  unfolding apply
  apply_split e es sm sm' outs h = elim (Outcome-cases (apply_entry apply_raft e sm)) [
    | inr (x, bad, e1) ↦ absurd (ground (arith, e1, h))
    | inl (mid, out, e1) ↦ elim (Outcome-cases (apply apply_raft es mid)) [
      | inr (x, bad, e2) ↦ absurd (ground (arith, e1, e2, h))
      | inl (last, rest, e2) ↦
          let same : last ≡ sm' = ground (arith, e1, e2, h) in
          (
            mid,
            out,
            apply_entry-Took e sm mid out e1,
            rest,
            subst (λ t. apply apply_raft es mid ≡ done t rest) same e2,
          )
    ]
  ]
