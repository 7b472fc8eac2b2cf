-- ===== src/Manifest/VersionSet/Durable.antt =====
-- internal/manifest/version_set.go
-- An edit that Apply takes is durable: the log gives the state of the version set back.
use basalt.Prelude.{
  ℕ, ◌+◌, ◌≡◌, refl, subst, ap, ◌∙◌, some, [], ◌++◌, arith, leb, Bytes, length, add64, Bool-cases,
  Option-cases, inl, inr,
}
use basalt.Wal.Record.{append_record, go_on}
use basalt.Wal.Segments.Restart.{Torn}
use basalt.Manifest.Edit.{VersionEdit, set_log_number, set_next_file_num, set_last_seq, encode}
use basalt.Manifest.Edit.Fields.{IsEdit}
use basalt.Manifest.Version.Steps.{EditResult-cases}
use basalt.Manifest.Version.{Version, no_version, apply_edit, snapshot, edited}
use basalt.Manifest.Version.WellFormed.{apply_edit-IsVersion}
use basalt.Manifest.Version.Snapshot.{apply_edit-snapshot}
use basalt.Manifest.VersionSet.Stamps.{
  Sound, Stamped, stamp-Stamped, Stamped-apply_edit, set_log_number-IsEdit, set_last_seq-IsEdit,
  set_next_file_num-IsEdit,
}
use basalt.Manifest.VersionSet.Files.{apply_edit-files, snapshot-IsEdit}
use basalt.Manifest.VersionSet.Logged.{
  Logs, replay-Logs, Logs-append, lone_record, replay_edit-encode,
}
use basalt.Manifest.VersionSet.{
  VersionSet, Replayed, fresh, beyond, replay, rotation, rotate, stamp, applied, commit,
  rotate_when_due, log_edit, apply, alloc_file_num,
}

-- The log gives the version back; the sequence number and the next file number may have gone up
-- since the last edit.
pub record Agrees (vs : VersionSet) : Type 0 where
  pub sound : Sound vs
  pub state : Replayed
  pub logs : Logs vs.file state
  pub version_is : state.version ≡ vs.cur

-- The log gives the version, the log number and the last sequence number back.
pub record Durable (vs : VersionSet) : Type 0 where
  pub sound : Sound vs
  pub next : ℕ
  pub logs : Logs vs.file (record {
    version = vs.cur;
    log_number = vs.log_number;
    next_file_num = next;
    last_seq = vs.last_seq;
  })

-- Logging an edit.
commit-Durable :
    (e : VersionEdit) (v : Version) (rec : Bytes) (vs : VersionSet)
    → Agrees vs
    → IsEdit e
    → apply_edit vs.cur e ≡ edited v
    → append_record [] (encode (stamp e vs) []) ≡ some rec
    → Durable (commit (stamp e vs) v rec vs)
unfolding commit
commit-Durable e v rec vs a w h r =
    let st = stamp-Stamped e vs w a.sound in
    let taken : apply_edit a.state.version (stamp e vs) ≡ edited v =
      ap (λ t. apply_edit t (stamp e vs)) a.version_is
      ∙ Stamped-apply_edit vs.cur e (stamp e vs) st
      ∙ h in
    record {
      sound = record {
        is_version = apply_edit-IsVersion vs.cur v e a.sound.is_version h;
        files = apply_edit-files vs.cur v e a.sound.files w.adds h;
        log_word = st.is_edit.log_number.0;
        next_word = a.sound.next_word;
        seq_word = st.is_edit.last_seq.0;
      };
      next = (stamp e vs).next_file_num;
      logs =
          Logs-append vs.file rec (encode (stamp e vs) []) a.state
            (record {
              version = v;
              log_number = (stamp e vs).log_number;
              next_file_num = (stamp e vs).next_file_num;
              last_seq = (stamp e vs).last_seq;
            })
            a.logs r
            (replay_edit-encode a.state (stamp e vs) v st.is_edit taken st.has_log st.has_next
              st.has_seq);
    }

rotation-Stamped : (vs : VersionSet) → Sound vs → Stamped (snapshot vs.cur) (rotation vs)
unfolding rotation set_log_number set_last_seq set_next_file_num snapshot
rotation-Stamped vs s =
    let logged = set_log_number vs.log_number (snapshot vs.cur) in
    let numbered = set_next_file_num (add64 vs.next_file_num 1) logged in
    record {
      is_edit = set_last_seq-IsEdit vs.last_seq numbered s.seq_word (
          set_next_file_num-IsEdit (add64 vs.next_file_num 1) logged (omega arith) (
            set_log_number-IsEdit vs.log_number (snapshot vs.cur) s.log_word
              (snapshot-IsEdit vs.cur s.files)));
      adds = refl;
      deletes = refl;
      has_log = refl;
      has_next = refl;
      has_seq = refl;
    }

abbrev rotated_state : VersionSet → ℕ → ℕ → ℕ → Replayed
rotated_state vs log_number next last_seq = record {
  version = vs.cur;
  log_number = log_number;
  next_file_num = next;
  last_seq = last_seq;
}

-- The counters of the edit of a rotation.
rotation_counters :
    (vs : VersionSet)
    → rotated_state vs (rotation vs).log_number (rotation vs).next_file_num (rotation vs).last_seq
      ≡ rotated_state vs vs.log_number (add64 vs.next_file_num 1) vs.last_seq
unfolding rotation set_log_number set_last_seq set_next_file_num
rotation_counters vs = refl

rotated-Durable :
    (vs : VersionSet) (rec : Bytes)
    → Sound vs
    → append_record [] (encode (rotation vs) []) ≡ some rec
    → Durable (record vs {
      next_file_num = add64 vs.next_file_num 1;
      manifest_num = vs.next_file_num;
      file = rec;
      size = length rec;
      snapshot_size = length rec;
    })
rotated-Durable vs rec s r =
    let st = rotation-Stamped vs s in
    let taken : apply_edit no_version (rotation vs) ≡ edited vs.cur =
      Stamped-apply_edit no_version (snapshot vs.cur) (rotation vs) st
      ∙ apply_edit-snapshot vs.cur s.is_version in
    record {
      sound = record {
        is_version = s.is_version;
        files = s.files;
        log_word = s.log_word;
        next_word = omega arith;
        seq_word = s.seq_word;
      };
      next = add64 vs.next_file_num 1;
      logs =
          lone_record rec (encode (rotation vs) [])
            (record {
              version = vs.cur;
              log_number = vs.log_number;
              next_file_num = add64 vs.next_file_num 1;
              last_seq = vs.last_seq;
            })
            r
            (replay_edit-encode fresh (rotation vs) vs.cur st.is_edit taken st.has_log st.has_next
                st.has_seq
              ∙ ap go_on (rotation_counters vs));
    }

pub rotate-Durable : (vs vs' : VersionSet) → Sound vs → rotate vs ≡ some vs' → Durable vs'
unfolding rotate
rotate-Durable vs vs' s h = elim (Option-cases (append_record [] (encode (rotation vs) []))) [
  | inl panic ↦ absurd (ground (arith, panic, h))
  | inr (rec, r) ↦
      let now : record vs {
        next_file_num = add64 vs.next_file_num 1;
        manifest_num = vs.next_file_num;
        file = rec;
        size = length rec;
        snapshot_size = length rec;
      }
          ≡ vs' =
        ground (arith, r, h) in
      subst Durable now (rotated-Durable vs rec s r)
]

rotate_when_due-Durable :
    (vs vs' : VersionSet) → Durable vs → rotate_when_due vs ≡ applied vs' → Durable vs'
unfolding rotate_when_due
rotate_when_due-Durable vs vs' d h =
    elim (Bool-cases (leb (vs.rotate_size + vs.snapshot_size) vs.size)) [
      | inr early ↦ subst Durable (ground (arith, early, h)) d
      | inl due ↦ elim (Option-cases (rotate vs)) [
        | inl panic ↦ absurd (ground (arith, due, panic, h))
        | inr (turned, e) ↦
            subst Durable (ground (arith, due, e, h)) (rotate-Durable vs turned d.sound e)
      ]
    ]

log_edit-Durable :
    (e : VersionEdit) (vs vs' : VersionSet)
    → Agrees vs
    → IsEdit e
    → log_edit e vs ≡ applied vs'
    → Durable vs'
unfolding log_edit
log_edit-Durable e vs vs' a w h = elim (EditResult-cases (apply_edit vs.cur e)) [
  | inr (inl stops) ↦ absurd (ground (arith, stops, h))
  | inr (inr panic) ↦ absurd (ground (arith, panic, h))
  | inl (v, taken) ↦ elim (Option-cases (append_record [] (encode (stamp e vs) []))) [
    | inl panic ↦ absurd (ground (arith, taken, panic, h))
    | inr (rec, r) ↦
        rotate_when_due-Durable (commit (stamp e vs) v rec vs) vs'
          (commit-Durable e v rec vs a w taken r) (ground (arith, taken, r, h))
  ]
]

pub apply-Durable :
    (e : VersionEdit) (vs vs' : VersionSet)
    → Agrees vs
    → IsEdit e
    → apply e vs ≡ applied vs'
    → Durable vs'
unfolding apply
apply-Durable e vs vs' a w h = log_edit-Durable e vs vs' a w (ground (arith, h))

beyond_keeps :
    (num : ℕ) (s : Replayed)
    → ((beyond num s).version ≡ s.version)
      × ((beyond num s).log_number ≡ s.log_number)
      × ((beyond num s).last_seq ≡ s.last_seq)
unfolding beyond
beyond_keeps num s = (refl, refl, refl)

-- Where the manifest log of a well-formed version set replays to its version, and an edit and the
-- files of the version fit the log's encoding, an Apply of the edit that succeeds is durable: a
-- replay of the file that the set writes to, whatever a crash left of one more record behind it,
-- succeeds with the version, the log number and the last sequence number of the set; it does so
-- whether or not the Apply rotated the log.
pub replay-apply :
    (e : VersionEdit) (vs vs' : VersionSet) (tail : Bytes)
    → Agrees vs
    → IsEdit e
    → apply e vs ≡ applied vs'
    → Torn tail
    → (s : Replayed) × (replay vs'.manifest_num (vs'.file ++ tail) ≡ inr s)
      × (s.version ≡ vs'.cur)
      × (s.log_number ≡ vs'.log_number)
      × (s.last_seq ≡ vs'.last_seq)
replay-apply e vs vs' tail a w h t =
    let d = apply-Durable e vs vs' a w h in
    let s = rotated_state vs' vs'.log_number d.next vs'.last_seq in
    let (a, b, c) = beyond_keeps vs'.manifest_num s in
    (beyond vs'.manifest_num s, replay-Logs vs'.manifest_num vs'.file tail s d.logs t, a, b, c)

-- A set that is durable agrees with its log, also when numbers were allocated and the sequence
-- number was advanced since.
pub Durable-Agrees : (vs : VersionSet) → Durable vs → Agrees vs
Durable-Agrees vs d = record {
  sound = d.sound;
  state = rotated_state vs vs.log_number d.next vs.last_seq;
  logs = d.logs;
  version_is = refl;
}

pub alloc_file_num-Agrees : (vs : VersionSet) → Agrees vs → Agrees (alloc_file_num vs).1
unfolding alloc_file_num
alloc_file_num-Agrees vs a = record {
  sound = record {
    is_version = a.sound.is_version;
    files = a.sound.files;
    log_word = a.sound.log_word;
    next_word = omega arith;
    seq_word = a.sound.seq_word;
  };
  state = a.state;
  logs = a.logs;
  version_is = a.version_is;
}
