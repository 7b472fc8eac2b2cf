-- ===== src/Manifest/VersionSet/Stamps.antt =====
-- internal/manifest/version_set.go
-- The edits that the version set logs: with all counters.
use basalt.Prelude.{ℕ, ◌≡◌, refl, subst, arith, true, IsU64, Bool-cases, inl, inr}
use basalt.Manifest.Edit.{FileMeta, VersionEdit, set_log_number, set_next_file_num, set_last_seq}
use basalt.Manifest.Edit.Fields.{IsFileMeta, IsEdit}
use basalt.Manifest.Version.{Version, apply_edit}
use basalt.Manifest.Version.Everywhere.{AllAt}
use basalt.Manifest.Version.WellFormed.{IsVersion}
use basalt.Manifest.VersionSet.{VersionSet, stamp}

abbrev pub IsFileAt : ℕ → FileMeta → Type 0
IsFileAt k f = IsFileMeta f

-- A version set that is well formed and whose counters are words.
pub record Sound (vs : VersionSet) : Type 0 where
  pub is_version : IsVersion vs.cur
  pub files : AllAt IsFileAt 0 vs.cur.files
  pub log_word : IsU64 vs.log_number
  pub next_word : IsU64 vs.next_file_num
  pub seq_word : IsU64 vs.last_seq

pub set_log_number-IsEdit :
    (v : ℕ) (e : VersionEdit) → IsU64 v → IsEdit e → IsEdit (set_log_number v e)
unfolding set_log_number
set_log_number-IsEdit v e h w = record {
  log_number = (h, inl refl);
  next_file_num = w.next_file_num;
  last_seq = w.last_seq;
  adds = w.adds;
  deletes = w.deletes;
}

pub set_last_seq-IsEdit : (v : ℕ) (e : VersionEdit) → IsU64 v → IsEdit e → IsEdit (set_last_seq v e)
unfolding set_last_seq
set_last_seq-IsEdit v e h w = record {
  log_number = w.log_number;
  next_file_num = w.next_file_num;
  last_seq = (h, inl refl);
  adds = w.adds;
  deletes = w.deletes;
}

pub set_next_file_num-IsEdit :
    (v : ℕ) (e : VersionEdit) → IsU64 v → IsEdit e → IsEdit (set_next_file_num v e)
unfolding set_next_file_num
set_next_file_num-IsEdit v e h w = record {
  log_number = w.log_number;
  next_file_num = (h, inl refl);
  last_seq = w.last_seq;
  adds = w.adds;
  deletes = w.deletes;
}

-- An edit with all its counters, and the files of another one.
pub record Stamped (e st : VersionEdit) : Type 0 where
  pub is_edit : IsEdit st
  pub adds : st.add_files ≡ e.add_files
  pub deletes : st.delete_files ≡ e.delete_files
  pub has_log : st.has_log_number ≡ true
  pub has_next : st.has_next_file_num ≡ true
  pub has_seq : st.has_last_seq ≡ true

pub Stamped-apply_edit :
    (v : Version) (e st : VersionEdit) → Stamped e st → apply_edit v st ≡ apply_edit v e
unfolding apply_edit
Stamped-apply_edit v e st s = ground (arith, s.adds, s.deletes)

pub stamp-Stamped :
    (e : VersionEdit) (vs : VersionSet) → IsEdit e → Sound vs → Stamped e (stamp e vs)
unfolding stamp set_log_number set_last_seq set_next_file_num
stamp-Stamped e vs w s = elim (Bool-cases e.has_log_number) [
  | inl l ↦ elim (Bool-cases e.has_last_seq) [
    | inl q ↦
        let now : set_next_file_num vs.next_file_num e ≡ stamp e vs = ground (arith, l, q) in
        subst (Stamped e) now (record {
          is_edit = set_next_file_num-IsEdit vs.next_file_num e s.next_word w;
          adds = refl;
          deletes = refl;
          has_log = l;
          has_next = refl;
          has_seq = q;
        })
    | inr q ↦
        let st = set_last_seq vs.last_seq e in
        let now : set_next_file_num vs.next_file_num st ≡ stamp e vs = ground (arith, l, q) in
        subst (Stamped e) now (record {
          is_edit =
              set_next_file_num-IsEdit vs.next_file_num st s.next_word
                (set_last_seq-IsEdit vs.last_seq e s.seq_word w);
          adds = refl;
          deletes = refl;
          has_log = l;
          has_next = refl;
          has_seq = refl;
        })
  ]
  | inr l ↦ elim (Bool-cases e.has_last_seq) [
    | inl q ↦
        let st = set_log_number vs.log_number e in
        let now : set_next_file_num vs.next_file_num st ≡ stamp e vs = ground (arith, l, q) in
        subst (Stamped e) now (record {
          is_edit =
              set_next_file_num-IsEdit vs.next_file_num st s.next_word
                (set_log_number-IsEdit vs.log_number e s.log_word w);
          adds = refl;
          deletes = refl;
          has_log = refl;
          has_next = refl;
          has_seq = q;
        })
    | inr q ↦
        let st = set_last_seq vs.last_seq (set_log_number vs.log_number e) in
        let now : set_next_file_num vs.next_file_num st ≡ stamp e vs = ground (arith, l, q) in
        subst (Stamped e) now (record {
          is_edit = set_next_file_num-IsEdit vs.next_file_num st s.next_word (
              set_last_seq-IsEdit vs.last_seq (set_log_number vs.log_number e) s.seq_word
                (set_log_number-IsEdit vs.log_number e s.log_word w));
          adds = refl;
          deletes = refl;
          has_log = refl;
          has_next = refl;
          has_seq = refl;
        })
  ]
]
