-- ===== src/Manifest/Version/Steps.antt =====
-- internal/manifest/version.go
-- The steps of applyEdit, where it accepts an edit.
use basalt.Prelude.{
  ◌≡◌, refl, ap, ◌∙◌, Option, none, some, List, arith, Bool, true, false, Option-cases, ◌⊎◌, inl,
  inr,
}
use basalt.Manifest.Edit.{FileMeta, VersionEdit}
use basalt.Manifest.Version.{
  Version, EditResult, edited, refused, crashes, delete_all, add_all, all_in_order, settle,
  settle_edit, apply_edit,
}

-- The steps of an edit that is applied.
pub record Edited (v : Version) (e : VersionEdit) (v' : Version) : Type 0 where
  pub kept : List (List FileMeta)
  pub added : List (List FileMeta)
  pub deletes : delete_all e.delete_files v.files ≡ some kept
  pub adds : add_all e.add_files kept ≡ some added
  pub checks : all_in_order e.add_files ≡ some true
  pub settles : settle added ≡ some v'.files

pub EditResult-cases :
    (r : EditResult) → ((v : Version) × (r ≡ edited v)) ⊎ ((r ≡ refused) ⊎ (r ≡ crashes))
EditResult-cases (edited v) = inl (v, refl)
EditResult-cases refused = inr (inl refl)
EditResult-cases crashes = inr (inr refl)

settle_edit_lem :
    (added : List (List FileMeta)) (v : Version)
    → settle_edit added ≡ edited v
    → settle added ≡ some v.files
unfolding settle_edit
settle_edit_lem added v h = elim (Option-cases (settle added)) [
  | inl stops ↦ absurd (ground (arith, stops, h))
  | inr (settled, e) ↦ let same : settled ≡ v.files = ground (arith, e, h) in e ∙ ap some same
]

-- A check of the bounds that lets the edit pass.
passes :
    (added : List (List FileMeta)) (v : Version) (checked : Option Bool)
    → (elim checked [ none ↦ crashes | some false ↦ refused | some true ↦ settle_edit added ])
      ≡ edited v
    → (checked ≡ some true) × (settle_edit added ≡ edited v)
passes added v none h = absurd (ground (arith, h))
passes added v (some false) h = absurd (ground (arith, h))
passes added v (some true) h = (refl, h)

pub apply_edit-Edited :
    (v v' : Version) (e : VersionEdit) → apply_edit v e ≡ edited v' → Edited v e v'
unfolding apply_edit
apply_edit-Edited v v' e h = elim (Option-cases (delete_all e.delete_files v.files)) [
  | inl stops ↦ absurd (ground (arith, stops, h))
  | inr (kept, e1) ↦ elim (Option-cases (add_all e.add_files kept)) [
    | inl stops ↦ absurd (ground (arith, e1, stops, h))
    | inr (added, e2) ↦
        let (checks, last) =
          passes added v' (all_in_order e.add_files) (ground (arith, e1, e2, h)) in
        record {
          kept = kept;
          added = added;
          deletes = e1;
          adds = e2;
          checks = checks;
          settles = settle_edit_lem added v' last;
        }
  ]
]
