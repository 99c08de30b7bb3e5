-- ===== src/Service/Update/Updated.antt =====
-- What an update answers, and the links that it leaves.
use totem_backend.Base.{
  ℕ, ◌≡◌, refl, true, false, List, [], ◌∷◌, ◌==◌, length, Bool-cases, inl, inr, ◌∙◌, sym, subst,
}
use totem_backend.Base.Repeats.{has, distinct, is_empty}
use totem_backend.Service.Errors.{is_error}
use totem_backend.Service.Relations.{InternalItem}
use totem_backend.Service.Links.Kept.{IsThrough}
use totem_backend.Service.Creation.{written, record_pks}
use totem_backend.Service.Update.{
  UpdateBackend, updated, update_invalid_data, field_names, validate_rows, relations_of, columns_of,
  told_before, update,
}
use totem_backend.Service.Update.Relinks.{
  IsApart, IsRelinked, CanRelink, CanRelink-after, AreRelinked, relink_all-AreRelinked,
  AreRelinked-before,
}

module _ {M : Type 0} (backend : UpdateBackend M) (apart : IsApart backend) where
  open backend use {Tables, selected, update_columns, through, tell_modified, moves_rows}

  through-told_before :
      (pks fields : List ℕ) (tables : Tables) (j : ℕ)
      → through j (told_before backend pks fields tables) ≡ through j tables
  through-told_before pks fields tables j = elim (Bool-cases (moves_rows fields)) [
    | inl e ↦ rw (e) (apart.context_apart pks fields true tables j)
    | inr e ↦ rw (e) refl
  ]

  AreRelinked-after :
      (pks : List ℕ) (values : InternalItem) (before after after' : Tables)
      → ((j : ℕ) → through j after' ≡ through j after)
      → AreRelinked backend apart pks values before after
      → AreRelinked backend apart pks values before after'
  AreRelinked-after pks [] before after after' same r = tt
  AreRelinked-after pks ((k, v) ∷ values) before after after' same (r, rest) = (
    subst (λ t. IsRelinked pks v (through k before) t) (sym (same k)) r,
    AreRelinked-after pks values before after after' same rest,
  )

  -- An update of some rows, each selected once, whose values pass the validation on each and whose
  -- columns the database writes, counts the rows selected; then each of them is linked, in each
  -- many-to-many given, exactly to the rows of its value, and no other link of that relation nor any
  -- link of another relation changes. Each table of links is its own and holds no link twice, the
  -- values hold a row once, and of the links to be there none forbids another by a constraint.
  pub update-AreRelinked :
      (values : InternalItem) (tables written_tables : Tables)
      → distinct ◌==◌ (record_pks (selected tables)) ≡ true
      → is_empty (record_pks (selected tables)) ≡ false
      → is_error
          (validate_rows backend values
            (selected tables)
            record { errors = []; code = update_invalid_data }).errors
        ≡ false
      → update_columns
          (columns_of backend values)
          (told_before backend (record_pks (selected tables)) (field_names values) tables)
        ≡ written written_tables
      → CanRelink backend apart (record_pks (selected tables)) (relations_of backend values) tables
      → ((k : ℕ) → IsThrough (through k tables))
      → (after : Tables) × (update backend values tables
          ≡ (updated (length (record_pks (selected tables))), after))
        × AreRelinked backend apart
            (record_pks (selected tables))
            (relations_of backend values)
            tables
            after
        × ((j : ℕ)
            → has ◌==◌ j (field_names (relations_of backend values)) ≡ false
            → through j after ≡ through j tables)
  unfolding update
  update-AreRelinked values tables written_tables d some_rows valid wrote can table =
      let pks = record_pks (selected tables) in
      let told = told_before backend pks (field_names values) tables in
      let unchanged : (j : ℕ) → through j written_tables ≡ through j tables = λ j.
        apart.columns_apart (columns_of backend values) told written_tables j wrote
        ∙ through-told_before pks (field_names values) tables j in
      let (after, run, relinked, same) =
        relink_all-AreRelinked backend apart pks (relations_of backend values) written_tables d
          (CanRelink-after backend apart pks (relations_of backend values) tables written_tables
            (λ j h. sym (unchanged j)) can)
          (λ k. subst IsThrough (sym (unchanged k)) (table k)) in
      let last = tell_modified pks (field_names values) false after in
      let context : (j : ℕ) → through j last ≡ through j after =
        λ j. apart.context_apart pks (field_names values) false after j in
      (
        last,
        rw (valid) (rw (some_rows) (rw (wrote) (rw (run) refl))),
        AreRelinked-after pks (relations_of backend values) tables after last context (
            AreRelinked-before backend apart pks (relations_of backend values) tables written_tables
              after (λ j h. unchanged j) relinked),
        λ j h. context j ∙ same j h ∙ unchanged j,
      )
