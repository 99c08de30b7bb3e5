-- ===== src/Service/Resequence.antt =====
-- `ResequenceMixin.resequence` of src/core/services/mixins.py: the records of a list of keys are
-- numbered in its order. `Numbering` holds what is django's or another part's: the form of a key, the
-- rows that the access rules on updates and the filters leave, the texts of the errors, what an
-- override of `QuerySet.update` writes beside the number (`stamped`), and what the computed columns
-- of a row are when the `computed_fields` block is left (`refreshed`, of the rows then and of the keys
-- told). A transaction that raises leaves the rows as they were.
pub mod Complete
pub mod Numbered
mod Tests
use totem_backend.Base.{
  ℕ, suc, ◌+◌, Bool, true, false, ◌&&◌, ◌||◌, not, Option, none, some, List, [], ◌∷◌, ◌++◌, ◌==◌,
  any, mem, map, length, if◌then◌else◌,
}
use totem_backend.Base.Repeats.{is_empty, repeated}
use totem_backend.Service.Errors.{message, of_messages, validation_error, MultiError}

pub record SequencedRow : Type 0 where
  pub pk : ℕ
  pub sequence : Option ℕ
  pub content : ℕ

-- The rows, and the keys that the refresh of the computed fields was told of.
pub record SequencedStore : Type 0 where
  pub rows : List SequencedRow
  pub marked : List ℕ

pub record Numbering (M : Type 0) : Type 0 where
  pub to_python : ℕ → Option ℕ
  pub is_updatable : SequencedRow → Bool
  pub stamped : SequencedRow → ℕ
  pub refreshed : List ℕ → List SequencedRow → SequencedRow → ℕ
  pub repeated_message : List ℕ → M
  pub invalid_message : List ℕ → List ℕ → M

pub data Answer (M : Type 0) : Type 0 where
  numbered : ℕ → Answer M
  refused : MultiError M → Answer M

-- The key "ids" of an error.
abbrev pub ids_key : ℕ
ids_key = 1

abbrev pub put_coerced : ℕ → Option ℕ → List ℕ × List ℕ → List ℕ × List ℕ
put_coerced v none (coerced, invalid) = (coerced, v ∷ invalid)
put_coerced v (some pk) (coerced, invalid) = (pk ∷ coerced, invalid)

-- The pk of the row, for a `When` at the place of the list that holds it: `offset + index + 1`.
abbrev pub case_when : ℕ → ℕ → List ℕ → Option ℕ
case_when pk offset [] = none
case_when pk offset (p ∷ pks) = if p == pk then some (suc offset) else case_when pk (suc offset) pks

module _ {M : Type 0} (numbering : Numbering M) where
  open numbering use {
    to_python, is_updatable, stamped, refreshed, repeated_message, invalid_message,
  }

  -- The keys of a list, and its values that are none.
  abbrev pub coerce : List ℕ → List ℕ × List ℕ
  coerce [] = ([], [])
  coerce (v ∷ vs) = put_coerced v (to_python v) (coerce vs)

  -- The queryset holds a row with this key.
  abbrev pub is_found : List SequencedRow → ℕ → Bool
  is_found rows pk = any (λ (r : SequencedRow). is_updatable r && r.pk == pk) rows

  abbrev pub missing_pks : List SequencedRow → List ℕ → List ℕ
  missing_pks rows [] = []
  missing_pks rows (pk ∷ pks) =
      let rest = missing_pks rows pks in if is_found rows pk then rest else pk ∷ rest

  abbrev pub number_row : List ℕ → ℕ → SequencedRow → SequencedRow
  number_row pks offset r =
      if is_updatable r && mem r.pk pks
      then record r { sequence = case_when r.pk offset pks; content = stamped r }
      else r

  abbrev pub number_rows : List ℕ → ℕ → List SequencedRow → List SequencedRow
  number_rows pks offset [] = []
  number_rows pks offset (r ∷ rows) = number_row pks offset r ∷ number_rows pks offset rows

  -- The exit of the refresh context: computed columns of any row may be recomputed.
  abbrev pub refresh_rows : List ℕ → List SequencedRow → List SequencedRow → List SequencedRow
  refresh_rows pks all [] = []
  refresh_rows pks all (r ∷ rows) =
      record r { content = refreshed pks all r } ∷ refresh_rows pks all rows

  abbrev pub ids_error : M → MultiError M
  ids_error m = record {
    errors = (ids_key, validation_error (of_messages (message m) (some ids_key))) ∷ [];
    code = some 1;
  }

  -- `_resequence`
  abbrev pub resequence_found : List ℕ → List ℕ → ℕ → SequencedStore → Answer M × SequencedStore
  resequence_found pks invalid offset store =
      let missing = missing_pks store.rows pks in
      let numbers = number_rows pks offset store.rows in
      if is_empty (invalid ++ missing)
      then (
        numbered (length pks),
        record { rows = refresh_rows pks numbers numbers; marked = store.marked ++ pks },
      )
      else (refused (ids_error (invalid_message invalid missing)), store)

  abbrev pub resequence_coerced : List ℕ × List ℕ → ℕ → SequencedStore → Answer M × SequencedStore
  resequence_coerced (coerced, invalid) offset store =
      if is_empty (repeated ◌==◌ coerced)
      then resequence_found coerced invalid offset store
      else (refused (ids_error (repeated_message (repeated ◌==◌ coerced))), store)

  -- `resequence`
  unfoldable pub resequence : List ℕ → ℕ → SequencedStore → Answer M × SequencedStore
  resequence [] offset store = (numbered 0, store)
  resequence (v ∷ vs) offset store = resequence_coerced (coerce (v ∷ vs)) offset store
