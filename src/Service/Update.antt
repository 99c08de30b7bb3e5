-- ===== src/Service/Update.antt =====
-- `UpdateMixin._update` and `_update_atomic` of src/core/services/mixins.py. The tables are those of an
-- `UpdateBackend`, with the links of each many-to-many and what the refresh of the computed fields was
-- told: how the database updates columns is its own. The hooks before and after are empty.
pub mod Relinks
pub mod Updated
mod Tests
use totem_backend.Base.{
  ℕ, Bool, true, false, not, Option, none, some, List, [], ◌∷◌, filter, length, mem, if◌then◌else◌,
}
use totem_backend.Base.Repeats.{is_empty}
use totem_backend.Service.Errors.{MessageDict, add_error, is_error, MultiError}
use totem_backend.Service.Relations.{Record, Internal, InternalItem}
use totem_backend.Service.Links.{Through, relink}
use totem_backend.Service.Creation.{DatabaseError, Written, written, failed, record_pks, linked_pks}

-- `conflicts` are the constraints of the links of a field, `tell_modified` (`computed.modified`) is told the rows, the fields, and whether it is before the write.
pub record UpdateBackend (M : Type 0) : Type 1 where
  pub Tables : Type 0
  pub selected : Tables → List Record
  pub update_columns : InternalItem → Tables → Written M Tables
  pub through : ℕ → Tables → Through
  pub conflicts : ℕ → ℕ × ℕ → ℕ × ℕ → Bool
  pub set_through : ℕ → Through → Tables → Tables
  pub tell_modified : List ℕ → List ℕ → Bool → Tables → Tables
  pub moves_rows : List ℕ → Bool
  pub many_to_many_fields : List ℕ
  pub validate_data : InternalItem → Record → Option (MessageDict M)
  pub integrity_failure : DatabaseError M
  pub error_of : DatabaseError M → MultiError M

-- The code "update_invalid_data".
abbrev pub update_invalid_data : Option ℕ
update_invalid_data = some 5

pub data Update (M : Type 0) : Type 0 where
  updated : ℕ → Update M
  update_refused : MultiError M → Update M

abbrev pub field_names : InternalItem → List ℕ
field_names [] = []
field_names ((k, v) ∷ values) = k ∷ field_names values

module _ {M : Type 0} (backend : UpdateBackend M) where
  open backend use {
    Tables, selected, update_columns, through, conflicts, set_through, tell_modified, moves_rows,
    many_to_many_fields, validate_data, integrity_failure, error_of,
  }

  abbrev add_row_error : ℕ → Option (MessageDict M) → MultiError M → MultiError M
  add_row_error pk none error = error
  add_row_error pk (some e) error = add_error pk e error

  -- The validation of the values on each row.
  abbrev pub validate_rows : InternalItem → List Record → MultiError M → MultiError M
  validate_rows values [] error = error
  validate_rows values (r ∷ rs) error =
      validate_rows values rs (add_row_error r.pk (validate_data values r) error)

  abbrev relinked_with :
      Option Through → ℕ → Tables → (Tables → Written M Tables) → Written M Tables
  relinked_with none k tables next = failed integrity_failure
  relinked_with (some links) k tables next = next (set_through k links tables)

  -- The links of all the many-to-many fields.
  abbrev pub relink_all : List ℕ → InternalItem → Tables → Written M Tables
  relink_all pks [] tables = written tables
  relink_all pks ((k, v) ∷ values) tables =
      relinked_with (relink (conflicts k) pks (linked_pks v) (through k tables)) k tables
        (λ t. relink_all pks values t)

  abbrev pub updated_links : List ℕ → List ℕ → Written M Tables → Tables → Update M × Tables
  updated_links pks fields (failed e) before = (update_refused (error_of e), before)
  updated_links pks fields (written tables) before =
      (updated (length pks), tell_modified pks fields false tables)

  abbrev pub relations_of : InternalItem → InternalItem
  relations_of values = filter (λ (v : ℕ × Internal). mem v.0 many_to_many_fields) values

  abbrev pub columns_of : InternalItem → InternalItem
  columns_of values = filter (λ (v : ℕ × Internal). not (mem v.0 many_to_many_fields)) values

  abbrev pub updated_columns : List ℕ → InternalItem → Written M Tables → Tables → Update M × Tables
  updated_columns pks values (failed e) before = (update_refused (error_of e), before)
  updated_columns pks values (written tables) before =
      updated_links pks (field_names values) (relink_all pks (relations_of values) tables) before

  -- What the context is told before the write.
  abbrev pub told_before : List ℕ → List ℕ → Tables → Tables
  told_before pks fields tables =
      if moves_rows fields then tell_modified pks fields true tables else tables

  abbrev pub update_valid : List ℕ → InternalItem → Tables → Update M × Tables
  update_valid pks values tables =
      if is_empty pks
      then (updated 0, tables)
      else updated_columns pks values
          (update_columns (columns_of values) (told_before pks (field_names values) tables)) tables

  -- `_update` and `_update_atomic`: what raises leaves the tables as they were.
  unfoldable pub update : InternalItem → Tables → Update M × Tables
  update values tables =
      let error =
        validate_rows values (selected tables) record { errors = []; code = update_invalid_data } in
      if is_error error.errors
      then (update_refused error, tables)
      else update_valid (record_pks (selected tables)) values tables
