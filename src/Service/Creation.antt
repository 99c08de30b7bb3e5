-- ===== src/Service/Creation.antt =====
-- `CreateMixin._create` and `_create_atomic` of src/core/services/mixins.py, with
-- `_database_error_to_validation_error` of src/core/services/base.py. The tables are those of a
-- `TableBackend`: how it inserts rows and links is the database's. A service says what it validates, and
-- which rows its access rules let the user create. The hook that runs after a creation is empty; what the
-- refresh of the computed fields is told, once the links are there, is not among the tables.
pub mod Scoped
mod Tests
use totem_backend.Base.{
  ℕ, suc, Bool, true, false, ◌&&◌, ◌||◌, not, Option, none, some, List, [], ◌∷◌, ◌++◌, ◌==◌, filter,
  length, mem, map, any, if◌then◌else◌,
}
use totem_backend.Base.Text.{Text, text_eq}
use totem_backend.Service.Errors.{
  MessageDict, Messages, message, messages, non_field_errors, of_messages, add_error, is_error,
  validation_error, MultiError,
}
use totem_backend.Service.Relations.{Record, Internal, plain, related, related_list, InternalItem}

-- An error of the database: a protected relation, or a text.
pub data DatabaseError (M : Type 0) : Type 0 where
  protected : M → DatabaseError M
  other_error : Text → DatabaseError M

pub record Constraint (M : Type 0) : Type 0 where
  pub name : Text
  pub violation_error_message : Option M

abbrev pub starts_with : Text → Text → Bool
starts_with [] s = true
starts_with (c ∷ t) [] = false
starts_with (c ∷ t) (d ∷ s) = c == d && starts_with t s

-- `t in s`
abbrev pub is_in : Text → Text → Bool
is_in t [] = starts_with t []
is_in t (c ∷ s) = starts_with t (c ∷ s) || is_in t s

abbrev or_later : {A : Type 0} → Option A → Option A → Option A
or_later none o = o
or_later (some m) o = some m

-- The message of the first constraint that the text names, among those that have one.
abbrev pub violation_message : {M : Type 0} → List (Constraint M) → Text → Option M
violation_message [] text = none
violation_message (c ∷ constraints) text =
    let rest = violation_message constraints text in
    if is_in c.name text then or_later c.violation_error_message rest else rest

-- The result of a write.
pub data Written (M R : Type 0) : Type 0 where
  written : R → Written M R
  failed : DatabaseError M → Written M R

pub record TableBackend (M : Type 0) : Type 1 where
  pub Tables : Type 0
  pub rows : Tables → List Record
  pub insert_rows : List InternalItem → Tables → Written M (List ℕ × Tables)
  pub add_links : ℕ → ℕ → List ℕ → Tables → Written M Tables

-- What a service declares, and the texts of its errors.
pub record Service (M : Type 0) (database : TableBackend M) : Type 0 where
  pub many_to_many_fields : List ℕ
  pub validate_data : InternalItem → Option (MessageDict M)
  pub may_create : database.Tables → Record → Bool
  pub constraints : List (Constraint M)
  pub global_error : Text → M

-- Code "creation_invalid_data", "protected_error", "integrity_error".
abbrev pub creation_invalid_data : Option ℕ
creation_invalid_data = some 2

abbrev pub protected_error_code : Option ℕ
protected_error_code = some 3

abbrev pub integrity_error_code : Option ℕ
integrity_error_code = some 4

pub data Creation (M : Type 0) : Type 0 where
  created_records : List ℕ → Creation M
  refused : MultiError M → Creation M
  permission_denied : Creation M

abbrev pub record_pks : List Record → List ℕ
record_pks [] = []
record_pks (r ∷ rs) = r.pk ∷ record_pks rs

-- The rows of a value, as those to link to.
abbrev pub linked_pks : Internal → List ℕ
linked_pks (plain v) = []
linked_pks (related o) = []
linked_pks (related_list rs) = record_pks rs

module _ {M : Type 0} (database : TableBackend M) (service : Service M database) where
  open database use {Tables, rows, insert_rows, add_links}
  open service use {many_to_many_fields, validate_data, may_create, constraints, global_error}

  abbrev general_error : Option ℕ → Messages M → MultiError M
  general_error code ms = record {
    errors = (non_field_errors, validation_error (of_messages ms none)) ∷ [];
    code = code;
  }

  abbrev or_global : Text → Option M → M
  or_global text none = global_error text
  or_global text (some m) = m

  -- `_database_error_to_validation_error`
  unfoldable pub validation_error_of : DatabaseError M → MultiError M
  validation_error_of (protected m) = general_error protected_error_code (message m)
  validation_error_of (other_error text) =
      general_error integrity_error_code
        (messages (or_global text (violation_message constraints text) ∷ []))

  abbrev pub add_refusal : ℕ → Option (MessageDict M) → MultiError M → MultiError M
  add_refusal index none error = error
  add_refusal index (some e) error = add_error index e error

  -- The validation of all the records.
  abbrev pub validate_all : ℕ → List InternalItem → MultiError M → MultiError M
  validate_all index [] error = error
  validate_all index (item ∷ items) error =
      validate_all (suc index) items (add_refusal index (validate_data item) error)

  abbrev pub column_values : InternalItem → InternalItem
  column_values item = filter (λ (v : ℕ × Internal). not (mem v.0 many_to_many_fields)) item

  abbrev pub many_to_many_values : InternalItem → InternalItem
  many_to_many_values item = filter (λ (v : ℕ × Internal). mem v.0 many_to_many_fields) item

  -- `scoped_queryset.filter(pk__in=…).count()`
  abbrev pub count_in_scope : Tables → List ℕ → ℕ
  count_in_scope tables pks =
      length (filter (λ (r : Record). may_create tables r && mem r.pk pks) (rows tables))

  abbrev then_write : Written M Tables → (Tables → Written M Tables) → Written M Tables
  then_write (failed e) next = failed e
  then_write (written tables) next = next tables

  -- Nothing is written for an empty value.
  abbrev save_field : ℕ → ℕ → List ℕ → Tables → Written M Tables
  save_field pk k [] tables = written tables
  save_field pk k (d ∷ ds) tables = add_links k pk (d ∷ ds) tables

  -- The links of an instance.
  abbrev pub save_values : ℕ → InternalItem → Tables → Written M Tables
  save_values pk [] tables = written tables
  save_values pk ((k, v) ∷ item) tables =
      then_write (save_field pk k (linked_pks v) tables) (λ t. save_values pk item t)

  -- The links of all the instances.
  abbrev pub save_all : List ℕ → List InternalItem → Tables → Written M Tables
  save_all [] items tables = written tables
  save_all (pk ∷ pks) [] tables = written tables
  save_all (pk ∷ pks) (item ∷ items) tables =
      then_write (save_values pk (many_to_many_values item) tables) (λ t. save_all pks items t)

  abbrev pub finish : List ℕ → Written M Tables → Tables → Creation M × Tables
  finish pks (failed e) before = (refused (validation_error_of e), before)
  finish pks (written tables) before = (created_records pks, tables)

  abbrev pub create_inserted :
      List InternalItem → Written M (List ℕ × Tables) → Tables → Creation M × Tables
  create_inserted items (failed e) before = (refused (validation_error_of e), before)
  create_inserted items (written (pks, tables)) before =
      if count_in_scope tables pks == length pks
      then finish pks (save_all pks items tables) before
      else (permission_denied, before)

  abbrev pub create_validated : MultiError M → List InternalItem → Tables → Creation M × Tables
  create_validated error items tables =
      if is_error error.errors
      then (refused error, tables)
      else create_inserted items (insert_rows (map column_values items) tables) tables

  -- `_create` and `_create_atomic`: what raises leaves the tables as they were.
  unfoldable pub create : List InternalItem → Tables → Creation M × Tables
  create items tables =
      create_validated (validate_all 0 items record { errors = []; code = creation_invalid_data })
        items tables
