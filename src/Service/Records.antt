-- ===== src/Service/Records.antt =====
-- Reading the records of a related model: `display_name` and `resolve_relation_records` of
-- src/core/services/base.py, and `_group_by_resolve_relations` of src/core/services/group_by.py, over
-- the `Backend` of `Service.Relations`. A record is loaded whole: which of its columns are is not
-- read. A dict of records is the list of the records: its keys are theirs.
pub mod Found
pub mod Rendered
mod Tests
use totem_backend.Base.{
  ℕ, Bool, true, false, ◌&&◌, ◌||◌, not, Option, none, some, List, [], ◌∷◌, ◌++◌, ◌==◌, find?, mem,
  if◌then◌else◌,
}
use totem_backend.Base.Text.{Text, text_eq}
use totem_backend.Service.Relations.{Record, Backend, browse}

-- `wanted`: the keys that are given, each once, in their order of appearance.
abbrev pub keys_once : List ℕ → List (Option ℕ) → List ℕ
keys_once seen [] = []
keys_once seen (none ∷ pks) = keys_once seen pks
keys_once seen (some pk ∷ pks) =
    let rest = keys_once seen pks in
    let more = pk ∷ keys_once (pk ∷ seen) pks in if mem pk seen then rest else more

-- `{record.pk: record for record in records}`, as it is read.
abbrev pub record_at : ℕ → List Record → Option Record
record_at pk records = find? (λ (r : Record). r.pk == pk) records

-- A value of a row of groups: null, a key or a number, a record.
pub data Cell : Type 0 where
  empty_cell : Cell
  bare : ℕ → Cell
  rendered_record : Record → Cell

abbrev pub Group : Type 0
Group = List (Text × Cell)

abbrev pub cell_at : Text → Group → Cell
cell_at name [] = empty_cell
cell_at name ((n, c) ∷ group) = if text_eq n name then c else cell_at name group

abbrev pub key_of : Cell → Option ℕ
key_of empty_cell = none
key_of (bare pk) = some pk
key_of (rendered_record r) = none

abbrev pub keys_at : Text → List Group → List (Option ℕ)
keys_at name [] = []
keys_at name (group ∷ groups) = key_of (cell_at name group) ∷ keys_at name groups

abbrev pub or_bare : ℕ → Option Record → Cell
or_bare pk none = bare pk
or_bare pk (some r) = rendered_record r

-- `by_pk.get(row[name], row[name])`, of a value that is not null.
abbrev pub render_cell : List Record → Cell → Cell
render_cell records empty_cell = empty_cell
render_cell records (bare pk) = or_bare pk (record_at pk records)
render_cell records (rendered_record r) = rendered_record r

abbrev pub render_at : Text → List Record → Group → Group
render_at name records [] = []
render_at name records ((n, c) ∷ group) =
    let rest = render_at name records group in
    if text_eq n name then (n, render_cell records c) ∷ group else (n, c) ∷ rest

abbrev pub render_groups : Text → List Record → List Group → List Group
render_groups name records [] = []
render_groups name records (group ∷ groups) =
    render_at name records group ∷ render_groups name records groups

-- A dimension on a relation, and the lookups to load, if the client names some.
pub record RelationDimension : Type 0 where
  pub name : Text
  pub related_model : Option ℕ
  pub lookups : Option (List Text)

abbrev pub asks_none : Option (List Text) → Bool
asks_none none = false
asks_none (some []) = true
asks_none (some (l ∷ ls)) = false

module _ {M : Type 0} (backend : Backend M) where
  open backend use {to_python}

  abbrev pub coerce_once : ℕ → List ℕ → List ℕ → List ℕ
  coerce_once model seen [] = []
  coerce_once model seen (v ∷ vs) = elim (to_python model v) [
    | none ↦ coerce_once model seen vs
    | some pk ↦
        if mem pk seen then coerce_once model seen vs else pk ∷ coerce_once model (pk ∷ seen) vs
  ]

  abbrev pub in_order : List ℕ → List Record → List Record
  in_order [] records = []
  in_order (pk ∷ pks) records = elim (record_at pk records) [
    | none ↦ in_order pks records
    | some r ↦ r ∷ in_order pks records
  ]

  -- `display_name`, without filters.
  unfoldable pub display_name : ℕ → List ℕ → List Record
  display_name model pks =
      let coerced = coerce_once model [] pks in in_order coerced (browse backend model coerced)

  -- `resolve_relation_records`
  unfoldable pub resolve_relation_records : ℕ → List (Option ℕ) → Option (List Text) → List Record
  unfolding display_name
  resolve_relation_records model pks none = browse backend model (keys_once [] pks)
  resolve_relation_records model pks (some lookups) = display_name model (keys_once [] pks)

  -- What a dimension does to the groups.
  abbrev pub resolve_dimension : RelationDimension → Option ℕ → List Group → List Group
  resolve_dimension d none groups = groups
  resolve_dimension d (some model) groups =
      if asks_none d.lookups
      then groups
      else render_groups d.name (resolve_relation_records model (keys_at d.name groups) d.lookups)
          groups

  -- `_group_by_resolve_relations`
  unfoldable pub resolve_relations : List RelationDimension → List Group → List Group
  resolve_relations [] groups = groups
  resolve_relations (d ∷ ds) groups =
      resolve_relations ds (resolve_dimension d d.related_model groups)
