-- ===== src/Service/Relations.antt =====
-- `ServiceBase.to_internal_values` of src/core/services/base.py: the values of an input are checked,
-- and those of its relations become the records that the acting user may read. The validators of a
-- field and the form of a primary key are django's: `Backend` holds them, with the tables and the
-- rows that the access rules on reading leave. The input schemas give a foreign key a single value
-- and a many-to-many a list; each related model has a service. The loops that gather the values of
-- the relations and that convert an item go through the set of its names: `set_order` is the item in
-- the order in which python goes through that set.
pub mod Resolved
pub mod Converted
pub mod Accepted
pub mod Answers
mod Tests
use totem_backend.Base.{
  ℕ, suc, Bool, true, false, ◌&&◌, ◌||◌, not, Option, none, some, List, [], ◌∷◌, ◌++◌, ◌==◌, find?,
  filter, mem, add, union, is_none, if◌then◌else◌,
}
use totem_backend.Service.Errors.{
  Messages, message, MessageDict, of_messages, add_message, is_error, MultiError, add_error,
}

-- A value of the input: null, a scalar, a list of primary keys.
pub data Value : Type 0 where
  null : Value
  scalar : ℕ → Value
  several : List ℕ → Value

-- What a field is: a column, a foreign key, a many-to-many, a relation declared elsewhere.
pub data Kind : Type 0 where
  column foreign_key many_to_many reverse_relation : Kind

-- `attname` is the name of the column: `user_id` for the foreign key `user`, else the name.
pub record Field : Type 0 where
  pub name : ℕ
  pub attname : ℕ
  pub kind : Kind
  pub nullable : Bool
  pub related_model : ℕ

pub record Record : Type 0 where
  pub pk : ℕ
  pub content : ℕ

pub record Backend (M : Type 0) : Type 0 where
  pub fields : List Field
  pub run_validators : ℕ → Value → Option M
  pub validate : ℕ → Value → Option M
  pub null_message : M
  pub invalid_message : ℕ → List ℕ → M
  pub to_python : ℕ → ℕ → Option ℕ
  pub table : ℕ → List Record
  pub readable : ℕ → Record → Bool
  pub set_order : List (ℕ × Value) → List (ℕ × Value)

-- A value after its relation was resolved.
pub data Internal : Type 0 where
  plain : Value → Internal
  related : Option Record → Internal
  related_list : List Record → Internal

abbrev pub Item : Type 0
Item = List (ℕ × Value)

abbrev pub InternalItem : Type 0
InternalItem = List (ℕ × Internal)

pub data InternalOutcome (M : Type 0) : Type 0 where
  internal : List InternalItem → InternalOutcome M
  invalid : MultiError M → InternalOutcome M
  field_does_not_exist : InternalOutcome M

-- The code of both errors: "invalid_data".
abbrev pub invalid_data : Option ℕ
invalid_data = some 1

abbrev is_relation : Kind → Bool
is_relation column = false
is_relation foreign_key = true
is_relation many_to_many = true
is_relation reverse_relation = true

-- `field.concrete and not field.many_to_many`, of a relation.
abbrev has_column : Kind → Bool
has_column column = true
has_column foreign_key = true
has_column many_to_many = false
has_column reverse_relation = false

abbrev is_null : Value → Bool
is_null null = true
is_null (scalar v) = false
is_null (several vs) = false

-- `for v in fval or []`
abbrev pub values_in : Value → List ℕ
values_in null = []
values_in (scalar v) = []
values_in (several vs) = vs

-- What one value of a relation adds to the set that is resolved at once.
abbrev pub relation_values : Kind → Value → List ℕ
relation_values foreign_key (scalar v) = v ∷ []
relation_values foreign_key null = []
relation_values foreign_key (several vs) = []
relation_values many_to_many v = values_in v
relation_values column v = []
relation_values reverse_relation v = []

-- `{value: by_pk[pk] for value, pk in coerced.items() if pk in by_pk}`, as it is read.
abbrev pub Resolution : Type 0
Resolution = List (ℕ × Record)

abbrev pub resolution_at : ℕ → Resolution → Option Record
resolution_at v [] = none
resolution_at v ((w, r) ∷ rest) = if w == v then some r else resolution_at v rest

module _ {M : Type 0} (backend : Backend M) where
  open backend use {
    fields, run_validators, validate, null_message, invalid_message, to_python, table, readable,
    set_order,
  }

  -- `_meta.get_field`: by its name or by that of its column.
  abbrev pub get_field : ℕ → Option Field
  get_field name = find? (λ (f : Field). f.name == name || f.attname == name) fields

  -- `fname in many_to_many_instances`, or in `foreign_key_instances`: the names of the fields only.
  abbrev pub field_by_name : ℕ → Option Field
  field_by_name name = find? (λ (f : Field). f.name == name) fields

  -- The checks of one value: the message of the first that fails.
  abbrev pub clean_value : Field → Value → Option M
  clean_value f v = elim (run_validators f.name v) [
    | some m ↦ some m
    | none ↦
        if is_relation f.kind
        then (if is_null v && has_column f.kind && not f.nullable then some null_message else none)
        else validate f.name v
  ]

  abbrev add_clean : ℕ → Option M → MessageDict M → MessageDict M
  add_clean k none suberror = suberror
  add_clean k (some m) suberror = add_message (message m) (some k) suberror

  -- The checks of an item; `none` is a `FieldDoesNotExist`.
  abbrev pub clean_item : Item → MessageDict M → Option (MessageDict M)
  clean_item [] suberror = some suberror
  clean_item ((k, v) ∷ item) suberror = elim (get_field k) [
    | none ↦ none
    | some f ↦ clean_item item (add_clean k (clean_value f v) suberror)
  ]

  abbrev pub add_if_error : ℕ → MessageDict M → MultiError M → MultiError M
  add_if_error index suberror error =
      if is_error suberror then add_error index suberror error else error

  abbrev pub clean_all : ℕ → List Item → MultiError M → Option (MultiError M)
  clean_all index [] error = some error
  clean_all index (item ∷ items) error = elim (clean_item item []) [
    | none ↦ none
    | some suberror ↦ clean_all (suc index) items (add_if_error index suberror error)
  ]

  -- `browse` of the service of a related model.
  unfoldable pub browse : ℕ → List ℕ → List Record
  browse model pks = filter (λ (r : Record). readable model r && mem r.pk pks) (table model)

  abbrev pub coerced_pks : ℕ → List ℕ → List ℕ
  coerced_pks model [] = []
  coerced_pks model (v ∷ vs) = elim (to_python model v) [
    | none ↦ coerced_pks model vs
    | some pk ↦ pk ∷ coerced_pks model vs
  ]

  abbrev pub found_among : ℕ → List Record → ℕ → Option Record
  found_among model instances v = elim (to_python model v) [
    | none ↦ none
    | some pk ↦ find? (λ (r : Record). r.pk == pk) instances
  ]

  abbrev pub resolution_from : ℕ → List Record → List ℕ → Resolution
  resolution_from model instances [] = []
  resolution_from model instances (v ∷ vs) = elim (found_among model instances v) [
    | none ↦ resolution_from model instances vs
    | some r ↦ (v, r) ∷ resolution_from model instances vs
  ]

  -- `_resolve_relation`: one query for all the values.
  unfoldable pub resolve_relation : ℕ → List ℕ → Resolution
  unfolding browse
  resolve_relation model values =
      resolution_from model (browse model (coerced_pks model values)) values

  abbrev pub item_values : Field → Item → List ℕ
  item_values f [] = []
  item_values f ((k, v) ∷ item) =
      if k == f.name
      then union (relation_values f.kind v) (item_values f item)
      else item_values f item

  -- All the values that the items have for a relation.
  abbrev pub gathered_values : Field → List Item → List ℕ
  gathered_values f [] = []
  gathered_values f (item ∷ items) = union (item_values f item) (gathered_values f items)

  abbrev pub add_value : ℕ → Option Record → List Record × List ℕ → List Record × List ℕ
  add_value v none (valid_values, invalid_values) = (valid_values, v ∷ invalid_values)
  add_value v (some r) (valid_values, invalid_values) = (r ∷ valid_values, invalid_values)

  -- The records and the values that none was found for.
  abbrev pub split_values : (ℕ → Option Record) → List ℕ → List Record × List ℕ
  split_values look [] = ([], [])
  split_values look (v ∷ vs) = add_value v (look v) (split_values look vs)

  -- `RelationNotFound(…, key=fname)`
  abbrev not_found : ℕ → List ℕ → MessageDict M
  not_found k vs = of_messages (message (invalid_message k vs)) (some k)

  abbrev convert_list : ℕ → List Record × List ℕ → Option Internal × MessageDict M
  convert_list k (valid_values, []) = (some (related_list valid_values), [])
  convert_list k (valid_values, v ∷ vs) = (some (related_list valid_values), not_found k (v ∷ vs))

  abbrev convert_found : ℕ → ℕ → Option Record → Option Internal × MessageDict M
  convert_found k v none = (none, not_found k (v ∷ []))
  convert_found k v (some r) = (some (related (some r)), [])

  abbrev pub convert_key : (ℕ → Option Record) → ℕ → Value → Option Internal × MessageDict M
  convert_key look k null = (some (related none), [])
  convert_key look k (scalar v) = convert_found k v (look v)
  convert_key look k (several vs) = (none, not_found k vs)

  abbrev pub convert_kind : (ℕ → Option Record) → Kind → ℕ → Value → Option Internal × MessageDict M
  convert_kind look many_to_many k v = convert_list k (split_values look (values_in v))
  convert_kind look foreign_key k v = convert_key look k v
  convert_kind look column k v = (some (plain v), [])
  convert_kind look reverse_relation k v = (some (plain v), [])

  -- How the values of a field are looked up.
  abbrev pub Look : Type 0
  Look = Field → ℕ → Option Record

  -- Among those that all the items were resolved to.
  abbrev pub look_in : List Item → Look
  look_in items f v = resolution_at v (resolve_relation f.related_model (gathered_values f items))

  -- What a field of an item becomes, if anything, and what is wrong with it.
  abbrev pub convert_field : Look → ℕ → Value → Option Internal × MessageDict M
  convert_field look k v = elim (field_by_name k) [
    | none ↦ (some (plain v), [])
    | some f ↦ convert_kind (look f) f.kind k v
  ]

  abbrev pub put_value : ℕ → Option Internal → InternalItem → InternalItem
  put_value k none values = values
  put_value k (some v) values = (k, v) ∷ values

  abbrev pub convert_item : Look → Item → InternalItem
  convert_item look [] = []
  convert_item look ((k, v) ∷ item) =
      put_value k (convert_field look k v).0 (convert_item look item)

  abbrev pub add_refusals : Look → ℕ → Item → MultiError M → MultiError M
  add_refusals look index [] error = error
  add_refusals look index ((k, v) ∷ item) error =
      add_refusals look index item (add_if_error index (convert_field look k v).1 error)

  abbrev pub convert_items : Look → List Item → List InternalItem
  convert_items look [] = []
  convert_items look (item ∷ items) = convert_item look item ∷ convert_items look items

  abbrev pub refuse_items : Look → ℕ → List Item → MultiError M → MultiError M
  refuse_items look index [] error = error
  refuse_items look index (item ∷ items) error =
      refuse_items look (suc index) items (add_refusals look index item error)

  abbrev pub no_error : MultiError M
  no_error = record { errors = []; code = invalid_data }

  abbrev pub or_invalid : MultiError M → InternalOutcome M → InternalOutcome M
  or_invalid error outcome = if is_error error.errors then invalid error else outcome

  -- The conversion of items that were checked.
  abbrev pub convert : Look → List Item → InternalOutcome M
  convert look items =
      or_invalid (refuse_items look 0 items no_error) (internal (convert_items look items))

  abbrev pub checked : Option (MultiError M) → InternalOutcome M → InternalOutcome M
  checked none outcome = field_does_not_exist
  checked (some error) outcome = or_invalid error outcome

  -- `set(item.keys())` of each item.
  abbrev pub in_set_order : List Item → List Item
  in_set_order [] = []
  in_set_order (item ∷ items) = set_order item ∷ in_set_order items

  -- `to_internal_values`
  unfoldable pub to_internal_values : List Item → InternalOutcome M
  to_internal_values items =
      let ordered = in_set_order items in
      checked (clean_all 0 items no_error) (convert (look_in ordered) ordered)
