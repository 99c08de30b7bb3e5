-- ===== src/Service/Defaults.antt =====
-- The values that a creation starts from: `_input_values` of src/core/services/base.py, and
-- `CreateMixin.create` and `_default_values` of src/core/services/mixins.py. A dict is the list of its
-- items in insertion order. The names of a set are in the order of the schema.
pub mod Filled
mod Tests
use totem_backend.Base.{
  ℕ, Bool, true, false, ◌&&◌, ◌||◌, not, Option, none, some, List, [], ◌∷◌, ◌++◌, ◌==◌, find?,
  filter, mem, any, union, map, is_none, if◌then◌else◌,
}
use totem_backend.Base.Repeats.{is_empty}
use totem_backend.Service.Relations.{Value, null, scalar, several, Item}

-- A field of `create_schema`.
pub record SchemaField : Type 0 where
  pub name : ℕ
  pub is_required : Bool
  pub default : Value

-- A field of the model.
pub record Column : Type 0 where
  pub name : ℕ
  pub many_to_many : Bool
  pub nullable : Bool

pub record Schemas : Type 0 where
  pub model_fields : List SchemaField
  pub columns : List Column

-- An instance of a schema: the fields that were given, and its attributes.
pub record Input : Type 0 where
  pub fields_set : List ℕ
  pub attribute : ℕ → Option Value

abbrev pub value_at : ℕ → Item → Option Value
value_at k [] = none
value_at k ((j, v) ∷ item) = if j == k then some v else value_at k item

-- `values[k] = v`
abbrev pub set_value : ℕ → Value → Item → Item
set_value k v [] = (k, v) ∷ []
set_value k v ((j, w) ∷ item) = if j == k then (j, v) ∷ item else (j, w) ∷ set_value k v item

abbrev pub declared_names : List SchemaField → List ℕ
declared_names [] = []
declared_names (f ∷ fields) = f.name ∷ declared_names fields

abbrev pub put_attribute : ℕ → Option Value → Item → Item
put_attribute k none item = item
put_attribute k (some v) item = (k, v) ∷ item

-- `{name: getattr(data, name) for name in names if hasattr(data, name)}`
abbrev pub attributes_of : Input → List ℕ → Item
attributes_of input [] = []
attributes_of input (k ∷ names) = put_attribute k (input.attribute k) (attributes_of input names)

-- `_input_values`
abbrev pub input_values : List SchemaField → Input → Bool → Item
input_values fields input exclude_unset = attributes_of input (
    if exclude_unset
    then filter (λ k. mem k input.fields_set) (declared_names fields)
    else declared_names fields)

abbrev pub is_null_value : Value → Bool
is_null_value null = true
is_null_value (scalar v) = false
is_null_value (several vs) = false

-- `model_field is not None and (model_field.many_to_many or not model_field.null)`
abbrev pub refuses_null : Option Column → Bool
refuses_null none = false
refuses_null (some c) = c.many_to_many || not c.nullable

abbrev pub column_named : List Column → ℕ → Option Column
column_named columns k = find? (λ (c : Column). c.name == k) columns

abbrev pub default_of_field : List Column → ℕ → Option SchemaField → Option Value
default_of_field columns k none = none
default_of_field columns k (some f) =
    if f.is_required || (is_null_value f.default && refuses_null (column_named columns k))
    then none
    else some f.default

-- The default of a name, if it is declared and has one.
abbrev pub default_of : Schemas → ℕ → Option Value
default_of schemas k =
    default_of_field schemas.columns k
      (find? (λ (f : SchemaField). f.name == k) schemas.model_fields)

-- `_default_values`
unfoldable pub default_values : Schemas → List ℕ → Item
default_values schemas [] = []
default_values schemas (k ∷ names) =
    put_attribute k (default_of schemas k) (default_values schemas names)

abbrev pub unset_names : List SchemaField → Input → List ℕ
unset_names fields input = filter (λ k. not (mem k input.fields_set)) (declared_names fields)

-- `set().union(*unset)`
abbrev pub all_unset : List SchemaField → List Input → List ℕ
all_unset fields [] = []
all_unset fields (input ∷ inputs) = union (unset_names fields input) (all_unset fields inputs)

-- `item_values.update({name: value for name, value in defaults.items() if name in item_unset})`
abbrev pub fill : Item → List ℕ → Item → Item
fill [] unset item = item
fill ((k, v) ∷ defaults) unset item =
    let set = set_value k v item in
    if mem k unset then fill defaults unset set else fill defaults unset item

abbrev pub fill_all : List SchemaField → Item → List Input → List Item
fill_all fields defaults [] = []
fill_all fields defaults (input ∷ inputs) =
    fill defaults (unset_names fields input) (input_values fields input false)
    ∷ fill_all fields defaults inputs

abbrev pub all_values : List SchemaField → List Input → List Item
all_values fields [] = []
all_values fields (input ∷ inputs) = input_values fields input false ∷ all_values fields inputs

abbrev pub any_unset : List SchemaField → List Input → Bool
any_unset fields inputs = any (λ input. not (is_empty (unset_names fields input))) inputs

-- The values of `create`, before they are converted.
unfoldable pub create_values : Schemas → List Input → List Item
create_values schemas inputs =
    let fields = schemas.model_fields in
    if any_unset fields inputs
    then fill_all fields (default_values schemas (all_unset fields inputs)) inputs
    else all_values fields inputs
