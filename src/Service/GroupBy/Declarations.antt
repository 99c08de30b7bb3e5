-- ===== src/Service/GroupBy/Declarations.antt =====
-- The declarations of a grouping, checked when the class of a service is created:
-- `date_dimensions`, `_bind_dimension`, `_bind_measure` and `__init_subclass__` of
-- src/core/services/group_by.py. An error is `none`: what it says is not read. Expressions and output
-- fields that a service writes are numbers; labels are left out.
use totem_backend.Base.{
  ℕ, Bool, true, false, ◌&&◌, ◌||◌, not, Option, none, some, List, [], ◌∷◌, ◌++◌, ◌==◌, leb, find?,
  any, is_none, if◌then◌else◌,
}
use totem_backend.Base.Text.{Text, codes, text_eq}
use totem_backend.Base.Repeats.{has}
use totem_backend.Service.GroupBy.{Declared}

-- The class of a model field, a `DateTimeField` being one of the dates.
pub data FieldClass : Type 0 where
  date_field date_time_field other_field : FieldClass

pub record ModelField : Type 0 where
  pub name : Text
  pub class_of : FieldClass
  pub is_to_many : Bool
  pub is_concrete : Bool
  pub related_model : Option ℕ

pub record Dimension : Type 0 where
  pub field : Text
  pub truncate : Option Text
  pub expression : Option ℕ
  pub output_field : Option ℕ

pub record Measure : Type 0 where
  pub expression : ℕ
  pub field : Option Text
  pub output_field : Option ℕ

-- An expression: declared, a column under another name, a truncated column.
pub data Expression : Type 0 where
  declared : ℕ → Expression
  column_of : Text → Expression
  truncation : Text → Text → Expression

-- An output: declared, that of a field, a bare one of the same type.
pub data Output : Type 0 where
  declared_output : ℕ → Output
  field_output bare_output : ModelField → Output

pub record BoundDeclaration : Type 0 where
  pub name : Text
  pub expression : Option Expression
  pub output_field : Output
  pub related_model : Option ℕ

abbrev pub date_kinds : List Text
date_kinds = codes "day" ∷ codes "week" ∷ codes "month" ∷ codes "quarter" ∷ codes "year" ∷ []

abbrev pub date_time_kinds : List Text
date_time_kinds = codes "hour" ∷ date_kinds

unfoldable pub is_lower : ℕ → Bool
is_lower c = leb b'a' c && leb c b'z'

unfoldable pub is_name_character : ℕ → Bool
unfolding is_lower
is_name_character c = is_lower c || (leb b'0' c && leb c b'9') || c == b'_'

-- `[a-z0-9_]*$`: `$` also matches before a newline that ends the text.
abbrev pub pattern_rest : Text → Bool
pattern_rest [] = true
pattern_rest (c ∷ s) =
    let rest = pattern_rest s in (c == 10 && text_eq s []) || (is_name_character c && rest)

-- `NAME_PATTERN.match`
unfoldable pub matches_pattern : Text → Bool
matches_pattern [] = false
matches_pattern (c ∷ s) = is_lower c && pattern_rest s

-- `<prefix>_<kind>`
abbrev pub kind_name : Text → Text → Text
kind_name prefix kind = prefix ++ b'_' ∷ kind

-- `prefix or field`
abbrev prefix_or : Option Text → Text → Text
prefix_or none field = field
prefix_or (some []) field = field
prefix_or (some (c ∷ s)) field = c ∷ s

-- The dict has a name once, where it stood first.
abbrev without_name : Text → List (Text × Dimension) → List (Text × Dimension)
without_name name [] = []
without_name name ((n, d) ∷ rest) =
    let others = without_name name rest in if text_eq name n then others else (n, d) ∷ others

abbrev kind_dimensions : Text → Text → List Text → List (Text × Dimension)
kind_dimensions prefix field [] = []
kind_dimensions prefix field (kind ∷ kinds) =
    (
      kind_name prefix kind,
      record { field = field; truncate = some kind; expression = none; output_field = none },
    )
    ∷ without_name (kind_name prefix kind) (kind_dimensions prefix field kinds)

-- `date_dimensions`
abbrev pub date_dimensions : Text → List Text → Option Text → List (Text × Dimension)
date_dimensions field kinds prefix = kind_dimensions (prefix_or prefix field) field kinds

abbrev pub kinds_of : FieldClass → List Text
kinds_of date_field = date_kinds
kinds_of date_time_field = date_time_kinds
kinds_of other_field = []

abbrev pub names_of {ℓ} : {A : Type ℓ} → List (Text × A) → List Text
names_of [] = []
names_of ((name, a) ∷ rest) = name ∷ names_of rest

abbrev pub option_declared : Option ℕ → Option Expression
option_declared none = none
option_declared (some e) = some (declared e)

abbrev pub with_output : Option ℕ → Output → Output
with_output none output = output
with_output (some o) output = declared_output o

module _ (fields : List ModelField) where
  abbrev pub field_named : Text → Option ModelField
  field_named name = find? (λ (f : ModelField). text_eq f.name name) fields

  -- `_is_field_name`
  abbrev pub is_field_name : Text → Bool
  is_field_name name = not (is_none (field_named name))

  abbrev pub is_column : ModelField → Bool
  is_column f = not f.is_to_many && f.is_concrete

  abbrev column_or_none : Option ModelField → Option ModelField
  column_or_none none = none
  column_or_none (some f) = if is_column f then some f else none

  -- `_get_field`
  abbrev pub get_column : Text → Option ModelField
  get_column field_name = column_or_none (field_named field_name)

  -- The expression of a dimension, `none` within when the column is grouped as is.
  abbrev pub dimension_expression :
      Text → ModelField → Option Text → Option ℕ → Option (Option Expression)
  dimension_expression name f (some kind) e =
      if has text_eq kind (kinds_of f.class_of) then some (some (truncation f.name kind)) else none
  dimension_expression name f none (some e) = some (some (declared e))
  dimension_expression name f none none =
      some (if text_eq name f.name then none else some (column_of f.name))

  -- The related model, when the relation itself is grouped.
  abbrev pub dimension_related : ModelField → Option Text → Option ℕ → Option ℕ
  dimension_related f none none = f.related_model
  dimension_related f none (some e) = none
  dimension_related f (some kind) e = none

  abbrev pub bound_dimension :
      Text → ModelField → Dimension → Option (Option Expression) → Option BoundDeclaration
  bound_dimension name f d none = none
  bound_dimension name f d (some e) =
      let related = dimension_related f d.truncate d.expression in
      if not (is_none e) && is_field_name name
      then none
      else some record {
        name = name;
        expression = e;
        output_field =
            with_output d.output_field (if is_none related then bare_output f else field_output f);
        related_model = related;
      }

  abbrev pub dimension_on : Text → Dimension → Option ModelField → Option BoundDeclaration
  dimension_on name d none = none
  dimension_on name d (some f) =
      bound_dimension name f d (dimension_expression name f d.truncate d.expression)

  -- `_bind_dimension`
  unfoldable pub bind_dimension : Text → Dimension → Option BoundDeclaration
  bind_dimension name d =
      if matches_pattern name then dimension_on name d (get_column d.field) else none

  -- The output of a measure, from the field that it aggregates, if it names one.
  abbrev pub measure_output : Option Text → Option ℕ → Option Output
  measure_output none none = none
  measure_output none (some o) = some (declared_output o)
  measure_output (some field) o = elim (get_column field) [
    | none ↦ none
    | some f ↦ some (with_output o (bare_output f))
  ]

  abbrev pub bound_measure : Text → Measure → Option Output → Option BoundDeclaration
  bound_measure name m none = none
  bound_measure name m (some output) = some record {
    name = name;
    expression = some (declared m.expression);
    output_field = output;
    related_model = none;
  }

  -- `_bind_measure`
  unfoldable pub bind_measure : Text → Measure → Option BoundDeclaration
  bind_measure name m =
      if matches_pattern name && not (is_field_name name)
      then bound_measure name m (measure_output m.field m.output_field)
      else none

  abbrev pub put_bound :
      Option BoundDeclaration → Option (List BoundDeclaration) → Option (List BoundDeclaration)
  put_bound none bounds = none
  put_bound (some b) none = none
  put_bound (some b) (some bounds) = some (b ∷ bounds)

  abbrev pub bind_dimensions : List (Text × Dimension) → Option (List BoundDeclaration)
  bind_dimensions [] = some []
  bind_dimensions ((name, d) ∷ rest) = put_bound (bind_dimension name d) (bind_dimensions rest)

  abbrev pub bind_measures : List (Text × Measure) → Option (List BoundDeclaration)
  bind_measures [] = some []
  bind_measures ((name, m) ∷ rest) = put_bound (bind_measure name m) (bind_measures rest)

  abbrev pub bound_names : List BoundDeclaration → List Text
  bound_names [] = []
  bound_names (b ∷ bounds) = b.name ∷ bound_names bounds

  abbrev pub both_bound :
      Option (List BoundDeclaration) → Option (List BoundDeclaration) → Option Declared
  both_bound none ms = none
  both_bound (some ds) none = none
  both_bound (some ds) (some ms) =
      if any (λ name. has text_eq name (bound_names ms)) (bound_names ds)
      then none
      else some record { dimensions = bound_names ds; measures = bound_names ms }

  abbrev pub count_measure : Text × Measure
  count_measure = (codes "count", record { expression = 0; field = none; output_field = some 0 })

  -- `{**COUNT, **measures}`: a `count` of the service replaces the one there always is.
  abbrev pub with_count : List (Text × Measure) → List (Text × Measure)
  with_count measures =
      if has text_eq (codes "count") (names_of measures) then measures else count_measure ∷ measures

  -- `__init_subclass__`
  unfoldable pub declare : List (Text × Dimension) → List (Text × Measure) → Option Declared
  declare dimensions measures =
      both_bound (bind_dimensions dimensions) (bind_measures (with_count measures))
