-- ===== src/Service/GroupBy/Tests.antt =====
-- Events grouped by month and by category.
use totem_backend.Base.{◌≡◌, refl, true, false, none, some, List, [], ◌∷◌, ◌++◌}
use totem_backend.Base.Text.{Text, codes, text_eq}
use totem_backend.Base.Repeats.{has, distinct, is_empty}
use totem_backend.Service.Errors.{is_error, messages_at}
use totem_backend.Service.GroupBy.{
  Declared, Request, dimensions_key, measures_key, ordering_key, offset_key, group_by_check,
  group_by_ordering,
}
use totem_backend.Service.GroupBy.Checked.{
  names_pass, ordering_passes, offset_passes, messages_at-group_by_check,
}
use totem_backend.Service.GroupBy.Ordered.{columns, group_by_ordering-columns}
use totem_backend.Service.GroupBy.Declarations.{
  date_field, other_field, ModelField, Dimension, is_lower, is_name_character, matches_pattern,
  date_dimensions, bind_dimension, bind_measure, declare,
}
use totem_backend.Service.GroupBy.Bound.{distinct-declare}

abbrev month : Text
month = codes "d_month"

abbrev category : Text
category = codes "cat"

abbrev total : Text
total = codes "count"

abbrev event_names : Declared
event_names = record { dimensions = month ∷ category ∷ []; measures = total ∷ [] }

abbrev good_request : Request
good_request = record {
  dimensions = month ∷ category ∷ [];
  measures = total ∷ [];
  ordering = codes "-count" ∷ codes "cat" ∷ [];
  limit = some 20;
  offset = 40;
}

abbrev bad_request : Request
bad_request = record good_request { dimensions = month ∷ month ∷ []; limit = none }

good_run : is_error (group_by_check event_names good_request) ≡ false
unfolding group_by_check
good_run = refl

messages_at-group_by_check_example :
    (is_empty (messages_at dimensions_key (group_by_check event_names bad_request))
      ≡ names_pass bad_request.dimensions event_names.dimensions)
    × (is_empty (messages_at measures_key (group_by_check event_names bad_request))
        ≡ names_pass bad_request.measures event_names.measures)
    × (is_empty (messages_at ordering_key (group_by_check event_names bad_request))
        ≡ ordering_passes bad_request)
    × (is_empty (messages_at offset_key (group_by_check event_names bad_request))
        ≡ offset_passes bad_request)
messages_at-group_by_check_example = messages_at-group_by_check event_names bad_request

group_by_ordering-columns_example :
    (distinct text_eq (columns (group_by_ordering good_request.dimensions good_request.ordering))
      ≡ true)
    × ((name : Text)
        → has text_eq name good_request.dimensions ≡ true
        → has text_eq name
            (columns (group_by_ordering good_request.dimensions good_request.ordering))
          ≡ true)
    × ((name : Text)
        → has text_eq name
            (columns (group_by_ordering good_request.dimensions good_request.ordering))
          ≡ true
        → has text_eq name (good_request.dimensions ++ good_request.measures) ≡ true)
group_by_ordering-columns_example = group_by_ordering-columns event_names good_request good_run

abbrev date_column : ModelField
date_column = record {
  name = codes "d";
  class_of = date_field;
  is_to_many = false;
  is_concrete = true;
  related_model = none;
}

abbrev category_column : ModelField
category_column = record {
  name = category;
  class_of = other_field;
  is_to_many = false;
  is_concrete = true;
  related_model = some 3;
}

abbrev event_fields : List ModelField
event_fields = date_column ∷ category_column ∷ []

abbrev month_dimension : Dimension
month_dimension = record {
  field = codes "d";
  truncate = some (codes "month");
  expression = none;
  output_field = none;
}

abbrev category_dimension : Dimension
category_dimension = record {
  field = category;
  truncate = none;
  expression = none;
  output_field = none;
}

-- A kind that stands twice is declared once, under the name of the field.
date_run :
    date_dimensions (codes "d") (codes "month" ∷ codes "month" ∷ []) none
    ≡ (month, month_dimension) ∷ []
date_run = refl

declared_run :
    declare event_fields ((month, month_dimension) ∷ (category, category_dimension) ∷ []) []
    ≡ some event_names
unfolding declare bind_dimension bind_measure matches_pattern is_name_character is_lower
declared_run = refl

distinct-declare_example :
    distinct text_eq (good_request.dimensions ++ good_request.measures) ≡ true
distinct-declare_example =
    distinct-declare event_fields ((month, month_dimension) ∷ (category, category_dimension) ∷ [])
      [] good_request declared_run good_run
