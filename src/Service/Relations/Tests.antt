-- ===== src/Service/Relations/Tests.antt =====
-- `to_internal_values` on items with two relations to a model of which one record is not readable.
use mathlib.Core.List.{reverse}
use totem_backend.Base.{ℕ, ◌≡◌, refl, false, not, none, some, List, [], ◌∷◌, ◌==◌}
use totem_backend.Service.Errors.{MultiError, entry_at, add_error, of_messages, message}
use totem_backend.Service.Relations.{
  Kind, Field, Record, Backend, Item, InternalItem, invalid, null, scalar, several, foreign_key,
  many_to_many, column, related, related_list, plain, clean_all, no_error, convert, checked,
  in_set_order, to_internal_values, browse, resolve_relation,
}
use totem_backend.Service.Relations.Converted.{look_readable, to_internal_values-look_readable}
use totem_backend.Service.Relations.Answers.{refusal_at, entry_at-to_internal_values}

abbrev course_teacher : ℕ
course_teacher = 1

abbrev course_students : ℕ
course_students = 2

abbrev course_teacher_id : ℕ
course_teacher_id = 4

abbrev course_name : ℕ
course_name = 3

abbrev person : ℕ
person = 7

abbrev person_of : ℕ → Record
person_of pk = record { pk = pk; content = 100 }

abbrev field_of : ℕ → ℕ → Kind → Field
field_of name attname kind = record {
  name = name;
  attname = attname;
  kind = kind;
  nullable = false;
  related_model = person;
}

abbrev courses : Backend ℕ
courses = record {
  fields =
      field_of course_teacher course_teacher_id foreign_key
      ∷ field_of course_students course_students many_to_many
      ∷ field_of course_name course_name column
      ∷ [];
  run_validators = λ name v. none;
  validate = λ name v. none;
  null_message = 0;
  invalid_message = λ name vs. name;
  to_python = λ model v. some v;
  table = λ model. person_of 10 ∷ person_of 11 ∷ person_of 12 ∷ [];
  readable = λ model r. not (r.pk == 12);
  set_order = λ item. reverse item;
}

abbrev good_items : List Item
good_items =
    ((course_teacher, scalar 10) ∷ (course_students, several (11 ∷ 10 ∷ [])) ∷ [])
    ∷ ((course_name, scalar 5) ∷ (course_students, null) ∷ [])
    ∷ []

abbrev good_values : List InternalItem
good_values =
    ((course_students, related_list (person_of 11 ∷ person_of 10 ∷ []))
      ∷ (course_teacher, related (some (person_of 10)))
      ∷ [])
    ∷ ((course_students, related_list []) ∷ (course_name, plain (scalar 5)) ∷ [])
    ∷ []

abbrev bad_items : List Item
bad_items =
    ((course_teacher, scalar 10) ∷ [])
    ∷ ((course_teacher, scalar 12) ∷ (course_students, several (11 ∷ 13 ∷ [])) ∷ [])
    ∷ []

to_internal_values-look_readable_example :
    to_internal_values courses bad_items
    ≡ checked courses
        (clean_all courses 0 bad_items (no_error courses))
        (convert courses (look_readable courses) (in_set_order courses bad_items))
to_internal_values-look_readable_example = to_internal_values-look_readable courses bad_items

-- The student that does not exist, 13, is not told: the teacher, 12, is the last refused.
abbrev bad_error : MultiError ℕ
bad_error =
    add_error 1 (of_messages (message course_teacher) (some course_teacher)) (no_error courses)

bad_run : to_internal_values courses bad_items ≡ invalid bad_error
unfolding to_internal_values resolve_relation browse of_messages add_error
bad_run = refl

entry_at-to_internal_values_example :
    entry_at 1 (bad_error.errors) ≡ refusal_at courses 1 0 (in_set_order courses bad_items)
entry_at-to_internal_values_example = entry_at-to_internal_values courses 1 bad_items refl bad_run
