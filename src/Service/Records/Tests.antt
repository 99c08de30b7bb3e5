-- ===== src/Service/Records/Tests.antt =====
-- Groups by teacher: of three teachers one is not readable, and a group has none.
use totem_backend.Base.{ℕ, ◌≡◌, refl, not, none, some, List, [], ◌∷◌, ◌==◌}
use totem_backend.Base.Text.{Text, codes}
use totem_backend.Service.Relations.{Record, Backend, browse}
use totem_backend.Service.Records.{Cell, empty_cell, bare, Group, RelationDimension, display_name}

abbrev person : ℕ → Record
person pk = record { pk = pk; content = 1 }

abbrev teachers : Backend ℕ
teachers = record {
  fields = [];
  run_validators = λ name v. none;
  validate = λ name v. none;
  null_message = 0;
  invalid_message = λ name vs. name;
  to_python = λ model v. some v;
  table = λ model. person 10 ∷ person 11 ∷ person 12 ∷ [];
  readable = λ model r. not (r.pk == 12);
  set_order = λ item. item;
}

abbrev teacher : Text
teacher = codes "t"

abbrev by_teacher : RelationDimension
by_teacher = record { name = teacher; related_model = some 7; lookups = some (codes "n" ∷ []) }

abbrev group_of : Cell → Group
group_of c = (teacher, c) ∷ (codes "c", bare 4) ∷ []

abbrev groups : List Group
groups = group_of (bare 10) ∷ group_of (bare 12) ∷ group_of empty_cell ∷ []

two_names : display_name teachers 7 (11 ∷ 12 ∷ 10 ∷ 11 ∷ []) ≡ (person 11 ∷ person 10 ∷ [])
unfolding display_name browse
two_names = refl
