-- ===== src/Service/Defaults/Tests.antt =====
-- Two bookings: one gives no seats, the other gives a null comment and no seats either.
use totem_backend.Base.{nth, ℕ, ◌≡◌, refl, true, false, some, List, [], ◌∷◌, ◌==◌, if◌then◌else◌}
use totem_backend.Service.Relations.{Item, null, scalar}
use totem_backend.Service.Defaults.{Schemas, Input, value_at, create_values}
use totem_backend.Service.Defaults.Filled.{created_value, value_at-create_values}

abbrev booking : Schemas
booking = record {
  model_fields =
      record { name = 1; is_required = true; default = null }
      ∷ record { name = 2; is_required = false; default = scalar 1 }
      ∷ record { name = 3; is_required = false; default = null }
      ∷ [];
  columns =
      record { name = 1; many_to_many = false; nullable = false }
      ∷ record { name = 2; many_to_many = false; nullable = false }
      ∷ record { name = 3; many_to_many = false; nullable = true }
      ∷ [];
}

abbrev without_seats : Input
without_seats = record {
  fields_set = 1 ∷ [];
  attribute = λ k. if k == 1 then some (scalar 9) else some null;
}

abbrev null_comment : Input
null_comment = record { fields_set = 1 ∷ 3 ∷ []; attribute = λ k. some null }

abbrev two_inputs : List Input
two_inputs = without_seats ∷ null_comment ∷ []

value_at-create_values_example :
    (item : Item) × (nth (create_values booking two_inputs) 1 ≡ some item)
    × ((k : ℕ) → value_at k item ≡ created_value booking null_comment k)
value_at-create_values_example =
    value_at-create_values booking two_inputs 1 {input = null_comment} refl
