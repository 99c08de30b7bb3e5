-- ===== src/Service/Creation/Tests.antt =====
-- A record is inserted after the one there is, and the user may create rows of its content.
use totem_backend.Base.{ℕ, none, List, [], ◌∷◌, ◌++◌, ◌==◌}
use totem_backend.Service.Relations.{Record, plain, scalar, related_list, InternalItem}
use totem_backend.Service.Creation.{Written, written, failed, TableBackend, Service}

abbrev record_of : ℕ → ℕ → Record
record_of pk content = record { pk = pk; content = content }

abbrev one_more : TableBackend ℕ
one_more = record {
  Tables = List Record;
  rows = λ t. t;
  insert_rows = λ items t. written (20 ∷ [], t ++ record_of 20 7 ∷ []);
  add_links = λ k pk ds t. written t;
}

abbrev bookings : Service ℕ one_more
bookings = record {
  many_to_many_fields = 2 ∷ [];
  validate_data = λ item. none;
  may_create = λ t r. r.content == 7;
  constraints = [];
  global_error = λ text. 0;
}

abbrev new_items : List InternalItem
new_items = ((1, plain (scalar 7)) ∷ (2, related_list (record_of 3 0 ∷ [])) ∷ []) ∷ []

abbrev one_row : List Record
one_row = record_of 19 8 ∷ []

abbrev rows_of : Written ℕ (List ℕ × List Record) → List Record
rows_of (written (ks, t)) = t
rows_of (failed e) = []
