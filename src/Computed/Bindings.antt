-- ===== src/Computed/Bindings.antt =====
-- `Binding` and `_merge` of src/core/orm/fields/computed/dependency.py. Models, fields, field names
-- and attribute names are only compared: they are numbers. A path is the list of the names that
-- `__` joins, and the empty list is the `None` of a local dependency.
use totem_backend.Base.{
  ℕ, Bool, true, false, ◌&&◌, ◌||◌, Option, none, some, List, [], ◌∷◌, ◌==◌, mem, union,
  if◌then◌else◌,
}

pub record Binding : Type 0 where
  pub root_model : ℕ
  pub field : ℕ
  pub watched_model : ℕ
  pub path : List ℕ
  pub trigger_fields : List ℕ
  pub membership_fields : List ℕ
  pub on_existence : Bool
  pub fk_attname : Option ℕ

abbrev pub same_path : List ℕ → List ℕ → Bool
same_path [] [] = true
same_path [] (y ∷ q) = false
same_path (x ∷ p) [] = false
same_path (x ∷ p) (y ∷ q) = x == y && same_path p q

-- `self.path is None`
abbrev pub is_local : Binding → Bool
is_local b = elim b.path [ [] ↦ true | _ ↦ false ]

-- `a & b`, as a truth value.
abbrev pub meets : List ℕ → List ℕ → Bool
meets [] ys = false
meets (x ∷ xs) ys = mem x ys || meets xs ys

-- `key == (b.field, b.watched_model, b.path)`
abbrev pub same_key : Binding → Binding → Bool
same_key a b = a.field == b.field && a.watched_model == b.watched_model && same_path a.path b.path

abbrev first_of_two : Option ℕ → Option ℕ → Option ℕ
first_of_two none o = o
first_of_two (some n) o = some n

abbrev pub joined : Binding → Binding → Binding
joined m b = record m {
  trigger_fields = union m.trigger_fields b.trigger_fields;
  membership_fields = union m.membership_fields b.membership_fields;
  on_existence = m.on_existence || b.on_existence;
  fk_attname = first_of_two m.fk_attname b.fk_attname;
}

-- `merged[key] = …`: the dict in insertion order.
abbrev pub merge_one : Binding → List Binding → List Binding
merge_one b [] = b ∷ []
merge_one b (m ∷ merged) = if same_key m b then joined m b ∷ merged else m ∷ merge_one b merged

abbrev merge_into : List Binding → List Binding → List Binding
merge_into merged [] = merged
merge_into merged (b ∷ bindings) = merge_into (merge_one b merged) bindings

-- `_merge`
unfoldable pub merge : List Binding → List Binding
merge bindings = merge_into [] bindings
