-- ===== src/Service/GroupBy.antt =====
-- `GroupByMixin` of src/core/services/group_by.py: the checks of a grouping, its order and its page.
-- The names are texts. What the database computes of the groups is not read here.
pub mod Checked
pub mod Ordered
pub mod Declarations
pub mod Bound
mod Tests
use totem_backend.Base.{
  ℕ, ◌-◌, Bool, true, false, ◌&&◌, ◌||◌, not, Option, none, some, List, [], ◌∷◌, ◌++◌, ◌==◌, ltb,
  map, filter, is_none, if◌then◌else◌,
}
use totem_backend.Base.Text.{Text, text_eq}
use totem_backend.Base.Sorting.{sorted}
use totem_backend.Base.Repeats.{is_empty, has, repeated}
use totem_backend.Service.Errors.{MessageDict, message, add_message, is_error}

-- The names that a service declares.
pub record Declared : Type 0 where
  pub dimensions : List Text
  pub measures : List Text

-- What a client asks.
pub record Request : Type 0 where
  pub dimensions : List Text
  pub measures : List Text
  pub ordering : List Text
  pub limit : Option ℕ
  pub offset : ℕ

pub data Complaint : Type 0 where
  at_least_one unasked_values : List Text → Complaint
  unknown_values : List Text → List Text → Complaint
  repeated_values : List Text → Complaint
  offset_without_limit : Complaint

-- The keys "dimensions", "measures", "ordering" and "offset" of the error.
abbrev pub dimensions_key : ℕ
dimensions_key = 1

abbrev pub measures_key : ℕ
measures_key = 2

abbrev pub ordering_key : ℕ
ordering_key = 3

abbrev pub offset_key : ℕ
offset_key = 4

-- `if …: error.add_message(…, key=…)`
abbrev pub complain : Bool → Complaint → ℕ → MessageDict Complaint → MessageDict Complaint
complain true complaint key error = add_message (message complaint) (some key) error
complain false complaint key error = error

abbrev pub unknown : List Text → List Text → List Text
unknown names declared = filter (λ name. not (has text_eq name declared)) names

abbrev pub complain_repeated : List Text → ℕ → MessageDict Complaint → MessageDict Complaint
complain_repeated names key error =
    complain (not (is_empty (repeated text_eq names)))
      (repeated_values (sorted (repeated text_eq names))) key error

-- The checks of the names of a key.
abbrev pub check_names : ℕ → List Text → List Text → MessageDict Complaint → MessageDict Complaint
check_names key names declared error = complain_repeated names key (
    complain (not (is_empty (unknown names declared)))
      (unknown_values (unknown names declared) (sorted declared)) key
      (complain (is_empty names) (at_least_one (sorted declared)) key error))

-- `_ordering_name`
abbrev pub ordering_name : Text → Text
ordering_name [] = []
ordering_name (c ∷ s) = if c == 45 then s else c ∷ s

abbrev pub starts_with_minus : Text → Bool
starts_with_minus [] = false
starts_with_minus (c ∷ s) = c == 45

abbrev pub ordered_names : List Text → List Text
ordered_names [] = []
ordered_names (token ∷ tokens) = ordering_name token ∷ ordered_names tokens

abbrev pub check_ordering : List Text → List Text → MessageDict Complaint → MessageDict Complaint
check_ordering ordered asked error = complain_repeated ordered ordering_key (
    complain (not (is_empty (unknown ordered asked))) (unasked_values (unknown ordered asked))
      ordering_key error)

-- `_group_by_check`: the error, which is raised when there is something in it.
unfoldable pub group_by_check : Declared → Request → MessageDict Complaint
group_by_check declared request =
    complain (ltb 0 request.offset && is_none request.limit) offset_without_limit offset_key (
      check_ordering (ordered_names request.ordering) (request.dimensions ++ request.measures) (
        check_names measures_key request.measures declared.measures
          (check_names dimensions_key request.dimensions declared.dimensions [])))

-- A term of an ORDER BY; NULLs come last in each.
pub record Term : Type 0 where
  pub column : Text
  pub is_descending : Bool

abbrev pub token_terms : List Text → List Term
token_terms [] = []
token_terms (token ∷ tokens) =
    record { column = ordering_name token; is_descending = starts_with_minus token }
    ∷ token_terms tokens

abbrev pub ascending_terms : List Text → List Term
ascending_terms [] = []
ascending_terms (name ∷ names) =
    record { column = name; is_descending = false } ∷ ascending_terms names

-- `_group_by_ordering`
unfoldable pub group_by_ordering : List Text → List Text → List Term
group_by_ordering dimensions ordering =
    token_terms ordering
    ++ ascending_terms (filter (λ name. not (has text_eq name (ordered_names ordering))) dimensions)
