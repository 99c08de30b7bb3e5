-- ===== src/Service/Relations/Answers.antt =====
-- What `to_internal_values` answers to a list of items.
use mathlib.Core.List.{Perm}
use totem_backend.Base.{
  ℕ, suc, ◌≡◌, refl, Option, none, some, List, [], ◌∷◌, ◌==◌, if◌then◌else◌, arith, ◌∙◌,
}
use totem_backend.Service.Errors.{MessageDict, MultiError, Entry, validation_error, entry_at}
use totem_backend.Service.Errors.Merged.{entry_at-add_error}
use totem_backend.Service.Relations.{
  Field, Backend, Item, invalid, get_field, clean_value, clean_all, convert_field, add_if_error,
  add_refusals, refuse_items, no_error, convert, in_set_order, to_internal_values,
}
use totem_backend.Service.Relations.Converted.{look_readable, to_internal_values-look_readable}
use totem_backend.Service.Relations.Accepted.{either_of}

module _ {M : Type 0} (backend : Backend M) where
  open backend use {set_order}

  -- Each name of an item is that of a field, whose checks the value passes.
  abbrev pub IsClean : Item → Type 0
  IsClean [] = Unit
  IsClean ((k, v) ∷ item) =
      ((f : Field) × (get_field backend k ≡ some f) × (clean_value backend f v ≡ none))
      × IsClean item

  abbrev pub AllClean : List Item → Type 0
  AllClean [] = Unit
  AllClean (item ∷ items) = IsClean item × AllClean items

  -- The names of each item in another order.
  abbrev pub AreRearranged : List Item → List Item → Type 0
  AreRearranged [] [] = Unit
  AreRearranged [] (item ∷ items) = ⊥
  AreRearranged (item ∷ items) [] = ⊥
  AreRearranged (item ∷ items) (item' ∷ items') = Perm item item' × AreRearranged items items'

  abbrev entry_of : MessageDict M → Option (Entry M)
  entry_of [] = none
  entry_of (m ∷ e) = some (validation_error (m ∷ e))

  -- What is wrong with the last field of an item that is refused.
  abbrev pub last_refusal : Item → Option (Entry M)
  last_refusal [] = none
  last_refusal ((k, v) ∷ item) =
      either_of (last_refusal item) (entry_of (convert_field backend (look_readable backend) k v).1)

  -- The same, for the item at a place of a list whose first place is given.
  abbrev pub refusal_at : ℕ → ℕ → List Item → Option (Entry M)
  refusal_at k index [] = none
  refusal_at k index (item ∷ items) =
      either_of (refusal_at k (suc index) items) (if index == k then last_refusal item else none)

  entry_at-add_if_error :
      (k index : ℕ) (suberror : MessageDict M) (error : MultiError M)
      → entry_at k (add_if_error backend index suberror error).errors
        ≡ either_of (if index == k then entry_of suberror else none) (entry_at k error.errors)
  entry_at-add_if_error k index [] error = ground arith
  entry_at-add_if_error k index (m ∷ e) error =
      ground (arith, entry_at-add_error k index (m ∷ e) error)

  entry_at-add_refusals :
      (k index : ℕ) (item : Item) (error : MultiError M)
      → entry_at k (add_refusals backend (look_readable backend) index item error).errors
        ≡ either_of (if index == k then last_refusal item else none) (entry_at k error.errors)
  entry_at-add_refusals k index [] error = ground arith
  entry_at-add_refusals k index ((j, v) ∷ item) error =
      entry_at-add_refusals k index item _
      ∙ ground (
        arith,
        entry_at-add_if_error k index (convert_field backend (look_readable backend) j v).1 error,
      )

  entry_at-refuse_items :
      (k index : ℕ) (items : List Item) (error : MultiError M)
      → entry_at k (refuse_items backend (look_readable backend) index items error).errors
        ≡ either_of (refusal_at k index items) (entry_at k error.errors)
  entry_at-refuse_items k index [] error = refl
  entry_at-refuse_items k index (item ∷ items) error =
      entry_at-refuse_items k (suc index) items _
      ∙ ground (arith, entry_at-add_refusals k index item error)

  -- Of an input whose values pass the checks of their fields, and that is refused, an item is
  -- reported exactly if one of its relations is refused, and then with one of these only: the last in
  -- the order in which python goes through the set of the names of the item.
  pub entry_at-to_internal_values :
      (k : ℕ) (items : List Item) {error : MultiError M}
      → clean_all backend 0 items (no_error backend) ≡ some (no_error backend)
      → to_internal_values backend items ≡ invalid error
      → entry_at k error.errors ≡ refusal_at k 0 (in_set_order backend items)
  entry_at-to_internal_values k items {error} clean q =
      let ordered = in_set_order backend items in
      let e : convert backend (look_readable backend) ordered ≡ invalid error =
        ground (arith, clean, q, to_internal_values-look_readable backend items) in
      ground (arith, e, entry_at-refuse_items k 0 ordered (no_error backend))
