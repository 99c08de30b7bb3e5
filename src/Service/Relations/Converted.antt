-- ===== src/Service/Relations/Converted.antt =====
-- What `to_internal_values` answers: the records of an input, or what is wrong with it.
use totem_backend.Base.{
  ℕ, suc, ◌≡◌, refl, Option, none, some, List, [], ◌∷◌, mem-union, arith, Option-cases, inl, inr,
  ap,
}
use totem_backend.Service.Errors.{MultiError}
use totem_backend.Service.Relations.{
  Value, null, scalar, several, Kind, column, foreign_key, many_to_many, reverse_relation, Record,
  Backend, Internal, plain, related, related_list, Item, InternalItem, internal, values_in,
  item_values, gathered_values, add_value, split_values, Look, look_in, field_by_name, convert_item,
  convert_items, add_refusals, refuse_items, no_error, or_invalid, convert, checked, clean_all,
  in_set_order, to_internal_values,
}
use totem_backend.Service.Relations.Resolved.{
  readable_record, resolution_at-resolve_relation, AgreeOn, convert_item-AgreeOn,
}

module _ {M : Type 0} (backend : Backend M) where
  -- Each value looked up by itself.
  abbrev pub look_readable : Look backend
  look_readable f v = readable_record backend f.related_model v

  convert_items-AgreeOn :
      (look look' : Look backend) (index : ℕ) (items : List Item) (error : MultiError M)
      → AgreeOn backend look look' (λ f. gathered_values backend f items)
      → (convert_items backend look items ≡ convert_items backend look' items)
        × (refuse_items backend look index items error
            ≡ refuse_items backend look' index items error)
  convert_items-AgreeOn look look' index [] error h = (refl, refl)
  convert_items-AgreeOn look look' index (item ∷ items) error h =
      let one = convert_item-AgreeOn backend look look' index item error (λ f w m. h f w (
        ground (
          arith,
          m,
          mem-union w (item_values backend f item) (gathered_values backend f items),
        ))) in
      let rest =
        convert_items-AgreeOn look look' (suc index) items
          (add_refusals backend look' index item error)
          (λ f w m. h f w (
            ground (
              arith,
              m,
              mem-union w (item_values backend f item) (gathered_values backend f items),
            ))) in
      (rw (one.0) (ap (λ t. convert_item backend look' item ∷ t) rest.0), rw (one.1) (rest.1))

  -- Resolving all the values of a relation by one query gives what looking each of them up by itself
  -- gives: the same values and the same errors.
  pub to_internal_values-look_readable :
      (items : List Item)
      → to_internal_values backend items
        ≡ checked backend
            (clean_all backend 0 items (no_error backend))
            (convert backend look_readable (in_set_order backend items))
  unfolding to_internal_values
  to_internal_values-look_readable items =
      let ordered = in_set_order backend items in
      let same =
        convert_items-AgreeOn (look_in backend ordered) look_readable 0 ordered (no_error backend)
          (λ f v m.
            resolution_at-resolve_relation backend f.related_model v
              (gathered_values backend f ordered) m) in
      ap (checked backend (clean_all backend 0 items (no_error backend))) (
        rw (same.0) (
          ap (λ e. or_invalid backend e (internal (convert_items backend look_readable ordered)))
            same.1))

  -- The records that a list of values stands for.
  abbrev pub AllFound : (ℕ → Option Record) → List ℕ → List Record → Type 0
  AllFound look [] [] = Unit
  AllFound look [] (r ∷ rs) = ⊥
  AllFound look (v ∷ vs) [] = ⊥
  AllFound look (v ∷ vs) (r ∷ rs) = (look v ≡ some r) × AllFound look vs rs

  -- What a value of a field becomes.
  abbrev pub Becomes : (ℕ → Option Record) → Kind → Value → Internal → Type 0
  Becomes look column v i = i ≡ plain v
  Becomes look reverse_relation v i = i ≡ plain v
  Becomes look foreign_key null i = i ≡ related none
  Becomes look foreign_key (several vs) i = ⊥
  Becomes look foreign_key (scalar v) i = (r : Record) × (look v ≡ some r) × (i ≡ related (some r))
  Becomes look many_to_many v i =
      (rs : List Record) × AllFound look (values_in v) rs × (i ≡ related_list rs)

  abbrev pub BecomesField : ℕ → Value → Internal → Type 0
  BecomesField k v i = elim (field_by_name backend k) [
    | none ↦ i ≡ plain v
    | some f ↦ Becomes (look_readable f) f.kind v i
  ]

  abbrev pub BecomesItem : Item → InternalItem → Type 0
  BecomesItem [] [] = Unit
  BecomesItem [] (j ∷ js) = ⊥
  BecomesItem ((k, v) ∷ item) [] = ⊥
  BecomesItem ((k, v) ∷ item) ((j, i) ∷ out) = (j ≡ k) × BecomesField k v i × BecomesItem item out

  abbrev pub BecomesItems : List Item → List InternalItem → Type 0
  BecomesItems [] [] = Unit
  BecomesItems [] (out ∷ outs) = ⊥
  BecomesItems (item ∷ items) [] = ⊥
  BecomesItems (item ∷ items) (out ∷ outs) = BecomesItem item out × BecomesItems items outs

  pub split_values-AllFound :
      (look : ℕ → Option Record) (vs : List ℕ)
      → (split_values backend look vs).1 ≡ []
      → AllFound look vs (split_values backend look vs).0
  split_values-AllFound look [] e = tt
  split_values-AllFound look (v ∷ vs) e = elim (Option-cases (look v)) [
    | inl p ↦ absurd (ground (arith, e, p))
    | inr (r, p) ↦ rw (p, add_value) (p, split_values-AllFound look vs (ground (arith, e, p)))
  ]
