-- ===== src/Service/Relations/Accepted.antt =====
-- The inputs that `to_internal_values` accepts, and what it reports of the others.
use totem_backend.Base.{
  ℕ, suc, ◌≡◌, refl, Bool, true, false, ◌||◌, Option, none, some, List, [], ◌∷◌, arith,
  Option-cases, inl, inr, ◌∙◌,
}
use totem_backend.Service.Errors.{MessageDict, of_messages, is_error, MultiError}
use totem_backend.Service.Errors.Merged.{is_error-add_error}
use totem_backend.Service.Relations.{
  Value, null, scalar, several, Kind, column, foreign_key, many_to_many, reverse_relation, Record,
  Backend, Internal, plain, Item, values_in, split_values, convert_list, convert_found,
  convert_kind, Look, field_by_name, convert_field, put_value, convert_item, convert_items,
  add_if_error, add_refusals, refuse_items,
}
use totem_backend.Service.Relations.Converted.{
  look_readable, AllFound, Becomes, BecomesField, BecomesItem, BecomesItems, split_values-AllFound,
}

-- The first of two optional values.
abbrev pub either_of {ℓ} : {A : Type ℓ} → Option A → Option A → Option A
either_of none o = o
either_of (some a) o = some a

module _ {M : Type 0} (backend : Backend M) where
  -- A field whose conversion reports nothing has a value, and it is the right one.
  abbrev Converts : (ℕ → Option Record) → Kind → Value → Option Internal × MessageDict M → Type 0
  Converts look kind v (none, e) = is_error e ≡ true
  Converts look kind v (some i, []) = Becomes backend look kind v i
  Converts look kind v (some i, m ∷ e) = Unit

  convert_list-Converts :
      (look : ℕ → Option Record) (k : ℕ) (v : Value) (split : List Record × List ℕ)
      → (split.1 ≡ [] → AllFound backend look (values_in v) split.0)
      → Converts look many_to_many v (convert_list backend k split)
  unfolding of_messages
  convert_list-Converts look k v (rs, []) h = (rs, h refl, refl)
  convert_list-Converts look k v (rs, w ∷ ws) h = tt

  convert_kind-Converts :
      (look : ℕ → Option Record) (kind : Kind) (k : ℕ) (v : Value)
      → Converts look kind v (convert_kind backend look kind k v)
  unfolding of_messages
  convert_kind-Converts look column k v = refl
  convert_kind-Converts look reverse_relation k v = refl
  convert_kind-Converts look many_to_many k v =
      convert_list-Converts look k v (split_values backend look (values_in v))
        (split_values-AllFound backend look (values_in v))
  convert_kind-Converts look foreign_key k null = refl
  convert_kind-Converts look foreign_key k (several vs) = refl
  convert_kind-Converts look foreign_key k (scalar v) = elim (Option-cases (look v)) [
    | inl e ↦ rw (e, convert_found) refl
    | inr (r, e) ↦ rw (e, convert_found) (r, e, refl)
  ]

  of_Converts :
      (look : ℕ → Option Record) (kind : Kind) (v : Value) (o : Option Internal × MessageDict M)
      → Converts look kind v o
      → is_error o.1 ≡ false
      → (i : Internal) × (o.0 ≡ some i) × Becomes backend look kind v i
  of_Converts look kind v (none, e) h q = absurd (ground (arith, h, q))
  of_Converts look kind v (some i, []) h q = (i, refl, h)
  of_Converts look kind v (some i, m ∷ e) h q = absurd (ground (arith, q))

  convert_field-BecomesField :
      (k : ℕ) (v : Value)
      → is_error (convert_field backend (look_readable backend) k v).1 ≡ false
      → (i : Internal) × ((convert_field backend (look_readable backend) k v).0 ≡ some i)
        × BecomesField backend k v i
  convert_field-BecomesField k v q = elim (Option-cases (field_by_name backend k)) [
    | inl e ↦ rw (e, convert_field, BecomesField) (plain v, refl, refl)
    | inr (f, e) ↦
        rw (e, convert_field, BecomesField)
          (of_Converts (look_readable backend f) f.kind v
            (convert_kind backend (look_readable backend f) f.kind k v)
            (convert_kind-Converts (look_readable backend f) f.kind k v)
            (rw (e, convert_field) at q))
  ]

  pub is_error-add_if_error :
      (index : ℕ) (suberror : MessageDict M) (error : MultiError M)
      → is_error (add_if_error backend index suberror error).errors
        ≡ (is_error suberror || is_error error.errors)
  is_error-add_if_error index suberror error =
      ground (arith, is_error-add_error index suberror error)

  -- Some field of an item is refused.
  abbrev pub is_refused : Look backend → Item → Bool
  is_refused look [] = false
  is_refused look ((k, v) ∷ item) =
      is_error (convert_field backend look k v).1 || is_refused look item

  abbrev pub any_refused : Look backend → List Item → Bool
  any_refused look [] = false
  any_refused look (item ∷ items) = is_refused look item || any_refused look items

  is_error-add_refusals :
      (look : Look backend) (index : ℕ) (item : Item) (error : MultiError M)
      → is_error (add_refusals backend look index item error).errors
        ≡ (is_refused look item || is_error error.errors)
  is_error-add_refusals look index [] error = refl
  is_error-add_refusals look index ((k, v) ∷ item) error =
      is_error-add_refusals look index item _
      ∙ ground (arith, is_error-add_if_error index (convert_field backend look k v).1 error)

  pub is_error-refuse_items :
      (look : Look backend) (index : ℕ) (items : List Item) (error : MultiError M)
      → is_error (refuse_items backend look index items error).errors
        ≡ (any_refused look items || is_error error.errors)
  is_error-refuse_items look index [] error = refl
  is_error-refuse_items look index (item ∷ items) error =
      is_error-refuse_items look (suc index) items _
      ∙ ground (arith, is_error-add_refusals look index item error)

  convert_item-BecomesItem :
      (item : Item)
      → is_refused (look_readable backend) item ≡ false
      → BecomesItem backend item (convert_item backend (look_readable backend) item)
  convert_item-BecomesItem [] h = tt
  convert_item-BecomesItem ((k, v) ∷ item) h =
      let (i, e, b) = convert_field-BecomesField k v (ground (arith, h)) in
      rw (e, put_value) (refl, b, convert_item-BecomesItem item (ground (arith, h)))

  pub convert_items-BecomesItems :
      (items : List Item)
      → any_refused (look_readable backend) items ≡ false
      → BecomesItems backend items (convert_items backend (look_readable backend) items)
  convert_items-BecomesItems [] h = tt
  convert_items-BecomesItems (item ∷ items) h = (
    convert_item-BecomesItem item (ground (arith, h)),
    convert_items-BecomesItems items (ground (arith, h)),
  )
