-- ===== src/Service/Relations/Resolved.antt =====
-- Resolving the values of all the items at once, and each by itself.
use totem_backend.Base.{
  ℕ, ◌≡◌, refl, true, ◌&&◌, Option, none, some, List, [], ◌∷◌, ◌==◌, find?, filter, mem, mem-union,
  if◌then◌else◌, arith, ==_refl, eq_of_==, Option-cases, inl, inr, ap, ◌∙◌,
}
use totem_backend.Service.Errors.{MultiError}
use totem_backend.Service.Relations.{
  Value, null, scalar, several, Kind, column, foreign_key, many_to_many, reverse_relation, Field,
  Record, Backend, Item, resolution_at, values_in, relation_values, browse, coerced_pks,
  found_among, resolution_from, resolve_relation, item_values, add_value, split_values,
  convert_list, convert_found, convert_kind, Look, field_by_name, convert_field, put_value,
  convert_item, add_if_error, add_refusals,
}

module _ {M : Type 0} (backend : Backend M) where
  -- The record that a value stands for, if the acting user may read it.
  abbrev pub readable_record : ℕ → ℕ → Option Record
  readable_record model v = elim (backend.to_python model v) [
    | none ↦ none
    | some pk ↦ find? (λ (r : Record). backend.readable model r && r.pk == pk) (backend.table model)
  ]

  pub find-browse :
      (model pk : ℕ) (pks : List ℕ) (table : List Record)
      → mem pk pks ≡ true
      → find?
          (λ (r : Record). r.pk == pk)
          (filter (λ (r : Record). backend.readable model r && mem r.pk pks) table)
        ≡ find? (λ (r : Record). backend.readable model r && r.pk == pk) table
  find-browse model pk pks [] m = refl
  find-browse model pk pks (r ∷ table) m = ground (
    arith,
    m,
    find-browse model pk pks table m,
    λ (e : (r.pk == pk) ≡ true). ap (λ j. mem j pks) (eq_of_== r.pk pk e),
  )

  mem-coerced_pks :
      (model v pk : ℕ) (vs : List ℕ)
      → mem v vs ≡ true
      → backend.to_python model v ≡ some pk
      → mem pk (coerced_pks backend model vs) ≡ true
  mem-coerced_pks model v pk [] m e = absurd (ground (arith, m))
  mem-coerced_pks model v pk (w ∷ vs) m e = ground (
    arith,
    m,
    e,
    ==_refl pk,
    mem-coerced_pks model v pk vs,
    λ (q : (v == w) ≡ true). ap (backend.to_python model) (eq_of_== v w q),
  )

  resolution_at-resolution_from :
      (model v : ℕ) (instances : List Record) (vs : List ℕ)
      → resolution_at v (resolution_from backend model instances vs)
        ≡ (if mem v vs then found_among backend model instances v else none)
  resolution_at-resolution_from model v instances [] = refl
  resolution_at-resolution_from model v instances (w ∷ vs) = ground (
    arith,
    resolution_at-resolution_from model v instances vs,
    eq_of_== v w,
    ==_refl v,
    λ (q : (v == w) ≡ true). ap (found_among backend model instances) (eq_of_== v w q),
  )

  found_among-browse :
      (model v : ℕ) (vs : List ℕ)
      → mem v vs ≡ true
      → found_among backend model (browse backend model (coerced_pks backend model vs)) v
        ≡ readable_record model v
  unfolding browse
  found_among-browse model v vs m = elim (Option-cases (backend.to_python model v)) [
    | inl e ↦ rw (e, found_among, readable_record) refl
    | inr (pk, e) ↦
        rw (e, found_among, readable_record)
          (find-browse model pk (coerced_pks backend model vs) (backend.table model)
            (mem-coerced_pks model v pk vs m e))
  ]

  -- A value that was resolved with others stands for the record that it stands for by itself.
  pub resolution_at-resolve_relation :
      (model v : ℕ) (vs : List ℕ)
      → mem v vs ≡ true
      → resolution_at v (resolve_relation backend model vs) ≡ readable_record model v
  unfolding resolve_relation
  resolution_at-resolve_relation model v vs m =
      resolution_at-resolution_from model v (browse backend model (coerced_pks backend model vs)) vs
      ∙ rw m (found_among-browse model v vs m)

  -- Two lookups agree on values.
  abbrev pub Agree : (ℕ → Option Record) → (ℕ → Option Record) → List ℕ → Type 0
  Agree look look' vs = (v : ℕ) → mem v vs ≡ true → look v ≡ look' v

  split_values-Agree :
      (look look' : ℕ → Option Record) (vs : List ℕ)
      → Agree look look' vs
      → split_values backend look vs ≡ split_values backend look' vs
  split_values-Agree look look' [] h = refl
  split_values-Agree look look' (v ∷ vs) h = rw (h v (ground (arith, ==_refl v))) (
      ap (add_value backend v (look' v))
        (split_values-Agree look look' vs (λ w m. h w (ground (arith, m)))))

  convert_kind-Agree :
      (look look' : ℕ → Option Record) (kind : Kind) (k : ℕ) (v : Value)
      → Agree look look' (relation_values kind v)
      → convert_kind backend look kind k v ≡ convert_kind backend look' kind k v
  convert_kind-Agree look look' column k v h = refl
  convert_kind-Agree look look' reverse_relation k v h = refl
  convert_kind-Agree look look' many_to_many k v h =
      ap (convert_list backend k) (split_values-Agree look look' (values_in v) h)
  convert_kind-Agree look look' foreign_key k null h = refl
  convert_kind-Agree look look' foreign_key k (several vs) h = refl
  convert_kind-Agree look look' foreign_key k (scalar v) h =
      ap (convert_found backend k v) (h v (ground (arith, ==_refl v)))

  find-name :
      (k : ℕ) (fields : List Field) {f : Field}
      → find? (λ (g : Field). g.name == k) fields ≡ some f
      → (k == f.name) ≡ true
  find-name k [] e = absurd (ground (arith, e))
  find-name k (g ∷ fields) {f} e =
      ground (arith, e, find-name k fields {f = f}, eq_of_== g.name k, ==_refl k)

  convert_field-Agree :
      (look look' : Look backend) (k : ℕ) (v : Value)
      → ((f : Field) → (k == f.name) ≡ true → Agree (look f) (look' f) (relation_values f.kind v))
      → convert_field backend look k v ≡ convert_field backend look' k v
  convert_field-Agree look look' k v h = elim (Option-cases (field_by_name backend k)) [
    | inl e ↦ rw (e, convert_field) refl
    | inr (f, e) ↦
        rw (e, convert_field)
          (convert_kind-Agree (look f) (look' f) f.kind k v (h f (find-name k backend.fields e)))
  ]

  -- Two ways to look values up agree on all the values of an item, or of items.
  abbrev pub AgreeOn : Look backend → Look backend → (Field → List ℕ) → Type 0
  AgreeOn look look' values = (f : Field) → Agree (look f) (look' f) (values f)

  pub convert_item-AgreeOn :
      (look look' : Look backend) (index : ℕ) (item : Item) (error : MultiError M)
      → AgreeOn look look' (λ f. item_values backend f item)
      → (convert_item backend look item ≡ convert_item backend look' item)
        × (add_refusals backend look index item error ≡ add_refusals backend look' index item error)
  convert_item-AgreeOn look look' index [] error h = (refl, refl)
  convert_item-AgreeOn look look' index ((k, v) ∷ item) error h =
      let same = convert_field-Agree look look' k v (λ f e w m. h f w (
        ground
          (arith, e, m, mem-union w (relation_values f.kind v) (item_values backend f item)))) in
      let rest =
        convert_item-AgreeOn look look' index item
          (add_if_error backend index (convert_field backend look' k v).1 error)
          (λ f w m. h f w (
            ground
              (arith, m, mem-union w (relation_values f.kind v) (item_values backend f item)))) in
      (
        rw (same, convert_item)
            (ap (put_value backend k (convert_field backend look' k v).0) rest.0),
        rw (same, add_refusals) (rest.1),
      )
