-- ===== src/Service/Defaults/Filled.antt =====
-- What the values of a creation are.
use totem_backend.Base.{
  nth, ℕ, zero, suc, ◌≡◌, refl, true, false, ◌&&◌, not, Option, none, some, List, [], ◌∷◌, ◌==◌,
  mem, if◌then◌else◌, arith, eq_of_==, Bool-cases, Option-cases, inl, inr, ap, ◌∙◌, sym, subst,
  mem-union,
}
use totem_backend.Base.Repeats.{is_empty, mem-filter}
use totem_backend.Service.Relations.{Value, Item}
use totem_backend.Service.Defaults.{
  SchemaField, Schemas, Input, value_at, set_value, declared_names, attributes_of, input_values,
  default_of, default_values, unset_names, all_unset, fill, fill_all, all_values, any_unset,
  create_values,
}

abbrev pub or_value : Option Value → Option Value → Option Value
or_value none o = o
or_value (some v) o = some v

-- What a name is created with.
abbrev pub created_value : Schemas → Input → ℕ → Option Value
created_value schemas input k =
    if mem k (declared_names schemas.model_fields)
    then (if mem k input.fields_set
        then input.attribute k
        else or_value (default_of schemas k) (input.attribute k))
    else none

value_at-set_value :
    (k j : ℕ) (v : Value) (item : Item)
    → value_at k (set_value j v item) ≡ (if j == k then some v else value_at k item)
value_at-set_value k j v [] = refl
value_at-set_value k j v ((i, w) ∷ item) = ground (arith, value_at-set_value k j v item)

value_at-attributes_of :
    (k : ℕ) (input : Input) (names : List ℕ)
    → value_at k (attributes_of input names) ≡ (if mem k names then input.attribute k else none)
value_at-attributes_of k input [] = refl
value_at-attributes_of k input (j ∷ names) = elim (Bool-cases (j == k)) [
  | inl e ↦
      let same = ap input.attribute (eq_of_== j k e) in
      elim (Option-cases (input.attribute j)) [
        | inl p ↦ ground (arith, e, p, same, value_at-attributes_of k input names)
        | inr (v, p) ↦ ground (arith, e, p, same)
      ]
  | inr e ↦ elim (Option-cases (input.attribute j)) [
    | inl p ↦ ground (arith, e, p, value_at-attributes_of k input names)
    | inr (v, p) ↦ ground (arith, e, p, value_at-attributes_of k input names)
  ]
]

value_at-fill :
    (schemas : Schemas) (k : ℕ) (names unset : List ℕ) (item : Item)
    → value_at k (fill (default_values schemas names) unset item) ≡ (
        if mem k unset && mem k names
        then or_value (default_of schemas k) (value_at k item)
        else value_at k item)
unfolding default_values
value_at-fill schemas k [] unset item = ground arith
value_at-fill schemas k (j ∷ names) unset item = elim (Option-cases (default_of schemas j)) [
  | inl p ↦ rw (p) (
      value_at-fill schemas k names unset item ∙ elim (Bool-cases (k == j)) [
        | inl e ↦
            let none_here : default_of schemas k ≡ none =
              ap (default_of schemas) (eq_of_== k j e) ∙ p in
            rw (none_here) (ground (arith, e))
        | inr e ↦ ground (arith, e)
      ])
  | inr (v, p) ↦ rw (p) (elim (Bool-cases (mem j unset)) [
    | inl u ↦ rw (u) (
        value_at-fill schemas k names unset (set_value j v item) ∙ elim (Bool-cases (k == j)) [
          | inl e ↦
              let here : default_of schemas k ≡ some v =
                ap (default_of schemas) (eq_of_== k j e) ∙ p in
              rw (here) (
                ground (
                  arith,
                  e,
                  u,
                  ap (λ i. mem i unset) (eq_of_== k j e),
                  value_at-set_value k j v item,
                ))
          | inr e ↦ rw (value_at-set_value k j v item) (ground (arith, e))
        ])
    | inr u ↦ rw (u) (
        value_at-fill schemas k names unset item ∙ elim (Bool-cases (k == j)) [
          | inl e ↦ ground (arith, e, u, ap (λ i. mem i unset) (eq_of_== k j e))
          | inr e ↦ ground (arith, e)
        ])
  ])
]

-- A list of values that holds, at a place, the values of an input.
abbrev Holds : Schemas → Input → List Item → ℕ → Type 0
Holds schemas input items i =
    (item : Item) × (nth items i ≡ some item)
    × ((k : ℕ) → value_at k item ≡ created_value schemas input k)

mem-unset_names :
    (k : ℕ) (fields : List SchemaField) (input : Input)
    → mem k (unset_names fields input)
      ≡ (mem k (declared_names fields) && not (mem k input.fields_set))
mem-unset_names k fields input =
    mem-filter k (λ j. not (mem j input.fields_set)) (declared_names fields)

fill_all-Holds :
    (schemas : Schemas) (names : List ℕ) (inputs : List Input) (i : ℕ) {input : Input}
    → nth inputs i ≡ some input
    → ((k : ℕ) → mem k (unset_names schemas.model_fields input) ≡ true → mem k names ≡ true)
    → Holds schemas input (fill_all schemas.model_fields (default_values schemas names) inputs) i
fill_all-Holds schemas names [] i e all = absurd (ground (arith, e))
fill_all-Holds schemas names (x ∷ inputs) zero {input} e all =
    let same : x ≡ input = ground (arith, e) in
    subst
      (λ (y : Input).
        Holds schemas y (fill_all schemas.model_fields (default_values schemas names) (x ∷ inputs))
          zero)
      same
      (
        fill (default_values schemas names) (unset_names schemas.model_fields x)
            (input_values schemas.model_fields x false),
        refl,
        λ k.
            value_at-fill schemas k names (unset_names schemas.model_fields x)
              (input_values schemas.model_fields x false)
            ∙ filled k (
                subst
                  (λ (y : Input).
                    mem k (unset_names schemas.model_fields y) ≡ true → mem k names ≡ true)
                  (sym same) (all k)),
      )
  where
    filled :
        (k : ℕ)
        → (mem k (unset_names schemas.model_fields x) ≡ true → mem k names ≡ true)
        → (if mem k (unset_names schemas.model_fields x) && mem k names
            then or_value
                (default_of schemas k)
                (value_at k (input_values schemas.model_fields x false))
            else value_at k (input_values schemas.model_fields x false))
          ≡ created_value schemas x k
    filled k known = ground (
      arith,
      known,
      mem-unset_names k schemas.model_fields x,
      value_at-attributes_of k x (declared_names schemas.model_fields),
    )
fill_all-Holds schemas names (x ∷ inputs) (suc i) {input} e all =
    fill_all-Holds schemas names inputs i {input = input} e all

all_unset-mem :
    (fields : List SchemaField) (inputs : List Input) (i k : ℕ) {input : Input}
    → nth inputs i ≡ some input
    → mem k (unset_names fields input) ≡ true
    → mem k (all_unset fields inputs) ≡ true
all_unset-mem fields [] i k e m = absurd (ground (arith, e))
all_unset-mem fields (x ∷ inputs) zero k {input} e m =
    mem-union k (unset_names fields x) (all_unset fields inputs)
    ∙ ground (
      arith,
      subst (λ (y : Input). mem k (unset_names fields y) ≡ true) {x = input} {y = x}
          (ground (arith, e)) m,
    )
all_unset-mem fields (x ∷ inputs) (suc i) k {input} e m =
    mem-union k (unset_names fields x) (all_unset fields inputs)
    ∙ ground (arith, all_unset-mem fields inputs i k {input = input} e m)

mem-is_empty : (k : ℕ) (l : List ℕ) → is_empty l ≡ true → mem k l ≡ false
mem-is_empty k [] h = refl
mem-is_empty k (x ∷ l) h = absurd (ground (arith, h))

all_values-Holds :
    (schemas : Schemas) (inputs : List Input) (i : ℕ) {input : Input}
    → nth inputs i ≡ some input
    → any_unset schemas.model_fields inputs ≡ false
    → Holds schemas input (all_values schemas.model_fields inputs) i
all_values-Holds schemas [] i e h = absurd (ground (arith, e))
all_values-Holds schemas (x ∷ inputs) zero {input} e h =
    subst (λ (y : Input). Holds schemas y (all_values schemas.model_fields (x ∷ inputs)) zero)
      {x = x} {y = input} (ground (arith, e))
      (
        input_values schemas.model_fields x false,
        refl,
        λ k. ground (
          arith,
          value_at-attributes_of k x (declared_names schemas.model_fields),
          mem-unset_names k schemas.model_fields x,
          mem-is_empty k (unset_names schemas.model_fields x) (ground (arith, h)),
        ),
      )
all_values-Holds schemas (x ∷ inputs) (suc i) {input} e h =
    all_values-Holds schemas inputs i {input = input} e (ground (arith, h))

-- A creation takes each field of its schema that an input gives from the input, even a null, and any
-- other from the defaults of the service, or from the schema when it has none there; nothing else.
pub value_at-create_values :
    (schemas : Schemas) (inputs : List Input) (i : ℕ) {input : Input}
    → nth inputs i ≡ some input
    → (item : Item) × (nth (create_values schemas inputs) i ≡ some item)
      × ((k : ℕ) → value_at k item ≡ created_value schemas input k)
unfolding create_values
value_at-create_values schemas inputs i {input} e =
    elim (Bool-cases (any_unset schemas.model_fields inputs)) [
      | inl u ↦ rw (u) (
          fill_all-Holds schemas (all_unset schemas.model_fields inputs) inputs i {input = input} e
            (λ k m. all_unset-mem schemas.model_fields inputs i k {input = input} e m))
      | inr u ↦ rw (u) (all_values-Holds schemas inputs i {input = input} e u)
    ]
