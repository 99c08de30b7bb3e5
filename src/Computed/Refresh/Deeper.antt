-- ===== src/Computed/Refresh/Deeper.antt =====
-- What refreshing the fields of a level makes stale, by depth.
use totem_backend.Base.{
  ℕ, ◌<◌, ◌≡◌, refl, true, false, Option, none, some, List, [], ◌∷◌, ◌==◌, mem, add, map,
  if◌then◌else◌, All, In, head, tail, arith, eq_of_==, subst, sym, ◌∙◌,
}
use totem_backend.Computed.Bindings.{Binding}
use totem_backend.Computed.Depths.{compute_depths, depths}
use totem_backend.Computed.Depths.Outcome.{Describes, compute_depths-Describes}
use totem_backend.Computed.Depths.Reads.{through}
use totem_backend.Computed.Refresh.{
  Schema, Batch, Store, Pending, bindings_for, depth_or_zero, concerned, modified, run_batches,
}
use totem_backend.Computed.Refresh.Marking.{
  AllPending, All-filter, In-filter, resolve-AllPending, meets-map,
}

-- A binding that watches a stored field is a binding of a deeper field.
abbrev pub IsOrdered : Schema → Type 0
IsOrdered schema =
    (f : ℕ) (b : Binding)
    → In b schema.bindings
    → b.watched_model ≡ schema.model_of f
    → mem (schema.name_of f) b.trigger_fields ≡ true
    → depth_or_zero schema.depth f < depth_or_zero schema.depth b.field

-- The stored field of a name, on the model of a field.
abbrev pub IsNaming : (ℕ → ℕ → Option ℕ) → Schema → Type 0
IsNaming stored_fields schema =
    (f : ℕ) → stored_fields (schema.model_of f) (schema.name_of f) ≡ some f

-- The depths that were computed for the bindings order them.
pub compute_depths-IsOrdered :
    (stored_fields : ℕ → ℕ → Option ℕ) (schema : Schema)
    → IsNaming stored_fields schema
    → compute_depths stored_fields schema.bindings ≡ depths schema.depth
    → IsOrdered schema
compute_depths-IsOrdered stored_fields schema naming e f b i watched m =
    let h : Describes stored_fields schema.bindings (depths schema.depth) =
      subst (Describes stored_fields schema.bindings) e
        (compute_depths-Describes stored_fields schema.bindings) in
    let (d, p) = h.0 b i in
    let (c, q, lt) = h.1 b.field f d p (
      through b (schema.name_of f) i refl m
        (subst (λ k. stored_fields k (schema.name_of f) ≡ some f) (sym watched) (naming f))) in
    ground (arith, p, q, lt)

-- The fields of a batch are of its model, and of one depth.
abbrev pub IsOfLevel : Schema → ℕ → Batch → Type 0
IsOfLevel schema level b =
    All (λ f. (schema.model_of f ≡ b.model) × (depth_or_zero schema.depth f ≡ level)) b.fields

pub All-In {ℓ κ} : {A : Type ℓ} (P : A → Type κ) (xs : List A) {x : A} → All P xs → In x xs → P x
All-In P [] h i = elim i [ ]
All-In P (y ∷ ys) h (head e) = subst P e h.0
All-In P (y ∷ ys) h (tail i) = All-In P ys h.1 i

pub All-add : (P : ℕ → Type 0) (k : ℕ) (l : List ℕ) → P k → All P l → All P (add k l)
All-add P k l h hs = elim (mem k l) as (λ c. All P (if c then l else k ∷ l)) [
  | true ↦ hs
  | false ↦ (h, hs)
]

module _ (store : Store) (schema : Schema) (ordered : IsOrdered schema) where
  concerned-deeper :
      (level : ℕ) (b : Batch)
      → IsOfLevel schema level b
      → All
          (λ c. level < depth_or_zero schema.depth c.field)
          (concerned store schema b.model (map schema.name_of b.fields) false)
  concerned-deeper level b h =
      All-filter (λ c. level < depth_or_zero schema.depth c.field) _ (bindings_for schema b.model)
        (λ c i e.
          let (j, w) = In-filter (λ a. a.watched_model == b.model) schema.bindings i in
          let (f, k, m) = meets-map schema.name_of c.trigger_fields b.fields (ground (arith, e)) in
          let (of_model, of_level) = All-In _ b.fields h k in
          subst (λ d. d < depth_or_zero schema.depth c.field) of_level
            (ordered f c j (eq_of_== c.watched_model b.model w ∙ sym of_model) m))

  -- A write of the fields of a batch adds deeper fields only.
  modified-deeper :
      (level : ℕ) (s : store.State) (b : Batch) (pending : Pending)
      → IsOfLevel schema level b
      → AllPending (λ f. level < depth_or_zero schema.depth f) pending
      → AllPending
          (λ f. level < depth_or_zero schema.depth f)
          (modified store schema s b.model b.pks (map schema.name_of b.fields) false pending)
  unfolding modified
  modified-deeper level s b pending h hs =
      let deeper =
        resolve-AllPending store schema (λ f. level < depth_or_zero schema.depth f) s
          (concerned store schema b.model (map schema.name_of b.fields) false) b.pks none pending
          (concerned-deeper level b h) hs in
      ground (arith, hs, deeper)

  pub run_batches-deeper :
      (level : ℕ) (batches : List Batch) (s : store.State) (pending : Pending)
      → All (IsOfLevel schema level) batches
      → AllPending (λ f. level < depth_or_zero schema.depth f) pending
      → AllPending
          (λ f. level < depth_or_zero schema.depth f)
          (run_batches store schema batches (s, pending)).1
  run_batches-deeper level [] s pending h hs = hs
  run_batches-deeper level (b ∷ batches) s pending h hs =
      run_batches-deeper level batches (store.refresh_rows b s) _ h.1
        (modified-deeper level (store.refresh_rows b s) b pending h.0 hs)
