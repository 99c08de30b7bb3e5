-- ===== src/Computed/Refresh.antt =====
-- `RefreshComputedFieldsContext` of src/core/orm/fields/computed/context.py: what the writes of a
-- unit of work made stale, and its refresh. The database is the record `Store`: reading the roots of
-- a lookup, and recomputing the fields of some rows (`bulk_refresh_fields`).
pub mod Marking
pub mod Deeper
pub mod Covered
pub mod Flushed
use totem_backend.Base.{
  ℕ, zero, suc, Bool, true, false, ◌&&◌, ◌||◌, not, Option, none, some, List, [], ◌∷◌, ◌==◌, leb,
  add, union, filter, map, any, is_none, if◌then◌else◌,
}
use totem_backend.Computed.Bindings.{Binding, is_local, same_path, meets}
use totem_backend.Computed.Depths.{Memo, depth_of?}

-- The registry, and the stored computed fields of the models.
pub record Schema : Type 0 where
  pub bindings : List Binding
  pub depth : Memo
  pub model_of : ℕ → ℕ
  pub name_of : ℕ → ℕ
  pub stored : ℕ → List ℕ

-- Rows of one model, refreshed by one statement.
pub record Batch : Type 0 where
  pub model : ℕ
  pub fields : List ℕ
  pub pks : List ℕ

pub record Store : Type 1 where
  pub State : Type 0
  pub lookup_roots : State → Binding → List ℕ → List ℕ
  pub refresh_rows : Batch → State → State

-- A row that was just inserted: its key, and the values of its foreign keys.
pub record Instance : Type 0 where
  pub pk : Option ℕ
  pub foreign_key : ℕ → Option ℕ

-- `_pending`: the keys of the rows on which a stored field is stale.
abbrev pub Pending : Type 0
Pending = List (ℕ × List ℕ)

-- `self._pending[field].update(pks)`
abbrev pub mark : ℕ → List ℕ → Pending → Pending
mark f pks [] = (f, pks) ∷ []
mark f pks ((g, old) ∷ pending) =
    if g == f then (g, union pks old) ∷ pending else (g, old) ∷ mark f pks pending

-- `_add`
abbrev pub add_roots : ℕ → List ℕ → Pending → Pending
add_roots f [] pending = pending
add_roots f (pk ∷ pks) pending = mark f (pk ∷ pks) pending

abbrev pub known : List (Option ℕ) → List ℕ
known [] = []
known (none ∷ os) = known os
known (some pk ∷ os) = add pk (known os)

abbrev pub bindings_for : Schema → ℕ → List Binding
bindings_for schema model = filter (λ b. b.watched_model == model) schema.bindings

-- `depth.get(field, 0)`
abbrev pub depth_or_zero : Memo → ℕ → ℕ
depth_or_zero memo f = elim (depth_of? f memo) [ none ↦ 0 | some d ↦ d ]

-- The roots that were resolved already, by root model and path.
abbrev pub Resolved : Type 0
Resolved = List ((ℕ × List ℕ) × List ℕ)

abbrev pub resolved : ℕ → List ℕ → Resolved → Option (List ℕ)
resolved m path [] = none
resolved m path (((k, p), pks) ∷ cache) =
    if k == m && same_path p path then some pks else resolved m path cache

module _ (store : Store) (schema : Schema) where
  abbrev foreign_keys : ℕ → List Instance → List (Option ℕ)
  foreign_keys attname [] = []
  foreign_keys attname (i ∷ is) = i.foreign_key attname ∷ foreign_keys attname is

  -- `_roots`, less the `None`s that `_add` drops.
  abbrev pub roots : store.State → Binding → List ℕ → Option (List Instance) → List ℕ
  roots s b pks none = if is_local b then pks else store.lookup_roots s b pks
  roots s b pks (some instances) = if is_local b then pks else elim b.fk_attname [
    | some attname ↦ known (foreign_keys attname instances)
    | none ↦ store.lookup_roots s b pks
  ]

  abbrev resolve_with :
      store.State → List ℕ → Option (List Instance) → Resolved → List Binding → Pending → Pending
  resolve_with s pks instances cache [] pending = pending
  resolve_with s pks instances cache (b ∷ bindings) pending =
      let found : List ℕ = elim (resolved b.root_model b.path cache) [
        | some pks ↦ pks
        | none ↦ roots s b pks instances
      ] in
      resolve_with s pks instances (((b.root_model, b.path), found) ∷ cache) bindings
        (add_roots b.field found pending)

  -- `_resolve`
  unfoldable pub resolve :
      store.State → List Binding → List ℕ → Option (List Instance) → Pending → Pending
  resolve s bindings pks instances pending = resolve_with s pks instances [] bindings pending

  -- `_existence_changed`
  unfoldable pub existence_changed :
      store.State → ℕ → List ℕ → Option (List Instance) → Pending → Pending
  unfolding resolve
  existence_changed s model pks instances pending =
      resolve s (filter (λ b. b.on_existence && not (is_local b)) (bindings_for schema model)) pks
        instances pending

  abbrev pub mark_all : List ℕ → List ℕ → Pending → Pending
  mark_all [] pks pending = pending
  mark_all (f ∷ fields) pks pending = mark_all fields pks (mark f pks pending)

  abbrev with_pk : List Instance → List Instance
  with_pk [] = []
  with_pk (i ∷ is) = if is_none i.pk then with_pk is else i ∷ with_pk is

  abbrev pks_of : List Instance → List (Option ℕ)
  pks_of [] = []
  pks_of (i ∷ is) = i.pk ∷ pks_of is

  abbrev created_with : store.State → ℕ → List Instance → Pending → Pending
  created_with s model [] pending = pending
  created_with s model (i ∷ is) pending =
      let pks = known (pks_of (i ∷ is)) in
      existence_changed s model pks (some (i ∷ is)) (mark_all (schema.stored model) pks pending)

  -- `created`, on rows of one model.
  unfoldable pub created : store.State → ℕ → List Instance → Pending → Pending
  unfolding existence_changed
  created s model instances pending = created_with s model (with_pk instances) pending

  -- The bindings that a write of these fields concerns.
  abbrev pub concerned : ℕ → List ℕ → Bool → List Binding
  concerned model update_fields before =
      filter
        (λ b.
          meets b.trigger_fields update_fields
          && (not before || meets b.membership_fields update_fields))
        (bindings_for schema model)

  abbrev is_empty_list : List ℕ → Bool
  is_empty_list [] = true
  is_empty_list (x ∷ xs) = false

  -- `modified`
  unfoldable pub modified : store.State → ℕ → List ℕ → List ℕ → Bool → Pending → Pending
  modified s model pks update_fields before pending =
      if is_empty_list pks || is_empty_list update_fields
      then pending
      else resolve s (concerned model update_fields before) pks none pending

  unfoldable pub has_relation_to_modify : ℕ → List ℕ → Bool
  has_relation_to_modify model update_fields =
      any (λ b. meets b.membership_fields update_fields) (bindings_for schema model)

  -- The least depth of a pending field, below a first one.
  abbrev pub least : ℕ → Pending → ℕ
  least d [] = d
  least d ((f, pks) ∷ pending) =
      let e = depth_or_zero schema.depth f in least (if leb d e then d else e) pending

  abbrev pub at_level : ℕ → Pending → Pending
  at_level level = filter (λ (e : ℕ × List ℕ). depth_or_zero schema.depth e.0 == level)

  abbrev pub off_level : ℕ → Pending → Pending
  off_level level = filter (λ (e : ℕ × List ℕ). not (depth_or_zero schema.depth e.0 == level))

  -- `batch[field.model]`: the field and its rows join the batch of its model.
  abbrev pub put_batch : ℕ → List ℕ → List Batch → List Batch
  put_batch f pks [] = record { model = schema.model_of f; fields = f ∷ []; pks = pks } ∷ []
  put_batch f pks (b ∷ batches) =
      if b.model == schema.model_of f
      then record b { fields = add f b.fields; pks = union pks b.pks } ∷ batches
      else b ∷ put_batch f pks batches

  abbrev pub batches_of : Pending → List Batch → List Batch
  batches_of [] batches = batches
  batches_of ((f, pks) ∷ pending) batches = batches_of pending (put_batch f pks batches)

  abbrev pub run_batches : List Batch → store.State × Pending → store.State × Pending
  run_batches [] (s, pending) = (s, pending)
  run_batches (b ∷ batches) (s, pending) =
      let s' = store.refresh_rows b s in
      run_batches batches
        (s', modified s' b.model b.pks (map schema.name_of b.fields) false pending)

  -- One turn of the loop of `flush`: the level, its batches, and what follows.
  pub record Round : Type 0 where
    pub level : ℕ
    pub batches : List Batch

  abbrev pub round_of : ℕ → Pending → Round
  round_of level pending = record {
    level = level;
    batches = batches_of (at_level level pending) [];
  }

  abbrev pub level_of : ℕ → List ℕ → Pending → ℕ
  level_of f pks pending = least (depth_or_zero schema.depth f) pending

  -- `flush` on fuel: the rounds and the final state; `none` if work is left when the fuel is out.
  unfoldable pub flush : ℕ → store.State → Pending → Option (List Round × store.State)
  flush fuel s [] = some ([], s)
  flush zero s (e ∷ pending) = none
  flush (suc fuel) s ((f, pks) ∷ pending) =
      let level = level_of f pks pending in
      let round = round_of level ((f, pks) ∷ pending) in
      let (s', pending') = run_batches round.batches (s, off_level level ((f, pks) ∷ pending)) in
      elim (flush fuel s' pending') [
        | none ↦ none
        | some (rounds, last) ↦ some (round ∷ rounds, last)
      ]
