-- ===== src/Computed/Tests.antt =====
-- The depths and the refresh of the computed fields of a small schema.
use totem_backend.Base.{
  ℕ, ◌≡◌, refl, arith, map, ◌++◌, ◌==◌, true, false, Option, none, some, List, [], ◌∷◌, ◌&&◌,
  if◌then◌else◌,
}
use totem_backend.Computed.Bindings.{Binding}
use totem_backend.Computed.Depths.{compute_depths, depths, visit}
use totem_backend.Computed.Depths.Outcome.{Describes, compute_depths-Describes}
use totem_backend.Computed.Refresh.{Schema, Batch, Store, Pending, Round, flush}
use totem_backend.Computed.Refresh.Covered.{AllStale, is_refreshed}
use totem_backend.Computed.Refresh.{mark}
use totem_backend.Computed.Refresh.Flushed.{IsRising, apply_rounds, flush_refreshes}
use totem_backend.Computed.UnitOfWork.{Block, done, write, inner, run, fresh}
use totem_backend.Computed.UnitOfWork.Joined.{writes_of, run-refreshes}

abbrev watching : ℕ → ℕ → ℕ → Binding
watching field model name = record {
  root_model = 1;
  field = field;
  watched_model = model;
  path = 4 ∷ [];
  trigger_fields = name ∷ [];
  membership_fields = [];
  on_existence = true;
  fk_attname = none;
}

-- Field 20 reads field 10 of model 2 under the name 6, and field 10 reads a plain column.
abbrev two_bindings : List Binding
two_bindings = watching 20 2 6 ∷ watching 10 3 8 ∷ []

abbrev stored : ℕ → ℕ → Option ℕ
stored model name = if model == 2 && name == 6 then some 10 else none

compute_depths-Describes_example :
    Describes stored two_bindings (compute_depths stored two_bindings)
compute_depths-Describes_example = compute_depths-Describes stored two_bindings

-- A schema where each model has one stored field, of its own number, under the name 6. Field 20
-- reads field 10.
abbrev one_each : ℕ → ℕ → Option ℕ
one_each model name = some model

abbrev small : Schema
small = record {
  bindings = watching 20 10 6 ∷ [];
  depth = (20, 1) ∷ (10, 0) ∷ [];
  model_of = λ f. f;
  name_of = λ f. 6;
  stored = λ model. model ∷ [];
}

-- A database that only remembers what was refreshed.
abbrev refreshes : Store
refreshes = record {
  State = List Batch;
  lookup_roots = λ s b pks. map (λ pk. 100) pks;
  refresh_rows = λ b s. s ++ b ∷ [];
}

small_depths : compute_depths one_each small.bindings ≡ depths small.depth
unfolding compute_depths visit
small_depths = refl

abbrev two_stale : Pending
two_stale = (20, 3 ∷ []) ∷ (10, 4 ∷ 5 ∷ []) ∷ []

flush_refreshes_example :
    (rounds : List (Round refreshes small)) × (last : List Batch) × (flush refreshes small 2 []
        two_stale
      ≡ some (rounds, last))
    × IsRising refreshes small 0 rounds
    × AllStale (λ f pk. is_refreshed refreshes small f pk rounds ≡ true) two_stale
    × (last ≡ apply_rounds refreshes small rounds [])
flush_refreshes_example =
    flush_refreshes one_each refreshes small 2 [] two_stale (λ f. refl) small_depths (omega arith)

-- A write, and another one in a block that raises within.
abbrev two_writes : Block (List Batch)
two_writes =
    write (λ (s, pending). (s, mark 20 (3 ∷ []) pending))
      (inner true (write (λ (s, pending). (s, mark 10 (4 ∷ []) pending)) done) done)

run-refreshes_example :
    ((rounds : List (Round refreshes small)) × (last : List Batch) × (flush refreshes small 2
          (writes_of two_writes ([], [])).0
          (writes_of two_writes ([], [])).1
        ≡ some (rounds, last))
      × (run refreshes small 2 (inner false two_writes done) (fresh refreshes small 2 [])
          ≡ some (fresh refreshes small 2 last))
      × IsRising refreshes small 0 rounds
      × AllStale
          (λ f pk. is_refreshed refreshes small f pk rounds ≡ true)
          (writes_of two_writes ([], [])).1
      × (last ≡ apply_rounds refreshes small rounds (writes_of two_writes ([], [])).0))
    × (run refreshes small 2 (inner true two_writes done) (fresh refreshes small 2 [])
        ≡ some (fresh refreshes small 2 (writes_of two_writes ([], [])).0))
run-refreshes_example =
    run-refreshes one_each refreshes small 2 two_writes [] (λ f. refl) small_depths (omega arith)
