-- ===== src/Computed/UnitOfWork.antt =====
-- `__enter__` and `__exit__` of `RefreshComputedFieldsContext`,
-- src/core/orm/fields/computed/context.py, and `refresh_computed_for_created`: blocks that share a
-- context. A block is its writes and its inner blocks, in the order they run; a block that raises
-- ends there, and what is around it may catch the exception. `flush` is on fuel: `none` is out of it.
pub mod Joined
use totem_backend.Base.{
  ℕ, zero, suc, ◌-◌, Bool, true, false, Option, none, some, List, [], ◌∷◌, ◌==◌, if◌then◌else◌,
}
use totem_backend.Computed.Refresh.{Schema, Store, Instance, Pending, Round, created, flush}

-- A write changes the database, and declares what it did.
pub data Block (S : Type 0) : Type 0 where
  done : Block S
  write : (S × Pending → S × Pending) → Block S → Block S
  inner : Bool → Block S → Block S → Block S

-- The context, and the database.
pub record WorkUnit (S : Type 0) : Type 0 where
  pub pending : Pending
  pub nesting : ℕ
  pub state : S

-- `__enter__`
abbrev pub enter : {S : Type 0} → WorkUnit S → WorkUnit S
enter u = record u { nesting = suc u.nesting }

-- `self._pending.clear()`
abbrev pub drop_pending : {S : Type 0} → WorkUnit S → WorkUnit S
drop_pending u = record u { pending = [] }

abbrev pub write_in : {S : Type 0} → S × Pending → ℕ → WorkUnit S
write_in (s, pending) n = record { pending = pending; nesting = n; state = s }

module _ (store : Store) (schema : Schema) (fuel : ℕ) where
  abbrev pub flushed :
      Option (List (Round store schema) × store.State)
      → WorkUnit store.State
      → Option (WorkUnit store.State)
  flushed none u = none
  flushed (some (rounds, last)) u = some record u { pending = []; state = last }

  -- `__exit__`, of a block that raised or not.
  unfoldable pub exit : Bool → WorkUnit store.State → Option (WorkUnit store.State)
  exit raised u =
      let left = record u { nesting = u.nesting - 1 } in
      if left.nesting == 0
      then (if raised
          then some (drop_pending left)
          else flushed (flush store schema fuel u.state u.pending) left)
      else some left

  abbrev and_next :
      Option (WorkUnit store.State)
      → (WorkUnit store.State → Option (WorkUnit store.State))
      → Option (WorkUnit store.State)
  and_next none next = none
  and_next (some u) next = next u

  -- `with context: …`, each block within the one around it.
  unfoldable pub run : Block store.State → WorkUnit store.State → Option (WorkUnit store.State)
  run done u = some u
  run (write step rest) u = run rest (write_in (step (u.state, u.pending)) u.nesting)
  run (inner raised block rest) u =
      and_next (run block (enter u)) (λ v. and_next (exit raised v) (λ w. run rest w))

  -- A context that is not entered yet.
  abbrev pub fresh : store.State → WorkUnit store.State
  fresh s = record { pending = []; nesting = 0; state = s }

  -- `refresh_computed_for_created`
  unfoldable pub refresh_computed_for_created :
      ℕ → List Instance → store.State → Option (WorkUnit store.State)
  unfolding run
  refresh_computed_for_created model instances s =
      run
        (inner false
          (write (λ (t, pending). (t, created store schema t model instances pending)) done) done)
        (fresh s)
