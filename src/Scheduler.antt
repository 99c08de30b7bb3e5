-- ===== src/Scheduler.antt =====
-- `TenantDatabaseScheduler` of src/core/celery/scheduler.py: one scheduler for each active tenant.
-- The scheduler of a tenant is third-party code: loading it, and its tick, are arguments, where
-- `none` is an exception. Databases are only compared: they are numbers. Times are whole seconds.
pub mod Tenants
mod Tests
use totem_backend.Base.{
  ℕ, ◌+◌, Bool, true, false, not, Option, none, some, List, [], ◌∷◌, ◌++◌, ◌==◌, leb, mem, filter,
  is_none, if◌then◌else◌,
}

-- `schedulers`, a dict in insertion order.
abbrev pub Schedulers : Type 0 → Type 0
Schedulers S = List (ℕ × S)

pub record Beat (S : Type 0) : Type 0 where
  pub schedulers : Schedulers S
  pub last_refresh : ℕ

-- `min(intervals, default=…)`
abbrev pub min_of : ℕ → List ℕ → ℕ
min_of d [] = d
min_of d (i ∷ []) = i
min_of d (i ∷ j ∷ is) = let m = min_of d (j ∷ is) in if leb i m then i else m

module _ {S : Type 0} where
  abbrev pub scheduler_of : ℕ → Schedulers S → Option S
  scheduler_of db [] = none
  scheduler_of db ((k, s) ∷ rest) = if k == db then some s else scheduler_of db rest

  -- `_remove_scheduler` of each database that is no tenant any more.
  abbrev pub remove_schedulers : List ℕ → Schedulers S → Schedulers S
  remove_schedulers db_names = filter (λ (e : ℕ × S). mem e.0 db_names)

  -- `_add_scheduler`
  abbrev pub add_scheduler : (ℕ → Option S) → ℕ → Schedulers S → Schedulers S
  add_scheduler load db rest = elim (load db) [ none ↦ rest | some s ↦ rest ++ (db, s) ∷ [] ]

  abbrev pub add_schedulers : (ℕ → Option S) → List ℕ → Schedulers S → Schedulers S
  add_schedulers load [] rest = rest
  add_schedulers load (db ∷ db_names) rest =
      add_schedulers load db_names
        (if is_none (scheduler_of db rest) then add_scheduler load db rest else rest)

  -- `refresh_databases`, at a time, for what `tenant_databases` answered.
  unfoldable pub refresh_databases : (ℕ → Option S) → ℕ → Option (List ℕ) → Beat S → Beat S
  refresh_databases load now none beat = record beat { last_refresh = now }
  refresh_databases load now (some db_names) beat = record {
    schedulers = add_schedulers load db_names (remove_schedulers db_names beat.schedulers);
    last_refresh = now;
  }

  -- The loop of `tick`: the intervals, and the schedulers after their ticks.
  abbrev pub tick_all : (S → S × Option ℕ) → Schedulers S → List ℕ × Schedulers S
  tick_all tick_one [] = ([], [])
  tick_all tick_one ((db, s) ∷ rest) =
      let (intervals, rest') = tick_all tick_one rest in
      let (s', interval) = tick_one s in
      elim interval [
        | none ↦ (intervals, (db, s') ∷ rest')
        | some i ↦ (i ∷ intervals, (db, s') ∷ rest')
      ]

  -- `tick`
  unfoldable pub tick :
      (ℕ → Option S) → (S → S × Option ℕ) → ℕ → ℕ → ℕ → Option (List ℕ) → Beat S → ℕ × Beat S
  tick load tick_one refresh_every max_interval now db_names beat =
      let current : Beat S =
        if leb (beat.last_refresh + refresh_every) now
        then refresh_databases load now db_names beat
        else beat in
      let (intervals, schedulers) = tick_all tick_one current.schedulers in
      (min_of max_interval intervals, record current { schedulers = schedulers })
