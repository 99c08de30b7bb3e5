-- ===== src/Scheduler/Tests.antt =====
-- The schedulers of src/core/celery/scheduler.py, when a tenant comes and another goes.
use totem_backend.Base.{ℕ, ◌+◌, ◌≡◌, Option, none, some, [], ◌∷◌, ◌==◌, mem, if◌then◌else◌}
use totem_backend.Scheduler.{scheduler_of, Beat, refresh_databases}
use totem_backend.Scheduler.Tenants.{first_some, scheduler_of-refresh_databases}

abbrev load_but_three : ℕ → Option ℕ
load_but_three db = if db == 3 then none else some (db + 10)

abbrev two_tenants : Beat ℕ
two_tenants = record { schedulers = (1, 100) ∷ (2, 200) ∷ []; last_refresh = 0 }

scheduler_of-refresh_databases_example :
    scheduler_of 4
      (refresh_databases load_but_three 60 (some (2 ∷ 3 ∷ 4 ∷ [])) two_tenants).schedulers
    ≡ (if mem 4 (2 ∷ 3 ∷ 4 ∷ [])
        then first_some (scheduler_of 4 two_tenants.schedulers) (load_but_three 4)
        else none)
scheduler_of-refresh_databases_example =
    scheduler_of-refresh_databases load_but_three 60 4 (some (2 ∷ 3 ∷ 4 ∷ [])) two_tenants
