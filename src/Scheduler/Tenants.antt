-- ===== src/Scheduler/Tenants.antt =====
-- Which tenants have a scheduler after a refresh.
use totem_backend.Base.{
  ℕ, ◌≡◌, refl, true, Option, none, some, List, [], ◌∷◌, ◌++◌, ◌==◌, mem, is_none, if◌then◌else◌,
  arith, ==_refl, eq_of_==, ◌∙◌, ap, Option-cases, inl, inr,
}
use totem_backend.Scheduler.{
  Schedulers, scheduler_of, Beat, remove_schedulers, add_scheduler, add_schedulers,
  refresh_databases,
}

-- The first of two optional values.
abbrev pub first_some {ℓ} : {A : Type ℓ} → Option A → Option A → Option A
first_some none o = o
first_some (some a) o = some a

module _ {S : Type 0} where
  scheduler_of-snoc :
      (db k : ℕ) (s : S) (rest : Schedulers S)
      → scheduler_of db (rest ++ (k, s) ∷ [])
        ≡ first_some (scheduler_of db rest) (if k == db then some s else none)
  scheduler_of-snoc db k s [] = ground arith
  scheduler_of-snoc db k s ((j, t) ∷ rest) = ground (arith, scheduler_of-snoc db k s rest)

  scheduler_of-remove_schedulers :
      (db : ℕ) (db_names : List ℕ) (rest : Schedulers S)
      → scheduler_of db (remove_schedulers db_names rest)
        ≡ (if mem db db_names then scheduler_of db rest else none)
  scheduler_of-remove_schedulers db db_names [] = ground arith
  scheduler_of-remove_schedulers db db_names ((k, s) ∷ rest) = ground (
    arith,
    scheduler_of-remove_schedulers db db_names rest,
    λ (e : (k == db) ≡ true). ap (λ j. mem j db_names) (eq_of_== k db e),
  )

  scheduler_of-add_scheduler :
      (load : ℕ → Option S) (db k : ℕ) (rest : Schedulers S)
      → scheduler_of db (add_scheduler load k rest)
        ≡ first_some (scheduler_of db rest) (if k == db then load k else none)
  scheduler_of-add_scheduler load db k rest = elim (Option-cases (load k)) [
    | inl p ↦ rw (p, add_scheduler) (ground arith)
    | inr (s, p) ↦ rw (p, add_scheduler) (scheduler_of-snoc db k s rest)
  ]

  scheduler_of-add_schedulers :
      (load : ℕ → Option S) (db : ℕ) (db_names : List ℕ) (rest : Schedulers S)
      → scheduler_of db (add_schedulers load db_names rest)
        ≡ first_some (scheduler_of db rest) (if mem db db_names then load db else none)
  scheduler_of-add_schedulers load db [] rest = ground arith
  scheduler_of-add_schedulers load db (k ∷ db_names) rest =
      let rest' : Schedulers S =
        if is_none (scheduler_of k rest) then add_scheduler load k rest else rest in
      scheduler_of-add_schedulers load db db_names rest'
      ∙ ground (
        arith,
        scheduler_of-add_scheduler load db k rest,
        eq_of_== k db,
        ==_refl db,
        λ (e : (k == db) ≡ true). ap load (eq_of_== k db e),
        λ (e : (k == db) ≡ true). ap (λ j. scheduler_of j rest) (eq_of_== k db e),
      )

  -- After a refresh that could read the list of tenants, a tenant keeps the scheduler that it had, or
  -- gets the one that loads; a database that is no tenant has none. When the list could not be read,
  -- each keeps what it has.
  pub scheduler_of-refresh_databases :
      (load : ℕ → Option S) (now db : ℕ) (db_names : Option (List ℕ)) (beat : Beat S)
      → scheduler_of db (refresh_databases load now db_names beat).schedulers
        ≡ (elim db_names as (λ _. Option S) [
          | none ↦ scheduler_of db beat.schedulers
          | some names ↦
              if mem db names then first_some (scheduler_of db beat.schedulers) (load db) else none
        ])
  unfolding refresh_databases
  scheduler_of-refresh_databases load now db none beat = refl
  scheduler_of-refresh_databases load now db (some names) beat =
      scheduler_of-add_schedulers load db names (remove_schedulers names beat.schedulers)
      ∙ ground (arith, scheduler_of-remove_schedulers db names beat.schedulers)
