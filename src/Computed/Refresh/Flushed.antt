-- ===== src/Computed/Refresh/Flushed.antt =====
-- The end of `flush` of src/core/orm/fields/computed/context.py, and the order of its rounds.
use totem_backend.Base.{
  ℕ, zero, suc, ◌+◌, ◌≤◌, ◌<◌, max, ◌≡◌, refl, true, Option, some, List, [], ◌∷◌, ◌==◌, leb,
  if◌then◌else◌, All, arith, Bool-cases, inl, inr, eq_of_==, sym, ap, ◌∙◌,
}
use totem_backend.Computed.Depths.{Memo, compute_depths, depths}
use totem_backend.Computed.Refresh.{
  Schema, Batch, Store, Pending, Round, depth_or_zero, least, level_of, at_level, off_level,
  put_batch, batches_of, run_batches, flush,
}
use totem_backend.Computed.Refresh.Marking.{AllPending, All-filter}
use totem_backend.Computed.Refresh.Deeper.{
  IsOrdered, IsNaming, IsOfLevel, All-add, compute_depths-IsOrdered, run_batches-deeper,
}
use totem_backend.Computed.Refresh.Covered.{
  AllStale, AllStale-of_is_stale, is_refreshed, is_refreshed-flush,
}

-- The greatest depth that is recorded.
abbrev pub deepest : Memo → ℕ
deepest [] = 0
deepest ((f, d) ∷ memo) = max d (deepest memo)

depth_or_zero-deepest : (memo : Memo) (f : ℕ) → depth_or_zero memo f ≤ deepest memo
depth_or_zero-deepest [] f = omega arith
depth_or_zero-deepest ((g, d) ∷ memo) f = ground (arith, depth_or_zero-deepest memo f)

All-map_in {ℓ κ ι} :
    {A : Type ℓ} {P : A → Type κ} {Q : A → Type ι} (xs : List A)
    → ((x : A) → P x → Q x)
    → All P xs
    → All Q xs
All-map_in [] h hs = tt
All-map_in (x ∷ xs) h hs = (h x hs.0, All-map_in xs h hs.1)

module _ (store : Store) (schema : Schema) where
  least-le : (d : ℕ) (pending : Pending) → least store schema d pending ≤ d
  least-le d [] = omega arith
  least-le d ((f, pks) ∷ pending) =
      let e = depth_or_zero schema.depth f in
      ground (arith, least-le (if leb d e then d else e) pending)

  least-All :
      (d : ℕ) (pending : Pending)
      → AllPending (λ f. least store schema d pending ≤ depth_or_zero schema.depth f) pending
  least-All d [] = tt
  least-All d ((f, pks) ∷ pending) =
      let e = depth_or_zero schema.depth f in
      (
        ground (arith, least-le (if leb d e then d else e) pending),
        least-All (if leb d e then d else e) pending,
      )

  le-least :
      (k d : ℕ) (pending : Pending)
      → k ≤ d
      → AllPending (λ f. k ≤ depth_or_zero schema.depth f) pending
      → k ≤ least store schema d pending
  le-least k d [] h hs = h
  le-least k d ((f, pks) ∷ pending) h hs =
      let e = depth_or_zero schema.depth f in
      le-least k (if leb d e then d else e) pending (ground (arith, h, hs.0)) hs.1

  at_level-All :
      (level : ℕ) (pending : Pending)
      → AllPending (λ f. depth_or_zero schema.depth f ≡ level) (at_level store schema level pending)
  at_level-All level pending =
      All-filter (λ e. depth_or_zero schema.depth e.0 ≡ level) _ pending
        (λ e i q. eq_of_== (depth_or_zero schema.depth e.0) level q)

  off_level-All :
      (level : ℕ) (pending : Pending)
      → AllPending (λ f. level ≤ depth_or_zero schema.depth f) pending
      → AllPending
          (λ f. level < depth_or_zero schema.depth f)
          (off_level store schema level pending)
  off_level-All level [] hs = tt
  off_level-All level ((f, pks) ∷ pending) hs =
      ground (arith, hs.0, off_level-All level pending hs.1)

  put_batch-IsOfLevel :
      (level f : ℕ) (pks : List ℕ) (batches : List Batch)
      → depth_or_zero schema.depth f ≡ level
      → All (IsOfLevel schema level) batches
      → All (IsOfLevel schema level) (put_batch store schema f pks batches)
  put_batch-IsOfLevel level f pks [] e hs = (((refl, e), tt), tt)
  put_batch-IsOfLevel level f pks (b ∷ batches) e hs =
      elim (Bool-cases (b.model == schema.model_of f)) [
        | inl q ↦ rw q (
          All-add (λ g. (schema.model_of g ≡ b.model) × (depth_or_zero schema.depth g ≡ level)) f
              b.fields (sym (eq_of_== b.model (schema.model_of f) q), e) hs.0,
          hs.1,
        )
        | inr q ↦ rw q (hs.0, put_batch-IsOfLevel level f pks batches e hs.1)
      ]

  batches_of-IsOfLevel :
      (level : ℕ) (pending : Pending) (batches : List Batch)
      → AllPending (λ f. depth_or_zero schema.depth f ≡ level) pending
      → All (IsOfLevel schema level) batches
      → All (IsOfLevel schema level) (batches_of store schema pending batches)
  batches_of-IsOfLevel level [] batches h hs = hs
  batches_of-IsOfLevel level ((f, pks) ∷ pending) batches h hs =
      batches_of-IsOfLevel level pending _ h.1 (put_batch-IsOfLevel level f pks batches h.0 hs)

  -- Each round is of a depth that is at least `k` and more than those of the rounds before, and its
  -- batches hold fields of their model and of that depth.
  abbrev pub IsRising : ℕ → List (Round store schema) → Type 0
  IsRising k [] = Unit
  IsRising k (r ∷ rounds) =
      (k ≤ r.level) × All (IsOfLevel schema r.level) r.batches × IsRising (suc r.level) rounds

  -- The database after the refreshes of some batches, in their order, and of some rounds.
  abbrev pub apply_batches : List Batch → store.State → store.State
  apply_batches [] s = s
  apply_batches (b ∷ batches) s = apply_batches batches (store.refresh_rows b s)

  abbrev pub apply_rounds : List (Round store schema) → store.State → store.State
  apply_rounds [] s = s
  apply_rounds (r ∷ rounds) s = apply_rounds rounds (apply_batches r.batches s)

  run_batches-apply_batches :
      (batches : List Batch) (s : store.State) (pending : Pending)
      → (run_batches store schema batches (s, pending)).0 ≡ apply_batches batches s
  run_batches-apply_batches [] s pending = refl
  run_batches-apply_batches (b ∷ batches) s pending =
      run_batches-apply_batches batches (store.refresh_rows b s) _

  Ends : ℕ → ℕ → store.State → Pending → Type 0
  Ends fuel k s pending =
      (rounds : List (Round store schema)) × (last : store.State) × (flush store schema fuel s
          pending
        ≡ some (rounds, last))
      × IsRising k rounds
      × (last ≡ apply_rounds rounds s)

  flush-Ends :
      (fuel k : ℕ) (s : store.State) (pending : Pending)
      → IsOrdered schema
      → deepest schema.depth < fuel + k
      → AllPending (λ f. k ≤ depth_or_zero schema.depth f) pending
      → Ends fuel k s pending
  unfolding flush Ends
  flush-Ends zero k s [] ordered enough h = ([], s, refl, tt, refl)
  flush-Ends (suc fuel) k s [] ordered enough h = ([], s, refl, tt, refl)
  flush-Ends zero k s ((f, pks) ∷ pending) ordered enough h =
      absurd (omega (arith, h.0, enough, depth_or_zero-deepest schema.depth f))
  flush-Ends (suc fuel) k s ((f, pks) ∷ pending) ordered enough h =
      let level = level_of store schema f pks pending in
      let low = le-least k (depth_or_zero schema.depth f) pending h.0 h.1 in
      let batches = batches_of store schema (at_level store schema level ((f, pks) ∷ pending)) [] in
      let left = off_level store schema level ((f, pks) ∷ pending) in
      let of_level =
        batches_of-IsOfLevel level (at_level store schema level ((f, pks) ∷ pending)) []
          (at_level-All level ((f, pks) ∷ pending)) tt in
      let r = run_batches store schema batches (s, left) in
      let deeper = run_batches-deeper store schema ordered level batches s left of_level (
        off_level-All level ((f, pks) ∷ pending) (
          least-le (depth_or_zero schema.depth f) pending,
          least-All (depth_or_zero schema.depth f) pending,
        )) in
      let (rounds, last, e, rising, applied) =
        flush-Ends fuel (suc level) r.0 r.1 ordered (omega (arith, enough, low)) deeper in
      (
        record { level = level; batches = batches } ∷ rounds,
        last,
        rw (e, flush) refl,
        (low, of_level, rising),
        applied ∙ ap (apply_rounds rounds) (run_batches-apply_batches batches s left),
      )

-- With depths that were computed for the bindings, a flush of any pending work ends: more fuel than
-- the greatest depth is enough. Its rounds are of strictly increasing depths, a round refreshes
-- fields of its depth only, each with the rows of its own model, every field that was stale on a row
-- is refreshed on that row in some round, and the database is left as these refreshes, applied to it
-- one after the other, leave it.
pub flush_refreshes :
    (stored_fields : ℕ → ℕ → Option ℕ) (store : Store) (schema : Schema) (fuel : ℕ)
    (s : store.State) (pending : Pending)
    → IsNaming stored_fields schema
    → compute_depths stored_fields schema.bindings ≡ depths schema.depth
    → deepest schema.depth < fuel
    → (rounds : List (Round store schema)) × (last : store.State) × (flush store schema fuel s
          pending
        ≡ some (rounds, last))
      × IsRising store schema 0 rounds
      × AllStale (λ f pk. is_refreshed store schema f pk rounds ≡ true) pending
      × (last ≡ apply_rounds store schema rounds s)
unfolding Ends
flush_refreshes stored_fields store schema fuel s pending naming e enough =
    let (rounds, last, q, rising, applied) =
      flush-Ends store schema fuel 0 s pending
        (compute_depths-IsOrdered stored_fields schema naming e) (omega (arith, enough))
        (any_depth pending) in
    (
      rounds,
      last,
      q,
      rising,
      AllStale-of_is_stale (λ f pk. is_refreshed store schema f pk rounds ≡ true) pending
          (λ f pk h. is_refreshed-flush store schema f pk fuel s pending q h),
      applied,
    )
  where
    any_depth : (p : Pending) → AllPending (λ f. 0 ≤ depth_or_zero schema.depth f) p
    any_depth [] = tt
    any_depth ((f, pks) ∷ p) = (omega arith, any_depth p)
