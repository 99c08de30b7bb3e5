-- ===== src/Computed/Refresh/Covered.antt =====
-- The rows that `flush` of src/core/orm/fields/computed/context.py refreshes.
use totem_backend.Base.{
  ℕ, zero, suc, ◌≡◌, Bool, true, false, ◌&&◌, ◌||◌, Option, none, some, List, [], ◌∷◌, ◌==◌, mem,
  mem-union, All, map, any, arith, Bool-cases, inl, inr, eq_of_==, subst, sym, ap, ==_refl,
}
use totem_backend.Computed.Bindings.{Binding}
use totem_backend.Computed.Refresh.{
  Schema, Batch, Store, Instance, Pending, Round, Resolved, depth_or_zero, mark, add_roots,
  resolve_with, resolve, concerned, modified, level_of, at_level, off_level, put_batch, batches_of,
  run_batches, flush,
}

-- A field is stale on a row.
abbrev pub is_stale : ℕ → ℕ → Pending → Bool
is_stale f pk [] = false
is_stale f pk ((g, pks) ∷ pending) = (g == f && mem pk pks) || is_stale f pk pending

All-of_mem : (P : ℕ → Type 0) (pks : List ℕ) → ((pk : ℕ) → mem pk pks ≡ true → P pk) → All P pks
All-of_mem P [] h = tt
All-of_mem P (k ∷ pks) h =
    (h k (ground (arith, ==_refl k)), All-of_mem P pks (λ pk m. h pk (ground (arith, m))))

-- A predicate holds of each field and each row on which it is stale.
abbrev pub AllStale : (ℕ → ℕ → Type 0) → Pending → Type 0
AllStale P = All (λ (e : ℕ × List ℕ). All (P e.0) e.1)

pub AllStale-of_is_stale :
    (P : ℕ → ℕ → Type 0) (pending : Pending)
    → ((f pk : ℕ) → is_stale f pk pending ≡ true → P f pk)
    → AllStale P pending
AllStale-of_is_stale P [] h = tt
AllStale-of_is_stale P ((f, pks) ∷ pending) h = (
  All-of_mem (P f) pks (λ pk m. h f pk (ground (arith, m, ==_refl f))),
  AllStale-of_is_stale P pending (λ g pk e. h g pk (ground (arith, e))),
)

is_stale-mark :
    (f pk g : ℕ) (pks : List ℕ) (pending : Pending)
    → is_stale f pk pending ≡ true
    → is_stale f pk (mark g pks pending) ≡ true
is_stale-mark f pk g pks [] h = ground (arith, h)
is_stale-mark f pk g pks ((k, old) ∷ pending) h =
    ground (arith, h, is_stale-mark f pk g pks pending, mem-union pk pks old)

is_stale-add_roots :
    (f pk g : ℕ) (pks : List ℕ) (pending : Pending)
    → is_stale f pk pending ≡ true
    → is_stale f pk (add_roots g pks pending) ≡ true
is_stale-add_roots f pk g [] pending h = h
is_stale-add_roots f pk g (p ∷ pks) pending h = is_stale-mark f pk g (p ∷ pks) pending h

module _ (store : Store) (schema : Schema) where
  is_stale-resolve_with :
      (f pk : ℕ) (s : store.State) (pks : List ℕ) (instances : Option (List Instance))
      (bindings : List Binding) (cache : Resolved) (pending : Pending)
      → is_stale f pk pending ≡ true
      → is_stale f pk (resolve_with store schema s pks instances cache bindings pending) ≡ true
  is_stale-resolve_with f pk s pks instances [] cache pending h = h
  is_stale-resolve_with f pk s pks instances (b ∷ bindings) cache pending h =
      is_stale-resolve_with f pk s pks instances bindings _ _
        (is_stale-add_roots f pk b.field _ pending h)

  is_stale-modified :
      (f pk model : ℕ) (s : store.State) (pks names : List ℕ) (before : Bool) (pending : Pending)
      → is_stale f pk pending ≡ true
      → is_stale f pk (modified store schema s model pks names before pending) ≡ true
  unfolding modified resolve
  is_stale-modified f pk model s pks names before pending h =
      let resolved =
        is_stale-resolve_with f pk s pks none (concerned store schema model names before) [] pending
          h in
      ground (arith, h, resolved)

  is_stale-run_batches :
      (f pk : ℕ) (batches : List Batch) (s : store.State) (pending : Pending)
      → is_stale f pk pending ≡ true
      → is_stale f pk (run_batches store schema batches (s, pending)).1 ≡ true
  is_stale-run_batches f pk [] s pending h = h
  is_stale-run_batches f pk (b ∷ batches) s pending h =
      is_stale-run_batches f pk batches (store.refresh_rows b s) _ (
        is_stale-modified f pk b.model (store.refresh_rows b s) b.pks (map schema.name_of b.fields)
          false pending h)

  is_stale-off_level :
      (f pk level : ℕ) (pending : Pending)
      → (depth_or_zero schema.depth f == level) ≡ false
      → is_stale f pk pending ≡ true
      → is_stale f pk (off_level store schema level pending) ≡ true
  is_stale-off_level f pk level [] e h = h
  is_stale-off_level f pk level ((g, pks) ∷ pending) e h = ground (
    arith,
    e,
    h,
    is_stale-off_level f pk level pending e,
    λ (q : (g == f) ≡ true). ap (depth_or_zero schema.depth) (eq_of_== g f q),
  )

  is_stale-at_level :
      (f pk level : ℕ) (pending : Pending)
      → (depth_or_zero schema.depth f == level) ≡ true
      → is_stale f pk pending ≡ true
      → is_stale f pk (at_level store schema level pending) ≡ true
  is_stale-at_level f pk level [] e h = h
  is_stale-at_level f pk level ((g, pks) ∷ pending) e h = ground (
    arith,
    e,
    h,
    is_stale-at_level f pk level pending e,
    λ (q : (g == f) ≡ true). ap (depth_or_zero schema.depth) (eq_of_== g f q),
  )

  -- A batch refreshes a field on a row, and so does one of them.
  abbrev pub in_batch : ℕ → ℕ → Batch → Bool
  in_batch f pk b = b.model == schema.model_of f && (mem f b.fields && mem pk b.pks)

  abbrev pub in_batches : ℕ → ℕ → List Batch → Bool
  in_batches f pk = any (in_batch f pk)

  put_batch-adds :
      (f pk : ℕ) (pks : List ℕ) (batches : List Batch)
      → mem pk pks ≡ true
      → in_batches f pk (put_batch store schema f pks batches) ≡ true
  put_batch-adds f pk pks [] h = ground (arith, h, ==_refl f, ==_refl (schema.model_of f))
  put_batch-adds f pk pks (b ∷ batches) h =
      ground (arith, h, put_batch-adds f pk pks batches h, mem-union pk pks b.pks, ==_refl f)

  put_batch-keeps :
      (f pk g : ℕ) (pks : List ℕ) (batches : List Batch)
      → in_batches f pk batches ≡ true
      → in_batches f pk (put_batch store schema g pks batches) ≡ true
  put_batch-keeps f pk g pks [] h = absurd (ground (arith, h))
  put_batch-keeps f pk g pks (b ∷ batches) h =
      ground (arith, h, put_batch-keeps f pk g pks batches, mem-union pk pks b.pks)

  in_batches-batches_of :
      (f pk : ℕ) (pending : Pending) (batches : List Batch)
      → (is_stale f pk pending || in_batches f pk batches) ≡ true
      → in_batches f pk (batches_of store schema pending batches) ≡ true
  in_batches-batches_of f pk [] batches h = h
  in_batches-batches_of f pk ((g, pks) ∷ pending) batches h =
      in_batches-batches_of f pk pending (put_batch store schema g pks batches) (
        ground (
          arith,
          h,
          λ (q : (g == f) ≡ true).
              subst
                (λ k.
                  mem pk pks ≡ true → in_batches f pk (put_batch store schema k pks batches) ≡ true)
                (sym (eq_of_== g f q)) (put_batch-adds f pk pks batches),
          put_batch-keeps f pk g pks batches,
        ))

  -- A round refreshes a field on a row.
  abbrev pub is_refreshed : ℕ → ℕ → List (Round store schema) → Bool
  is_refreshed f pk = any (λ (r : Round store schema). in_batches f pk r.batches)

  first_round :
      (round : Round store schema) (o : Option (List (Round store schema) × store.State))
      {rounds : List (Round store schema)} {last : store.State}
      → (elim o as (λ _. Option (List (Round store schema) × store.State)) [
        | none ↦ none
        | some (rest, end) ↦ some (round ∷ rest, end)
      ])
        ≡ some (rounds, last)
      → (rest : List (Round store schema)) × (o ≡ some (rest, last)) × (rounds ≡ round ∷ rest)
  first_round round none e = absurd (ground (arith, e))
  first_round round (some (rest, end)) e = (rest, ground (arith, e), ground (arith, e))

  pub is_refreshed-flush :
      (f pk fuel : ℕ) (s : store.State) (pending : Pending) {rounds : List (Round store schema)}
      {last : store.State}
      → flush store schema fuel s pending ≡ some (rounds, last)
      → is_stale f pk pending ≡ true
      → is_refreshed f pk rounds ≡ true
  unfolding flush
  is_refreshed-flush f pk fuel s [] e h = absurd (ground (arith, h))
  is_refreshed-flush f pk zero s ((g, pks) ∷ pending) e h = absurd (ground (arith, e))
  is_refreshed-flush f pk (suc fuel) s ((g, pks) ∷ pending) {rounds} {last} e h =
      let level = level_of store schema g pks pending in
      let stale : Pending = (g, pks) ∷ pending in
      let batches = batches_of store schema (at_level store schema level stale) [] in
      let left = off_level store schema level stale in
      let (rest, q, w) = first_round (record { level = level; batches = batches }) _ e in
      rw w (elim (Bool-cases (depth_or_zero schema.depth f == level)) [
        | inl now ↦ ground (
          arith,
          is_stale-at_level f pk level stale now h,
          in_batches-batches_of f pk (at_level store schema level stale) [],
        )
        | inr later ↦ ground (
          arith,
          is_refreshed-flush f pk fuel (run_batches store schema batches (s, left)).0
              (run_batches store schema batches (s, left)).1 q
              (is_stale-run_batches f pk batches s left
                (is_stale-off_level f pk level stale later h)),
        )
      ])
