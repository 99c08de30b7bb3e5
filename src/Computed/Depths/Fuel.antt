-- ===== src/Computed/Depths/Fuel.antt =====
-- The fuel of the search for depths, and the cycles that it reports.
use totem_backend.Base.{
  ℕ, zero, suc, ◌+◌, ◌≤◌, ◌<◌, max, ◌≡◌, refl, ◌≢◌, true, false, List, [], ◌∷◌, ◌==◌, mem, length,
  if◌then◌else◌, arith, Bool-cases, Option-cases, inl, inr, ◌∙◌, sym, eq_of_==, subst,
}
use totem_backend.Computed.Depths.{
  Memo, depth_of?, Visit, visited, in_cycle, no_fuel, and_then, visit_deps, record_depth, visit,
  visit_all,
}
use totem_backend.Computed.Depths.Acyclic.{visit_known, visit_again, visit_new}

-- How many fields of the list are not in `visiting`.
abbrev count_out : List ℕ → List ℕ → ℕ
count_out visiting [] = 0
count_out visiting (u ∷ us) = (if mem u visiting then 0 else 1) + count_out visiting us

count_out_mono :
    (f : ℕ) (visiting us : List ℕ) → count_out (f ∷ visiting) us ≤ count_out visiting us
count_out_mono f visiting [] = omega arith
count_out_mono f visiting (u ∷ us) = ground (arith, count_out_mono f visiting us)

count_out-lt :
    (f : ℕ) (visiting us : List ℕ)
    → mem f us ≡ true
    → mem f visiting ≡ false
    → count_out (f ∷ visiting) us < count_out visiting us
count_out-lt f visiting [] m out = absurd (ground (arith, m))
count_out-lt f visiting (u ∷ us) m out =
    ground (arith, count_out-lt f visiting us, count_out_mono f visiting us)

count_out-le : (us : List ℕ) → count_out [] us ≤ length us
count_out-le [] = omega arith
count_out-le (u ∷ us) = omega (arith, count_out-le us)

and_then-ne :
    (r : Visit) (k : ℕ → Memo → Visit)
    → r ≢ no_fuel
    → ((d : ℕ) (m : Memo) → k d m ≢ no_fuel)
    → and_then r k ≢ no_fuel
and_then-ne (visited d m) k h l e = l d m e
and_then-ne in_cycle k h l e = ground (arith, e)
and_then-ne no_fuel k h l e = h refl

module _ (reads : ℕ → List ℕ) (fields : List ℕ) where
  -- All that the fields read are fields of the list.
  abbrev pub IsClosed : Type 0
  IsClosed = (f g : ℕ) → mem g (reads f) ≡ true → mem g fields ≡ true

  abbrev NeverOut : (ℕ → Memo → Visit) → Type 0
  NeverOut v = (f : ℕ) (memo : Memo) → mem f fields ≡ true → v f memo ≢ no_fuel

  visit_deps-ne :
      (v : ℕ → Memo → Visit)
      → NeverOut v
      → (deps : List ℕ) (acc : ℕ) (memo : Memo)
      → ((g : ℕ) → mem g deps ≡ true → mem g fields ≡ true)
      → visit_deps v deps acc memo ≢ no_fuel
  visit_deps-ne v ok [] acc memo inside = λ e. ground (arith, e)
  visit_deps-ne v ok (g ∷ deps) acc memo inside =
      and_then-ne (v g memo) (λ d m. visit_deps v deps (max acc (suc d)) m)
        (ok g memo (inside g (ground arith)))
        (λ d m. visit_deps-ne v ok deps (max acc (suc d)) m (λ h p. inside h (ground (arith, p))))

  visit-ne :
      IsClosed
      → (fuel : ℕ) (visiting : List ℕ) → count_out visiting fields < fuel
      → NeverOut (visit reads fuel visiting)
  visit-ne closed zero visiting few f memo inside = absurd (omega (arith, few))
  visit-ne closed (suc fuel) visiting few f memo inside = elim (Option-cases (depth_of? f memo)) [
    | inr (d, p) ↦ λ e. ground (arith, sym (visit_known reads fuel visiting f memo p) ∙ e)
    | inl p ↦ elim (Bool-cases (mem f visiting)) [
      | inl m ↦ λ e. ground (arith, sym (visit_again reads fuel visiting f memo p m) ∙ e)
      | inr m ↦ λ e.
          and_then-ne (visit_deps (visit reads fuel (f ∷ visiting)) (reads f) 0 memo)
            (λ d memo. visited d ((f, d) ∷ memo))
            (visit_deps-ne (visit reads fuel (f ∷ visiting))
              (visit-ne closed fuel (f ∷ visiting)
                (omega (arith, count_out-lt f visiting fields inside m, few)))
              (reads f) 0 memo (closed f))
            (λ d m e. ground (arith, e)) (sym (visit_new reads fuel visiting f memo p m) ∙ e)
    ]
  ]

  visit_all-ne :
      (v : ℕ → Memo → Visit)
      → NeverOut v
      → (fs : List ℕ) (memo : Memo) → ((g : ℕ) → mem g fs ≡ true → mem g fields ≡ true)
      → visit_all v fs memo ≢ no_fuel
  visit_all-ne v ok [] memo inside = λ e. ground (arith, e)
  visit_all-ne v ok (f ∷ fs) memo inside =
      and_then-ne (v f memo) (λ d m. visit_all v fs m) (ok f memo (inside f (ground arith)))
        (λ d m. visit_all-ne v ok fs m (λ h p. inside h (ground (arith, p))))

  -- One more than the number of fields is enough fuel to visit them all.
  pub visit_all-ne-no_fuel :
      IsClosed → visit_all (visit reads (suc (length fields)) []) fields [] ≢ no_fuel
  visit_all-ne-no_fuel closed =
      visit_all-ne (visit reads (suc (length fields)) [])
        (visit-ne closed (suc (length fields)) [] (omega (arith, count_out-le fields))) fields []
        (λ g p. p)

-- A field reads another, directly or through fields in between.
pub data Chain (reads : ℕ → List ℕ) (f : ℕ) : ℕ → Type 0 where
  direct : {g : ℕ} → mem g (reads f) ≡ true → Chain reads f g
  further : {g h : ℕ} → Chain reads f g → mem h (reads g) ≡ true → Chain reads f h

module _ (reads : ℕ → List ℕ) where
  abbrev pub HasCycle : Type 0
  HasCycle = (g : ℕ) × Chain reads g g

  -- The first visit that meets a cycle.
  visit_deps-in_cycle :
      (v : ℕ → Memo → Visit) (deps : List ℕ) (acc : ℕ) (memo : Memo)
      → visit_deps v deps acc memo ≡ in_cycle
      → (g : ℕ) × (m : Memo) × (mem g deps ≡ true) × (v g m ≡ in_cycle)
  visit_deps-in_cycle v [] acc memo e = absurd (ground (arith, e))
  visit_deps-in_cycle v (g ∷ deps) acc memo e = go (v g memo) refl (visit_deps-in_cycle v deps) e
    where
      go :
          (r : Visit)
          → v g memo ≡ r
          → ((acc : ℕ) (memo : Memo)
              → visit_deps v deps acc memo ≡ in_cycle
              → (g : ℕ) × (m : Memo) × (mem g deps ≡ true) × (v g m ≡ in_cycle))
          → and_then r (λ d m. visit_deps v deps (max acc (suc d)) m) ≡ in_cycle
          → (h : ℕ) × (m : Memo) × (mem h (g ∷ deps) ≡ true) × (v h m ≡ in_cycle)
      go (visited d m) p later q =
          let (h, m', inside, r) = later (max acc (suc d)) m q in (h, m', ground (arith, inside), r)
      go in_cycle p later q = (g, memo, ground arith, p)
      go no_fuel p later q = absurd (ground (arith, q))

  record_depth-in_cycle : (f : ℕ) (r : Visit) → record_depth f r ≡ in_cycle → r ≡ in_cycle
  record_depth-in_cycle f (visited d m) e = absurd (ground (arith, e))
  record_depth-in_cycle f in_cycle e = refl
  record_depth-in_cycle f no_fuel e = absurd (ground (arith, e))

  visit-in_cycle :
      (fuel : ℕ) (visiting : List ℕ) (f : ℕ) (memo : Memo)
      → ((v : ℕ) → mem v visiting ≡ true → Chain reads v f)
      → visit reads fuel visiting f memo ≡ in_cycle
      → HasCycle
  visit-in_cycle zero visiting f memo chains e = absurd (unfold visit in ground (arith, e))
  visit-in_cycle (suc fuel) visiting f memo chains e = elim (Option-cases (depth_of? f memo)) [
    | inr (d, p) ↦ absurd (ground (arith, sym (visit_known reads fuel visiting f memo p) ∙ e))
    | inl p ↦ elim (Bool-cases (mem f visiting)) [
      | inl m ↦ (f, chains f m)
      | inr m ↦
          let (g, memo', inside, q) =
            visit_deps-in_cycle (visit reads fuel (f ∷ visiting)) (reads f) 0 memo (
              record_depth-in_cycle f
                (visit_deps (visit reads fuel (f ∷ visiting)) (reads f) 0 memo)
                (sym (visit_new reads fuel visiting f memo p m) ∙ e)) in
          visit-in_cycle fuel (f ∷ visiting) g memo'
            (λ v w. elim (Bool-cases (v == f)) [
              | inl same ↦
                  subst (λ x. Chain reads x g) (sym (eq_of_== v f same)) (Chain.direct inside)
              | inr other ↦ Chain.further (chains v (ground (arith, w, other))) inside
            ])
            q
    ]
  ]

  -- If the search reports a cycle, some field reads itself through others.
  pub visit_all-in_cycle :
      (fuel : ℕ) (fields : List ℕ) (memo : Memo)
      → visit_all (visit reads fuel []) fields memo ≡ in_cycle
      → HasCycle
  visit_all-in_cycle fuel [] memo e = absurd (ground (arith, e))
  visit_all-in_cycle fuel (f ∷ fields) memo e =
      go (visit reads fuel [] f memo) refl (visit_all-in_cycle fuel fields) e
    where
      go :
          (r : Visit)
          → visit reads fuel [] f memo ≡ r
          → ((m : Memo) → visit_all (visit reads fuel []) fields m ≡ in_cycle → HasCycle)
          → and_then r (λ d m. visit_all (visit reads fuel []) fields m) ≡ in_cycle
          → HasCycle
      go (visited d m) p later q = later m q
      go in_cycle p later q = visit-in_cycle fuel [] f memo (λ v w. absurd (ground (arith, w))) p
      go no_fuel p later q = absurd (ground (arith, q))
