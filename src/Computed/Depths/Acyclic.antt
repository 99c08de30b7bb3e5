-- ===== src/Computed/Depths/Acyclic.antt =====
-- What the search for depths records, as it goes.
use totem_backend.Base.{
  ℕ, zero, suc, ◌≤◌, ◌<◌, max, ◌≡◌, refl, true, false, none, some, List, [], ◌∷◌, ◌==◌, mem, arith,
  Bool-cases, Option-cases, inl, inr, ◌∙◌, sym, eq_of_==, subst,
}
use totem_backend.Computed.Depths.{
  Memo, depth_of?, Visit, visited, in_cycle, no_fuel, and_then, visit_deps, record_depth, visit,
  visit_all,
}

-- Each field of the list is recorded, below a bound.
abbrev pub AllBelow : Memo → ℕ → List ℕ → Type 0
AllBelow memo d [] = Unit
AllBelow memo d (g ∷ deps) =
    ((e : ℕ) × (depth_of? g memo ≡ some e) × (e < d)) × AllBelow memo d deps

-- `memo'` has all that `memo` has.
abbrev pub Extends : Memo → Memo → Type 0
Extends memo memo' = (f d : ℕ) → depth_of? f memo ≡ some d → depth_of? f memo' ≡ some d

AllBelow-mono :
    (memo memo' : Memo) (d d' : ℕ) (deps : List ℕ)
    → Extends memo memo'
    → d ≤ d'
    → AllBelow memo d deps
    → AllBelow memo' d' deps
AllBelow-mono memo memo' d d' [] ext le h = tt
AllBelow-mono memo memo' d d' (g ∷ deps) ext le h = (
  (h.0.0, ext g h.0.0 h.0.1, omega (arith, h.0.2)),
  AllBelow-mono memo memo' d d' deps ext le h.1,
)

pub and_then-returned :
    (r : Visit) (k : ℕ → Memo → Visit) (d : ℕ) (memo' : Memo)
    → and_then r k ≡ visited d memo'
    → (d₁ : ℕ) × (m₁ : Memo) × (r ≡ visited d₁ m₁) × (k d₁ m₁ ≡ visited d memo')
and_then-returned (visited d₁ m₁) k d memo' e = (d₁, m₁, refl, e)
and_then-returned in_cycle k d memo' e = absurd (ground (arith, e))
and_then-returned no_fuel k d memo' e = absurd (ground (arith, e))

module _ (reads : ℕ → List ℕ) where
  -- Every recorded field is deeper than each field that it reads, which is recorded too.
  abbrev pub IsLayered : Memo → Type 0
  IsLayered memo = (f d : ℕ) → depth_of? f memo ≡ some d → AllBelow memo d (reads f)

  -- What a visit, under the fields `visiting`, has done by the time that it returns.
  pub record HasVisited (visiting : List ℕ) (memo : Memo) (memo' : Memo) : Type 0 where
    pub layered : IsLayered memo'
    pub extends : Extends memo memo'
    pub kept : (g : ℕ) → mem g visiting ≡ true → depth_of? g memo ≡ none → depth_of? g memo' ≡ none

  abbrev pub Visits : List ℕ → (ℕ → Memo → Visit) → Type 0
  Visits visiting v =
      (f : ℕ) (memo : Memo) (d : ℕ) (memo' : Memo)
      → IsLayered memo
      → v f memo ≡ visited d memo'
      → HasVisited visiting memo memo' × (depth_of? f memo' ≡ some d)

  HasVisited-refl :
      (visiting : List ℕ) (memo : Memo) → IsLayered memo → HasVisited visiting memo memo
  HasVisited-refl visiting memo h = record { layered = h; extends = λ f d e. e; kept = λ g m e. e }

  HasVisited-trans :
      (visiting : List ℕ) (m₁ m₂ m₃ : Memo)
      → HasVisited visiting m₁ m₂
      → HasVisited visiting m₂ m₃
      → HasVisited visiting m₁ m₃
  HasVisited-trans visiting m₁ m₂ m₃ h k = record {
    layered = k.layered;
    extends = λ f d e. k.extends f d (h.extends f d e);
    kept = λ g m e. k.kept g m (h.kept g m e);
  }

  visit_deps-HasVisited :
      (visiting : List ℕ) (v : ℕ → Memo → Visit)
      → Visits visiting v
      → (deps : List ℕ) (acc : ℕ) (memo : Memo) (d : ℕ) (memo' : Memo) → IsLayered memo
      → visit_deps v deps acc memo ≡ visited d memo'
      → HasVisited visiting memo memo' × AllBelow memo' d deps × (acc ≤ d)
  visit_deps-HasVisited visiting v ok [] acc memo d memo' h e = (
    subst (HasVisited visiting memo) (ground (arith, e)) (HasVisited-refl visiting memo h),
    tt,
    ground (arith, e),
  )
  visit_deps-HasVisited visiting v ok (g ∷ deps) acc memo d memo' h e =
      let (d₁, m₁, p, q) =
        and_then-returned (v g memo) (λ d m. visit_deps v deps (max acc (suc d)) m) d memo' e in
      let first = ok g memo d₁ m₁ h p in
      let rest =
        visit_deps-HasVisited visiting v ok deps (max acc (suc d₁)) m₁ d memo' first.0.layered q in
      (
        HasVisited-trans visiting memo m₁ memo' first.0 rest.0,
        ((d₁, rest.0.extends g d₁ first.1, omega (arith, rest.2)), rest.1),
        omega (arith, rest.2),
      )

  -- Recording a field that was not recorded, above all that it reads.
  record_depth-HasVisited :
      (visiting : List ℕ) (f d : ℕ) (memo memo' : Memo)
      → mem f visiting ≡ false
      → depth_of? f memo ≡ none
      → HasVisited (f ∷ visiting) memo memo'
      → AllBelow memo' d (reads f)
      → HasVisited visiting memo ((f, d) ∷ memo')
  record_depth-HasVisited visiting f d memo memo' out new h below =
      let fresh : depth_of? f memo' ≡ none = h.kept f (ground arith) new in
      let ext : Extends memo' ((f, d) ∷ memo') = λ g e p. ground (arith, p, fresh) in
      record {
        layered = λ g e p. elim (Bool-cases (g == f)) [
          | inl same ↦
              AllBelow-mono memo' ((f, d) ∷ memo') d e (reads g) ext (ground (arith, p, same))
                (subst (λ x. AllBelow memo' d (reads x)) (sym (eq_of_== g f same)) below)
          | inr other ↦
              AllBelow-mono memo' ((f, d) ∷ memo') e e (reads g) ext (omega arith)
                (h.layered g e (ground (arith, p, other)))
        ];
        extends = λ g e p. ext g e (h.extends g e p);
        kept = λ g m p. ground (arith, h.kept g, m, p, out);
      }

  -- The three ways in which a visit goes.
  pub visit_known :
      (fuel : ℕ) (visiting : List ℕ) (f : ℕ) (memo : Memo) {d : ℕ}
      → depth_of? f memo ≡ some d
      → visit reads (suc fuel) visiting f memo ≡ visited d memo
  unfolding visit
  visit_known fuel visiting f memo p = rw (p, visit)

  pub visit_again :
      (fuel : ℕ) (visiting : List ℕ) (f : ℕ) (memo : Memo)
      → depth_of? f memo ≡ none
      → mem f visiting ≡ true
      → visit reads (suc fuel) visiting f memo ≡ in_cycle
  unfolding visit
  visit_again fuel visiting f memo p m = rw (p, visit) (rw m)

  pub visit_new :
      (fuel : ℕ) (visiting : List ℕ) (f : ℕ) (memo : Memo)
      → depth_of? f memo ≡ none
      → mem f visiting ≡ false
      → visit reads (suc fuel) visiting f memo
        ≡ record_depth f (visit_deps (visit reads fuel (f ∷ visiting)) (reads f) 0 memo)
  unfolding visit
  visit_new fuel visiting f memo p m = rw (p, visit) (rw m)

  pub visit-HasVisited :
      (fuel : ℕ) (visiting : List ℕ) → Visits visiting (visit reads fuel visiting)
  visit-HasVisited zero visiting f memo d memo' h e = absurd (unfold visit in ground (arith, e))
  visit-HasVisited (suc fuel) visiting f memo d memo' h e = elim (Option-cases (depth_of? f memo)) [
    | inr (d₀, p) ↦ known d₀ p (sym (visit_known fuel visiting f memo p) ∙ e)
    | inl p ↦ elim (Bool-cases (mem f visiting)) [
      | inl m ↦ absurd (ground (arith, sym (visit_again fuel visiting f memo p m) ∙ e))
      | inr m ↦
          new p m (visit-HasVisited fuel (f ∷ visiting))
            (sym (visit_new fuel visiting f memo p m) ∙ e)
    ]
  ]
    where
      known :
          (d₀ : ℕ)
          → depth_of? f memo ≡ some d₀
          → visited d₀ memo ≡ visited d memo'
          → HasVisited visiting memo memo' × (depth_of? f memo' ≡ some d)
      known d₀ p q =
          let same : memo ≡ memo' = ground (arith, q) in
          (
            subst (HasVisited visiting memo) same (HasVisited-refl visiting memo h),
            subst (λ m. depth_of? f m ≡ some d) same (p ∙ ground (arith, q)),
          )

      new :
          depth_of? f memo ≡ none
          → mem f visiting ≡ false
          → Visits (f ∷ visiting) (visit reads fuel (f ∷ visiting))
          → record_depth f (visit_deps (visit reads fuel (f ∷ visiting)) (reads f) 0 memo)
            ≡ visited d memo'
          → HasVisited visiting memo memo' × (depth_of? f memo' ≡ some d)
      new p m ih q =
          let (d₁, m₁, s, t) =
            and_then-returned (visit_deps (visit reads fuel (f ∷ visiting)) (reads f) 0 memo)
              (λ d memo. visited d ((f, d) ∷ memo)) d memo' q in
          let deps =
            visit_deps-HasVisited (f ∷ visiting) (visit reads fuel (f ∷ visiting)) ih (reads f) 0
              memo d₁ m₁ h s in
          let same : ◌≡◌ {A = Memo} ((f, d₁) ∷ m₁) memo' = ground (arith, t) in
          (
            subst (HasVisited visiting memo) same
                (record_depth-HasVisited visiting f d₁ memo m₁ m p deps.0 deps.1),
            ground (arith, same, t),
          )

  pub visit_all-HasVisited :
      (v : ℕ → Memo → Visit)
      → Visits [] v
      → (fields : List ℕ) (memo : Memo) (d : ℕ) (memo' : Memo) → IsLayered memo
      → visit_all v fields memo ≡ visited d memo'
      → HasVisited [] memo memo'
        × ((f : ℕ) → mem f fields ≡ true → (e : ℕ) × (depth_of? f memo' ≡ some e))
  visit_all-HasVisited v ok [] memo d memo' h e = (
    subst (HasVisited [] memo) (ground (arith, e)) (HasVisited-refl [] memo h),
    λ f m. absurd (ground (arith, m)),
  )
  visit_all-HasVisited v ok (f ∷ fields) memo d memo' h e =
      let (d₁, m₁, p, q) = and_then-returned (v f memo) (λ d m. visit_all v fields m) d memo' e in
      let first = ok f memo d₁ m₁ h p in
      let rest = visit_all-HasVisited v ok fields m₁ d memo' first.0.layered q in
      (
        HasVisited-trans [] memo m₁ memo' first.0 rest.0,
        λ g m. elim (Bool-cases (g == f)) [
          | inl same ↦ (
            d₁,
            rest.0.extends g d₁
                (subst (λ x. depth_of? x m₁ ≡ some d₁) (sym (eq_of_== g f same)) first.1),
          )
          | inr other ↦ rest.1 g (ground (arith, m, other))
        ],
      )
