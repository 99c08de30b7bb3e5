-- ===== src/Computed/Depths/Layers.antt =====
-- What the search says of the graph that it is given, on each outcome.
use totem_backend.Base.{
  ℕ, suc, ◌<◌, ◌≡◌, refl, true, some, List, [], ◌∷◌, ◌==◌, mem, length, arith, Bool-cases, inl, inr,
  sym, eq_of_==, subst, ap, In, head, tail,
}
use totem_backend.Computed.Bindings.{Binding}
use totem_backend.Computed.Depths.{
  Memo, depth_of?, Visit, visited, in_cycle, no_fuel, visit, visit_all, Edges, reads_of,
  edge_fields, binding_fields, Depths, depths, reads_itself, cycle, exhausted, of_visit,
}
use totem_backend.Computed.Depths.Acyclic.{AllBelow, visit-HasVisited, visit_all-HasVisited}
use totem_backend.Computed.Depths.Fuel.{
  IsClosed, HasCycle, visit_all-ne-no_fuel, visit_all-in_cycle,
}

AllBelow-mem :
    (memo : Memo) (d g : ℕ) (deps : List ℕ)
    → AllBelow memo d deps
    → mem g deps ≡ true
    → (e : ℕ) × (depth_of? g memo ≡ some e) × (e < d)
AllBelow-mem memo d g [] h m = absurd (ground (arith, m))
AllBelow-mem memo d g (k ∷ deps) h m = elim (Bool-cases (g == k)) [
  | inl same ↦
      subst (λ x. (e : ℕ) × (depth_of? x memo ≡ some e) × (e < d)) (sym (eq_of_== g k same)) h.0
  | inr other ↦ AllBelow-mem memo d g deps h.1 (ground (arith, m, other))
]

pub edge_fields-reads_of :
    (edges : Edges) (f g : ℕ) → mem g (reads_of edges f) ≡ true → mem g (edge_fields edges) ≡ true
edge_fields-reads_of [] f g m = m
edge_fields-reads_of ((h, k) ∷ edges) f g m = ground (arith, edge_fields-reads_of edges f g, m)

pub mem-binding_fields :
    (g : ℕ) (bindings : List Binding) (fields : List ℕ)
    → mem g fields ≡ true
    → mem g (binding_fields bindings fields) ≡ true
mem-binding_fields g [] fields m = m
mem-binding_fields g (b ∷ bindings) fields m =
    ground (arith, mem-binding_fields g bindings fields m)

pub field-binding_fields :
    (b : Binding) (bindings : List Binding) (fields : List ℕ)
    → In b bindings
    → mem b.field (binding_fields bindings fields) ≡ true
field-binding_fields b [] fields i = elim i [ ]
field-binding_fields b (c ∷ bindings) fields (head e) =
    ground (arith, ap (λ (x : Binding). x.field) e)
field-binding_fields b (c ∷ bindings) fields (tail i) =
    ground (arith, field-binding_fields b bindings fields i)

-- What the outcome says of the graph: with depths, every field of a binding has one, and a field is
-- deeper than each field that it reads; a cycle is one; the other outcomes are impossible.
abbrev pub IsRight : List ℕ → (ℕ → List ℕ) → Depths → Type 0
IsRight fields reads (depths memo) =
    ((f : ℕ) → mem f fields ≡ true → (d : ℕ) × (depth_of? f memo ≡ some d))
    × ((f g d : ℕ)
        → depth_of? f memo ≡ some d
        → mem g (reads f) ≡ true
        → (e : ℕ) × (depth_of? g memo ≡ some e) × (e < d))
IsRight fields reads cycle = HasCycle reads
IsRight fields reads reads_itself = ⊥
IsRight fields reads exhausted = ⊥

pub search-IsRight :
    (fields : List ℕ) (reads : ℕ → List ℕ)
    → IsClosed reads fields
    → IsRight fields reads (of_visit (visit_all (visit reads (suc (length fields)) []) fields []))
search-IsRight fields reads closed =
    go (visit_all (visit reads (suc (length fields)) []) fields []) refl
  where
    go :
        (r : Visit)
        → visit_all (visit reads (suc (length fields)) []) fields [] ≡ r
        → IsRight fields reads (of_visit r)
    go (visited d memo) p =
        let h =
          visit_all-HasVisited reads (visit reads (suc (length fields)) [])
            (visit-HasVisited reads (suc (length fields)) []) fields [] d memo
            (λ f d e. absurd (ground (arith, e))) p in
        (h.1, λ f g e p m. AllBelow-mem memo e g (reads f) (h.0.layered f e p) m)
    go in_cycle p = visit_all-in_cycle reads (suc (length fields)) fields [] p
    go no_fuel p = absurd (visit_all-ne-no_fuel reads fields closed p)
