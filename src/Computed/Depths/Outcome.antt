-- ===== src/Computed/Depths/Outcome.antt =====
-- What the outcome of `compute_depths` says of the bindings.
use totem_backend.Base.{ℕ, ◌<◌, ◌≡◌, Option, some, List, Option-cases, inl, inr, In}
use totem_backend.Computed.Bindings.{Binding}
use totem_backend.Computed.Depths.{
  depth_of?, Edges, read_edges, reads_of, edge_fields, binding_fields, Depths, depths, reads_itself,
  cycle, exhausted, compute_depths,
}
use totem_backend.Computed.Depths.Fuel.{Chain}
use totem_backend.Computed.Depths.Layers.{
  IsRight, search-IsRight, edge_fields-reads_of, mem-binding_fields, field-binding_fields,
}
use totem_backend.Computed.Depths.Reads.{
  Reads, ReadsPlus, once, again, Reads-reads_of, reads_of-Reads, Reads-itself,
}

module _ (stored_fields : ℕ → ℕ → Option ℕ) (bindings : List Binding) where
  -- What an outcome says of the bindings.
  abbrev pub Describes : Depths → Type 0
  Describes (depths memo) =
      ((b : Binding) → In b bindings → (d : ℕ) × (depth_of? b.field memo ≡ some d))
      × ((f g d : ℕ)
          → depth_of? f memo ≡ some d
          → Reads stored_fields bindings f g
          → (e : ℕ) × (depth_of? g memo ≡ some e) × (e < d))
  Describes reads_itself = (f : ℕ) × Reads stored_fields bindings f f
  Describes cycle = (f : ℕ) × ReadsPlus stored_fields bindings f f
  Describes exhausted = ⊥

  ReadsPlus-Chain :
      (edges : Edges) {f g : ℕ}
      → read_edges stored_fields bindings ≡ some edges
      → Chain (reads_of edges) f g
      → ReadsPlus stored_fields bindings f g
  ReadsPlus-Chain edges {f} e (Chain.direct {g = g} m) =
      once (Reads-reads_of stored_fields bindings edges f g e m)
  ReadsPlus-Chain edges {f} e (Chain.further {g = g} {h = h} c m) =
      again (ReadsPlus-Chain edges e c) (Reads-reads_of stored_fields bindings edges g h e m)

  Describes-IsRight :
      (edges : Edges) (o : Depths)
      → read_edges stored_fields bindings ≡ some edges
      → IsRight (binding_fields bindings (edge_fields edges)) (reads_of edges) o
      → Describes o
  Describes-IsRight edges (depths memo) e h = (
    λ b i. h.0 b.field (field-binding_fields b bindings (edge_fields edges) i),
    λ f g d p r. h.1 f g d p (reads_of-Reads stored_fields bindings edges f g e r),
  )
  Describes-IsRight edges cycle e (f, c) = (f, ReadsPlus-Chain edges e c)
  Describes-IsRight edges reads_itself e h = absurd h
  Describes-IsRight edges exhausted e h = h

  -- The depths are computed, and then every field of a binding has one and is deeper than each
  -- stored field that it reads; or the error says what is wrong: some field reads itself, or some
  -- field does so through others. The search always ends.
  pub compute_depths-Describes : Describes (compute_depths stored_fields bindings)
  unfolding compute_depths
  compute_depths-Describes = elim (Option-cases (read_edges stored_fields bindings)) [
    | inl p ↦ rw p (Reads-itself stored_fields bindings p)
    | inr (edges, p) ↦ rw p (
        Describes-IsRight edges _ p (
          search-IsRight (binding_fields bindings (edge_fields edges)) (reads_of edges) (λ f g m.
            mem-binding_fields g bindings (edge_fields edges) (edge_fields-reads_of edges f g m))))
  ]
