-- ===== src/Computed/Depths.antt =====
-- `_compute_depths` of src/core/orm/fields/computed/dependency.py: the depth of each stored computed
-- field in the graph of what reads what, by a depth-first search, or an error where a field depends
-- on itself. The search takes fuel, one more than the number of fields (see `Fuel`).
pub mod Acyclic
pub mod Fuel
pub mod Layers
pub mod Reads
pub mod Outcome
use totem_backend.Base.{
  ℕ, zero, suc, max, Bool, true, false, Option, none, some, List, [], ◌∷◌, ◌++◌, ◌==◌, mem, add,
  length, if◌then◌else◌,
}
use totem_backend.Computed.Bindings.{Binding}

-- `depth`: the fields that were visited.
abbrev pub Memo : Type 0
Memo = List (ℕ × ℕ)

abbrev pub depth_of? : ℕ → Memo → Option ℕ
depth_of? f [] = none
depth_of? f ((g, d) ∷ memo) = if f == g then some d else depth_of? f memo

-- How a visit ends: the depth, with what was recorded; a field that is being visited; no fuel.
pub data Visit : Type 0 where
  visited : ℕ → Memo → Visit
  in_cycle : Visit
  no_fuel : Visit

-- Going on after a visit that returned; an exception ends the search.
abbrev pub and_then : Visit → (ℕ → Memo → Visit) → Visit
and_then (visited d memo) k = k d memo
and_then in_cycle k = in_cycle
and_then no_fuel k = no_fuel

-- `max((visit(dep) for dep in deps), default=-1) + 1`, from the value reached so far.
abbrev pub visit_deps : (ℕ → Memo → Visit) → List ℕ → ℕ → Memo → Visit
visit_deps v [] acc memo = visited acc memo
visit_deps v (g ∷ deps) acc memo =
    and_then (v g memo) (λ d memo'. visit_deps v deps (max acc (suc d)) memo')

abbrev pub record_depth : ℕ → Visit → Visit
record_depth f r = and_then r (λ d memo. visited d ((f, d) ∷ memo))

-- `visit(field)`, for the fields that are being visited.
unfoldable pub visit : (ℕ → List ℕ) → ℕ → List ℕ → ℕ → Memo → Visit
visit reads zero visiting f memo = no_fuel
visit reads (suc fuel) visiting f memo = elim (depth_of? f memo) [
  | some d ↦ visited d memo
  | none ↦ elim (mem f visiting) [
    | true ↦ in_cycle
    | false ↦ record_depth f (visit_deps (visit reads fuel (f ∷ visiting)) (reads f) 0 memo)
  ]
]

-- `for field in fields: visit(field)`
abbrev pub visit_all : (ℕ → Memo → Visit) → List ℕ → Memo → Visit
visit_all v [] memo = visited 0 memo
visit_all v (f ∷ fields) memo = and_then (v f memo) (λ d memo'. visit_all v fields memo')

-- The stored fields that the triggers of a binding of `field` name; `none` if it reads itself.
abbrev pub read_fields : (ℕ → Option ℕ) → ℕ → List ℕ → Option (List ℕ)
read_fields stored field [] = some []
read_fields stored field (name ∷ names) =
    let rest = read_fields stored field names in
    elim (stored name) [
      | none ↦ rest
      | some g ↦ if g == field then none else elim rest [ none ↦ none | some gs ↦ some (g ∷ gs) ]
    ]

-- An edge of the graph: a field, and a stored field that it reads.
abbrev pub Edges : Type 0
Edges = List (ℕ × ℕ)

abbrev pub edges_from : ℕ → List ℕ → Edges
edges_from f [] = []
edges_from f (g ∷ gs) = (f, g) ∷ edges_from f gs

-- `stored_fields` is `computed_fields(model, STORED)`: the field of a name.
abbrev pub read_edges : (ℕ → ℕ → Option ℕ) → List Binding → Option Edges
read_edges stored_fields [] = some []
read_edges stored_fields (b ∷ bindings) =
    let rest = read_edges stored_fields bindings in
    elim (read_fields (stored_fields b.watched_model) b.field b.trigger_fields) [
      | none ↦ none
      | some gs ↦ elim rest [ none ↦ none | some edges ↦ some (edges_from b.field gs ++ edges) ]
    ]

-- `reads[field]`
abbrev pub reads_of : Edges → ℕ → List ℕ
reads_of [] f = []
reads_of ((g, h) ∷ edges) f = if f == g then h ∷ reads_of edges f else reads_of edges f

abbrev pub edge_fields : Edges → List ℕ
edge_fields [] = []
edge_fields ((f, g) ∷ edges) = add f (add g (edge_fields edges))

abbrev pub binding_fields : List Binding → List ℕ → List ℕ
binding_fields [] fields = fields
binding_fields (b ∷ bindings) fields = add b.field (binding_fields bindings fields)

-- The depths, or the two `ImproperlyConfigured` errors.
pub data Depths : Type 0 where
  depths : Memo → Depths
  reads_itself : Depths
  cycle : Depths
  exhausted : Depths

abbrev pub of_visit : Visit → Depths
of_visit (visited d memo) = depths memo
of_visit in_cycle = cycle
of_visit no_fuel = exhausted

abbrev pub search_edges : List ℕ → Option Edges → Depths
search_edges fields none = reads_itself
search_edges fields (some edges) =
    of_visit (visit_all (visit (reads_of edges) (suc (length fields)) []) fields [])

abbrev pub known_edges : Option Edges → Edges
known_edges none = []
known_edges (some edges) = edges

-- `_compute_depths`, over the bindings of all watched models.
unfoldable pub compute_depths : (ℕ → ℕ → Option ℕ) → List Binding → Depths
compute_depths stored_fields bindings =
    let edges = read_edges stored_fields bindings in
    search_edges (binding_fields bindings (edge_fields (known_edges edges))) edges
