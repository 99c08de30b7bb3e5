-- ===== src/Computed/Depths/Reads.antt =====
-- What it means that a stored field reads another, and that the graph has just these edges.
use totem_backend.Base.{
  ℕ, ◌≡◌, refl, true, ◌||◌, ◌&&◌, Option, none, some, List, [], ◌∷◌, ◌++◌, ◌==◌, mem, arith,
  Bool-cases, Option-cases, inl, inr, sym, subst, ap, In, head, tail,
}
use totem_backend.Computed.Bindings.{Binding}
use totem_backend.Computed.Depths.{read_fields, Edges, edges_from, read_edges, reads_of}

-- A field reads a stored field: a binding of it watches the model of that field, by its name.
pub data Reads (stored_fields : ℕ → ℕ → Option ℕ) (bindings : List Binding) (f g : ℕ) : Type 0 where
  through :
      (b : Binding) (name : ℕ)
      → In b bindings
      → b.field ≡ f
      → mem name b.trigger_fields ≡ true
      → stored_fields b.watched_model name ≡ some g
      → Reads stored_fields bindings f g

-- A field reads another, directly or through fields in between.
pub data ReadsPlus (stored_fields : ℕ → ℕ → Option ℕ) (bindings : List Binding) (f : ℕ)
    : ℕ → Type 0 where
  once : {g : ℕ} → Reads stored_fields bindings f g → ReadsPlus stored_fields bindings f g
  again :
      {g h : ℕ}
      → ReadsPlus stored_fields bindings f g
      → Reads stored_fields bindings g h
      → ReadsPlus stored_fields bindings f h

mem-reads_of-append :
    (g f : ℕ) (xs ys : Edges)
    → mem g (reads_of (xs ++ ys) f) ≡ (mem g (reads_of xs f) || mem g (reads_of ys f))
mem-reads_of-append g f [] ys = refl
mem-reads_of-append g f ((h, k) ∷ xs) ys = ground (arith, mem-reads_of-append g f xs ys)

mem-reads_of-edges_from :
    (g f h : ℕ) (gs : List ℕ) → mem g (reads_of (edges_from h gs) f) ≡ (f == h && mem g gs)
mem-reads_of-edges_from g f h [] = ground arith
mem-reads_of-edges_from g f h (k ∷ gs) = ground (arith, mem-reads_of-edges_from g f h gs)

-- The names that `read_fields` follows.
named_of_read :
    (stored : ℕ → Option ℕ) (f : ℕ) (names gs : List ℕ) (g : ℕ)
    → read_fields stored f names ≡ some gs
    → mem g gs ≡ true
    → (name : ℕ) × (mem name names ≡ true) × (stored name ≡ some g)
named_of_read stored f [] gs g e m = absurd (ground (arith, e, m))
named_of_read stored f (n ∷ names) gs g e m = elim (Option-cases (read_fields stored f names)) [
  | inl p ↦ elim (Option-cases (stored n)) [
    | inl q ↦ absurd (ground (arith, e, p, q))
    | inr (k, q) ↦ absurd (ground (arith, e, p, q))
  ]
  | inr (rest, p) ↦ elim (Option-cases (stored n)) [
    | inl q ↦
        let (name, inside, r) =
          named_of_read stored f names rest g p (ground (arith, e, m, p, q)) in
        (name, ground (arith, inside), r)
    | inr (k, q) ↦ elim (Bool-cases (g == k)) [
      | inl same ↦ (n, ground arith, ground (arith, q, same))
      | inr other ↦
          let (name, inside, r) =
            named_of_read stored f names rest g p (ground (arith, e, m, p, q, other)) in
          (name, ground (arith, inside), r)
    ]
  ]
]

read_of_named :
    (stored : ℕ → Option ℕ) (f : ℕ) (names gs : List ℕ) (g name : ℕ)
    → read_fields stored f names ≡ some gs
    → mem name names ≡ true
    → stored name ≡ some g
    → mem g gs ≡ true
read_of_named stored f [] gs g name e m q = absurd (ground (arith, m))
read_of_named stored f (n ∷ names) gs g name e m q =
    elim (Option-cases (read_fields stored f names)) [
      | inl p ↦ elim (Option-cases (stored n)) [
        | inl s ↦ absurd (ground (arith, e, p, s))
        | inr (k, s) ↦ absurd (ground (arith, e, p, s))
      ]
      | inr (rest, p) ↦ elim (Option-cases (stored n)) [
        | inl s ↦ ground (arith, read_of_named stored f names rest g name p, e, m, p, q, s)
        | inr (k, s) ↦ ground (arith, read_of_named stored f names rest g name p, e, m, p, q, s)
      ]
    ]

-- A field that `read_fields` refuses is named by one of its own triggers.
named_itself :
    (stored : ℕ → Option ℕ) (f : ℕ) (names : List ℕ)
    → read_fields stored f names ≡ none
    → (name : ℕ) × (mem name names ≡ true) × (stored name ≡ some f)
named_itself stored f [] e = absurd (ground (arith, e))
named_itself stored f (n ∷ names) e = elim (Option-cases (stored n)) [
  | inl s ↦
      let (name, inside, q) = named_itself stored f names (ground (arith, e, s)) in
      (name, ground (arith, inside), q)
  | inr (k, s) ↦ elim (Bool-cases (k == f)) [
    | inl same ↦ (n, ground arith, ground (arith, s, same))
    | inr other ↦
        let (name, inside, q) = named_itself stored f names (ground (arith, e, s, other)) in
        (name, ground (arith, inside), q)
  ]
]

-- The parts of a list of edges that was read.
read_edges-some :
    (stored_fields : ℕ → ℕ → Option ℕ) (b : Binding) (bindings : List Binding) (edges : Edges)
    → read_edges stored_fields (b ∷ bindings) ≡ some edges
    → (gs : List ℕ) × (rest : Edges) × (read_fields
          (stored_fields b.watched_model)
          b.field
          b.trigger_fields
        ≡ some gs)
      × (read_edges stored_fields bindings ≡ some rest)
      × (edges ≡ edges_from b.field gs ++ rest)
read_edges-some stored_fields b bindings edges e =
    elim (Option-cases (read_fields (stored_fields b.watched_model) b.field b.trigger_fields)) [
      | inl p ↦ absurd (ground (arith, e, p))
      | inr (gs, p) ↦ elim (Option-cases (read_edges stored_fields bindings)) [
        | inl q ↦ absurd (ground (arith, e, p, q))
        | inr (rest, q) ↦ (gs, rest, p, q, ground (arith, e, p, q))
      ]
    ]

Reads-tail :
    (stored_fields : ℕ → ℕ → Option ℕ) (c : Binding) (bindings : List Binding) {f g : ℕ}
    → Reads stored_fields bindings f g
    → Reads stored_fields (c ∷ bindings) f g
Reads-tail stored_fields c bindings (through b name i e m q) = through b name (tail i) e m q

-- An edge of the graph is a field reading another.
pub Reads-reads_of :
    (stored_fields : ℕ → ℕ → Option ℕ) (bindings : List Binding) (edges : Edges) (f g : ℕ)
    → read_edges stored_fields bindings ≡ some edges
    → mem g (reads_of edges f) ≡ true
    → Reads stored_fields bindings f g
Reads-reads_of stored_fields [] edges f g e m = absurd (ground (arith, e, m))
Reads-reads_of stored_fields (b ∷ bindings) edges f g e m =
    let (gs, rest, p, q, r) = read_edges-some stored_fields b bindings edges e in
    let split = mem-reads_of-append g f (edges_from b.field gs) rest in
    let own = mem-reads_of-edges_from g f b.field gs in
    elim (Bool-cases (mem g (reads_of rest f))) [
      | inl later ↦
          Reads-tail stored_fields b bindings
            (Reads-reads_of stored_fields bindings rest f g q later)
      | inr here ↦
          let (name, inside, s) =
            named_of_read (stored_fields b.watched_model) b.field b.trigger_fields gs g p
              (ground (arith, split, own, m, r, here)) in
          through b name (head refl) (ground (arith, split, own, m, r, here)) inside s
    ]

-- A field reading another is an edge of the graph.
pub reads_of-Reads :
    (stored_fields : ℕ → ℕ → Option ℕ) (bindings : List Binding) (edges : Edges) (f g : ℕ)
    → read_edges stored_fields bindings ≡ some edges
    → Reads stored_fields bindings f g
    → mem g (reads_of edges f) ≡ true
reads_of-Reads stored_fields [] edges f g e (through b name i k m q) = elim i [ ]
reads_of-Reads stored_fields (c ∷ bindings) edges f g e (through b name (head w) k m q) =
    let (gs, rest, p, later, r) = read_edges-some stored_fields c bindings edges e in
    let read =
      read_of_named (stored_fields c.watched_model) c.field c.trigger_fields gs g name p
        (subst (λ (x : Binding). mem name x.trigger_fields ≡ true) (sym w) m)
        (subst (λ (x : Binding). stored_fields x.watched_model name ≡ some g) (sym w) q) in
    ground (
      arith,
      r,
      read,
      ap (λ (x : Binding). x.field) w,
      k,
      mem-reads_of-append g f (edges_from c.field gs) rest,
      mem-reads_of-edges_from g f c.field gs,
    )
reads_of-Reads stored_fields (c ∷ bindings) edges f g e (through b name (tail i) k m q) =
    let (gs, rest, p, later, r) = read_edges-some stored_fields c bindings edges e in
    ground (
      arith,
      r,
      reads_of-Reads stored_fields bindings rest f g later (through b name i k m q),
      mem-reads_of-append g f (edges_from c.field gs) rest,
    )

-- The search for edges fails only where a field reads itself.
pub Reads-itself :
    (stored_fields : ℕ → ℕ → Option ℕ) (bindings : List Binding)
    → read_edges stored_fields bindings ≡ none
    → (f : ℕ) × Reads stored_fields bindings f f
Reads-itself stored_fields [] e = absurd (ground (arith, e))
Reads-itself stored_fields (b ∷ bindings) e =
    elim (Option-cases (read_fields (stored_fields b.watched_model) b.field b.trigger_fields)) [
      | inl p ↦
          let (name, inside, q) =
            named_itself (stored_fields b.watched_model) b.field b.trigger_fields p in
          (b.field, through b name (head refl) refl inside q)
      | inr (gs, p) ↦
          let (f, r) = Reads-itself stored_fields bindings (ground (arith, e, p)) in
          (f, Reads-tail stored_fields b bindings r)
    ]
