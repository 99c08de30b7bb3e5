-- ===== src/Computed/Refresh/Marking.antt =====
-- What marking and resolving keep of the pending fields: a predicate on the fields.
use totem_backend.Base.{
  ℕ, ◌≡◌, refl, Bool, true, Option, List, [], ◌∷◌, ◌==◌, mem, filter, map, if◌then◌else◌, All, In,
  head, tail, arith, Bool-cases, inl, inr, eq_of_==, subst,
}
use totem_backend.Computed.Bindings.{Binding, meets}
use totem_backend.Computed.Refresh.{
  Schema, Store, Instance, Pending, mark, add_roots, resolve_with, resolve, Resolved,
}

pub All-filter {ℓ κ} :
    {A : Type ℓ} (P : A → Type κ) (p : A → Bool) (xs : List A)
    → ((x : A) → In x xs → p x ≡ true → P x)
    → All P (filter p xs)
All-filter P p [] h = tt
All-filter P p (x ∷ xs) h = elim (Bool-cases (p x)) [
  | inl e ↦ rw e (h x (head refl) e, All-filter P p xs (λ y i. h y (tail i)))
  | inr e ↦ rw e (All-filter P p xs (λ y i. h y (tail i)))
]

pub In-filter {ℓ} :
    {A : Type ℓ} (p : A → Bool) (xs : List A) {x : A} → In x (filter p xs) → In x xs × (p x ≡ true)
In-filter p [] i = elim i [ ]
In-filter p (y ∷ ys) {x} i = elim (Bool-cases (p y)) [
  | inl e ↦
      In-cons (In-filter p ys) e
        (subst (λ c. In x (if c then y ∷ filter p ys else filter p ys)) e i)
  | inr e ↦
      let (j, q) =
        In-filter p ys (subst (λ c. In x (if c then y ∷ filter p ys else filter p ys)) e i) in
      (tail j, q)
]
  where
    In-cons :
        (In x (filter p ys) → In x ys × (p x ≡ true))
        → p y ≡ true
        → In x (y ∷ filter p ys)
        → In x (y ∷ ys) × (p x ≡ true)
    In-cons rest e (head q) = (head q, subst (λ z. p z ≡ true) q e)
    In-cons rest e (tail j) = let (k, q) = rest j in (tail k, q)

-- A predicate holds of the pending fields.
abbrev pub AllPending : (ℕ → Type 0) → Pending → Type 0
AllPending P = All (λ (e : ℕ × List ℕ). P e.0)

mark-AllPending :
    (P : ℕ → Type 0) (f : ℕ) (pks : List ℕ) (pending : Pending)
    → P f
    → AllPending P pending
    → AllPending P (mark f pks pending)
mark-AllPending P f pks [] h hs = (h, tt)
mark-AllPending P f pks ((g, old) ∷ pending) h hs = elim (Bool-cases (g == f)) [
  | inl e ↦ rw e hs
  | inr e ↦ rw e (hs.0, mark-AllPending P f pks pending h hs.1)
]

add_roots-AllPending :
    (P : ℕ → Type 0) (f : ℕ) (pks : List ℕ) (pending : Pending)
    → P f
    → AllPending P pending
    → AllPending P (add_roots f pks pending)
add_roots-AllPending P f [] pending h hs = hs
add_roots-AllPending P f (pk ∷ pks) pending h hs = mark-AllPending P f (pk ∷ pks) pending h hs

module _ (store : Store) (schema : Schema) where
  resolve_with-AllPending :
      (P : ℕ → Type 0) (s : store.State) (pks : List ℕ) (instances : Option (List Instance))
      (bindings : List Binding) (cache : Resolved) (pending : Pending)
      → All (λ b. P b.field) bindings
      → AllPending P pending
      → AllPending P (resolve_with store schema s pks instances cache bindings pending)
  resolve_with-AllPending P s pks instances [] cache pending h hs = hs
  resolve_with-AllPending P s pks instances (b ∷ bindings) cache pending h hs =
      resolve_with-AllPending P s pks instances bindings _ _ h.1
        (add_roots-AllPending P b.field _ pending h.0 hs)

  pub resolve-AllPending :
      (P : ℕ → Type 0) (s : store.State) (bindings : List Binding) (pks : List ℕ)
      (instances : Option (List Instance)) (pending : Pending)
      → All (λ b. P b.field) bindings
      → AllPending P pending
      → AllPending P (resolve store schema s bindings pks instances pending)
  unfolding resolve
  resolve-AllPending P s bindings pks instances pending h hs =
      resolve_with-AllPending P s pks instances bindings [] pending h hs

-- `&` of two sets of names is not empty only if some name is in both.
pub meets-map :
    (name_of : ℕ → ℕ) (names fields : List ℕ)
    → meets names (map name_of fields) ≡ true
    → (f : ℕ) × In f fields × (mem (name_of f) names ≡ true)
meets-map name_of [] fields h = absurd (ground (arith, h))
meets-map name_of (n ∷ names) fields h = elim (Bool-cases (mem n (map name_of fields))) [
  | inl e ↦ let (f, i, q) = mem-map n fields e in (f, i, ground (arith, q))
  | inr e ↦
      let (f, i, q) = meets-map name_of names fields (ground (arith, h, e)) in
      (f, i, ground (arith, q))
]
  where
    mem-map :
        (n : ℕ) (fields : List ℕ)
        → mem n (map name_of fields) ≡ true
        → (f : ℕ) × In f fields × (n ≡ name_of f)
    mem-map n [] e = absurd (ground (arith, e))
    mem-map n (g ∷ fields) e = elim (Bool-cases (n == name_of g)) [
      | inl q ↦ (g, head refl, eq_of_== n (name_of g) q)
      | inr q ↦ let (f, i, p) = mem-map n fields (ground (arith, e, q)) in (f, tail i, p)
    ]
