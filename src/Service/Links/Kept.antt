-- ===== src/Service/Links/Kept.antt =====
-- Which links an update of a relation deletes.
use totem_backend.Base.{
  ℕ, ◌<◌, ◌≡◌, refl, Bool, true, ◌&&◌, not, some, List, [], ◌∷◌, ◌==◌, filter, mem, In, head, tail,
  is_none, arith, ==_refl, eq_of_==, Bool-cases, Option-cases, inl, inr, ap, ◌∙◌, sym, subst,
  mem-append,
}
use totem_backend.Service.Links.{
  Link, Through, linked, existing_links, existing_id, kept_from, pks_to_keep,
}

-- No two links have an id, or join the same rows, and the next id is above those there are.
pub record IsThrough (through : Through) : Type 0 where
  pub unique_ids : (l m : Link) → In l through.links → In m through.links → l.id ≡ m.id → l ≡ m
  pub unique_pairs :
      (l m : Link) → In l through.links → In m through.links → l.src ≡ m.src → l.dst ≡ m.dst → l ≡ m
  pub below : (l : Link) → In l through.links → l.id < through.next_id

pub In-filter :
    {A : Type 0} (p : A → Bool) (xs : List A) {a : A} → In a xs → p a ≡ true → In a (filter p xs)
In-filter p [] m q = elim m [ ]
In-filter p (x ∷ xs) {a} (head e) q =
    rw (subst (λ y. p y ≡ true) {x = a} {y = x} (sym e) q) (head e)
In-filter p (x ∷ xs) (tail m) q = elim (Bool-cases (p x)) [
  | inl y ↦ rw (y) (tail (In-filter p xs m q))
  | inr y ↦ rw (y) (In-filter p xs m q)
]

filter_step :
    {A : Type 0} (p : A → Bool) {x a : A} {xs ys : List A}
    → In a (x ∷ ys)
    → p x ≡ true
    → (In a ys → In a (x ∷ xs) × (p a ≡ true))
    → In a (x ∷ xs) × (p a ≡ true)
filter_step p (head e) q later = (head e, ap p (sym e) ∙ q)
filter_step p (tail t) q later = later t

pub filter-In :
    {A : Type 0} (p : A → Bool) (xs : List A) {a : A} → In a (filter p xs) → In a xs × (p a ≡ true)
filter-In p [] m = elim m [ ]
filter-In p (x ∷ xs) {a} m = elim (Bool-cases (p x)) [
  | inl y ↦
      filter_step p (rw (y, filter) at m) y
        (λ t. let (there, q) = filter-In p xs t in (tail there, q))
  | inr y ↦ let (there, q) = filter-In p xs (rw (y, filter) at m) in (tail there, q)
]

-- An id in the dict of the existing links is that of a link between the two rows.
pub existing_id-In :
    (s d : ℕ) (links : List Link) {i : ℕ}
    → existing_id s d links ≡ some i
    → (l : Link) × In l links × (l.src ≡ s) × (l.dst ≡ d) × (l.id ≡ i)
existing_id-In s d [] e = absurd (ground (arith, e))
existing_id-In s d (l ∷ links) {i} e = elim (Option-cases (existing_id s d links)) [
  | inl p ↦ (l, head refl, ground (arith, p, e), ground (arith, p, e), ground (arith, p, e))
  | inr (j, p) ↦
      let (m, there, from, to, same) =
        existing_id-In s d links {i = i} (p ∙ ground (arith, p, e)) in
      (m, tail there, from, to, same)
]

pub is_none-existing_id :
    (s d : ℕ) (links : List Link) → is_none (existing_id s d links) ≡ not (linked s d links)
is_none-existing_id s d [] = refl
is_none-existing_id s d (l ∷ links) = elim (Option-cases (existing_id s d links)) [
  | inl p ↦ ground (arith, p, is_none-existing_id s d links)
  | inr (j, p) ↦ ground (arith, p, is_none-existing_id s d links)
]

pub In-linked : (l : Link) (links : List Link) → In l links → linked l.src l.dst links ≡ true
In-linked l [] m = elim m [ ]
In-linked l (m ∷ links) (head e) = rw (e) (ground (arith, ==_refl l.src, ==_refl l.dst))
In-linked l (m ∷ links) (tail t) = ground (arith, In-linked l links t)

pub linked-existing_links :
    (s d : ℕ) (pks : List ℕ) (links : List Link)
    → linked s d (existing_links pks links) ≡ (mem s pks && linked s d links)
linked-existing_links s d pks [] = ground arith
linked-existing_links s d pks (l ∷ links) = elim (Bool-cases (l.src == s)) [
  | inl e ↦
      let same = ap (λ k. mem k pks) (eq_of_== l.src s e) in
      ground (arith, e, same, linked-existing_links s d pks links)
  | inr e ↦ ground (arith, e, linked-existing_links s d pks links)
]

mem-kept_from :
    (existing : List Link) (pk : ℕ) (value : List ℕ) {i : ℕ}
    → mem i (kept_from existing pk value) ≡ true
    → (d : ℕ) × (mem d value ≡ true) × (existing_id pk d existing ≡ some i)
mem-kept_from existing pk [] h = absurd (ground (arith, h))
mem-kept_from existing pk (d ∷ value) {i} h = elim (Option-cases (existing_id pk d existing)) [
  | inl p ↦
      let (k, m, e) = mem-kept_from existing pk value {i = i} (rw (p, kept_from) at h) in
      (k, ground (arith, m), e)
  | inr (j, p) ↦ elim (Bool-cases (i == j)) [
    | inl q ↦ (d, ground (arith, ==_refl d), p ∙ ground (arith, q))
    | inr q ↦
        let (k, m, e) = mem-kept_from existing pk value {i = i} (ground (arith, p, q, h)) in
        (k, ground (arith, m), e)
  ]
]

kept_from-mem :
    (existing : List Link) (pk : ℕ) (value : List ℕ) (d : ℕ) {i : ℕ}
    → mem d value ≡ true
    → existing_id pk d existing ≡ some i
    → mem i (kept_from existing pk value) ≡ true
kept_from-mem existing pk [] d m e = absurd (ground (arith, m))
kept_from-mem existing pk (k ∷ value) d {i} m e = elim (Bool-cases (d == k)) [
  | inl q ↦
      let here = ap (λ j. existing_id pk j existing) (sym (eq_of_== d k q)) ∙ e in
      rw (here) (ground (arith, ==_refl i))
  | inr q ↦
      let later = kept_from-mem existing pk value d {i = i} (ground (arith, q, m)) e in
      elim (Option-cases (existing_id pk k existing)) [
        | inl p ↦ ground (arith, p, later)
        | inr (j, p) ↦ ground (arith, p, later)
      ]
]

pub mem-pks_to_keep :
    (existing : List Link) (pks value : List ℕ) {i : ℕ}
    → mem i (pks_to_keep existing pks value) ≡ true
    → (s d : ℕ) × (mem d value ≡ true) × (existing_id s d existing ≡ some i)
mem-pks_to_keep existing [] value h = absurd (ground (arith, h))
mem-pks_to_keep existing (pk ∷ pks) value {i} h =
    elim (Bool-cases (mem i (kept_from existing pk value))) [
      | inl q ↦ let (d, m, e) = mem-kept_from existing pk value {i = i} q in (pk, d, m, e)
      | inr q ↦ mem-pks_to_keep existing pks value {i = i} (
          ground (
            arith,
            q,
            h,
            mem-append i (kept_from existing pk value) (pks_to_keep existing pks value),
          ))
    ]

pub pks_to_keep-mem :
    (existing : List Link) (pks value : List ℕ) (s d : ℕ) {i : ℕ}
    → mem s pks ≡ true
    → mem d value ≡ true
    → existing_id s d existing ≡ some i
    → mem i (pks_to_keep existing pks value) ≡ true
pks_to_keep-mem existing [] value s d h m e = absurd (ground (arith, h))
pks_to_keep-mem existing (pk ∷ pks) value s d {i} h m e =
    mem-append i (kept_from existing pk value) (pks_to_keep existing pks value)
    ∙ elim (Bool-cases (s == pk)) [
      | inl q ↦ ground (
        arith,
        kept_from-mem existing pk value d {i = i} m
            (ap (λ j. existing_id j d existing) (sym (eq_of_== s pk q)) ∙ e),
      )
      | inr q ↦
          ground (arith, pks_to_keep-mem existing pks value s d {i = i} (ground (arith, q, h)) m e)
    ]
