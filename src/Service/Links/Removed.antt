-- ===== src/Service/Links/Removed.antt =====
-- The links that an update of a relation leaves.
use totem_backend.Base.{
  ℕ, ◌≡◌, refl, Bool, true, ◌&&◌, ◌||◌, not, some, List, [], ◌∷◌, ◌==◌, filter, mem, In, head, tail,
  arith, ==_refl, eq_of_==, Bool-cases, Option-cases, inl, inr, ap, ◌∙◌, sym, subst,
}
use totem_backend.Base.Repeats.{mem-filter}
use totem_backend.Service.Links.{
  Link, Through, joins, linked, existing_links, existing_id, pks_to_keep, existing_values,
  pks_to_remove, delete_links,
}
use totem_backend.Service.Links.Kept.{
  IsThrough, In-filter, filter-In, existing_id-In, is_none-existing_id, In-linked,
  linked-existing_links, mem-pks_to_keep, pks_to_keep-mem,
}

pub filter-same :
    {A : Type 0} (p q : A → Bool) (xs : List A)
    → ((a : A) → In a xs → p a ≡ q a)
    → filter p xs ≡ filter q xs
filter-same p q [] h = refl
filter-same p q (x ∷ xs) h = rw (h x (head refl), filter-same p q xs (λ a m. h a (tail m))) refl

mem-existing_values :
    (existing links : List Link) {i : ℕ}
    → mem i (existing_values existing links) ≡ true
    → (m : Link) × In m links × (m.id ≡ i)
mem-existing_values existing [] h = absurd (ground (arith, h))
mem-existing_values existing (l ∷ links) {i} h = elim (Bool-cases (i == l.id)) [
  | inl q ↦ (l, head refl, sym (eq_of_== i l.id q))
  | inr q ↦
      let (m, there, same) = mem-existing_values existing links {i = i} (ground (arith, q, h)) in
      (m, tail there, same)
]

existing_values-mem :
    (existing links : List Link) (l : Link)
    → In l links
    → existing_id l.src l.dst existing ≡ some l.id
    → mem l.id (existing_values existing links) ≡ true
existing_values-mem existing [] l m e = elim m [ ]
existing_values-mem existing (k ∷ links) l (head same) e =
    rw (same, e) (ground (arith, ==_refl l.id))
existing_values-mem existing (k ∷ links) l (tail m) e =
    ground (arith, existing_values-mem existing links l m e)

-- A link is found from the rows it joins, and from its id.
module _ (through : Through) (table : IsThrough through) (pks value : List ℕ) where
  open table use {unique_ids, unique_pairs}

  abbrev existing : List Link
  existing = existing_links pks through.links

  existing-In : (l : Link) → In l existing → In l through.links × (mem l.src pks ≡ true)
  existing-In l m = filter-In (λ (k : Link). mem k.src pks) through.links m

  same_link : (l m : Link) → In l through.links → In m existing → m.id ≡ l.id → m ≡ l
  same_link l m there found e = unique_ids m l (existing-In m found).0 there e

  existing_id-existing :
      (l : Link)
      → In l through.links
      → mem l.src pks ≡ true
      → existing_id l.src l.dst existing ≡ some l.id
  existing_id-existing l there from = elim (Option-cases (existing_id l.src l.dst existing)) [
    | inl p ↦ absurd (
        ground (
          arith,
          p,
          from,
          is_none-existing_id l.src l.dst existing,
          linked-existing_links l.src l.dst pks through.links,
          In-linked l through.links there,
        ))
    | inr (j, p) ↦
        let (m, found, src, dst, id) = existing_id-In l.src l.dst existing {i = j} p in
        p
        ∙ ap some (
            sym id
            ∙ ap (λ (k : Link). k.id) (unique_pairs m l (existing-In m found).0 there src dst))
  ]

  mem-keep :
      (l : Link)
      → In l through.links
      → mem l.src pks ≡ true
      → mem l.id (pks_to_keep existing pks value) ≡ mem l.dst value
  mem-keep l there from = elim (Bool-cases (mem l.id (pks_to_keep existing pks value))) [
    | inl q ↦
        let (s, d, wanted, e) = mem-pks_to_keep existing pks value {i = l.id} q in
        let (m, found, src, dst, id) = existing_id-In s d existing {i = l.id} e in
        let to : d ≡ l.dst = sym dst ∙ ap (λ (k : Link). k.dst) (same_link l m there found id) in
        q ∙ sym (subst (λ k. mem k value ≡ true) to wanted)
    | inr q ↦ elim (Bool-cases (mem l.dst value)) [
      | inl wanted ↦ absurd (
          ground (
            arith,
            q,
            pks_to_keep-mem existing pks value l.src l.dst {i = l.id} from wanted
                (existing_id-existing l there from),
          ))
      | inr other ↦ q ∙ sym other
    ]
  ]

  mem-pks_to_remove :
      (l : Link)
      → In l through.links
      → mem l.id (pks_to_remove existing (pks_to_keep existing pks value))
        ≡ (mem l.src pks && not (mem l.dst value))
  mem-pks_to_remove l there =
      mem-filter l.id (λ i. not (mem i (pks_to_keep existing pks value)))
        (existing_values existing existing)
      ∙ elim (Bool-cases (mem l.src pks)) [
        | inl from ↦ ground (
          arith,
          from,
          mem-keep l there from,
          existing_values-mem existing existing l
              (In-filter (λ (k : Link). mem k.src pks) through.links there from)
              (existing_id-existing l there from),
        )
        | inr away ↦ elim (Bool-cases (mem l.id (existing_values existing existing))) [
          | inl q ↦
              let (m, found, id) = mem-existing_values existing existing {i = l.id} q in
              let from : mem l.src pks ≡ true =
                subst (λ (k : Link). mem k.src pks ≡ true) (same_link l m there found id)
                  (existing-In m found).1 in
              absurd (ground (arith, away, from))
          | inr q ↦ ground (arith, away, q)
        ]
      ]

  abbrev pub stays : Link → Bool
  stays l = not (mem l.src pks) || mem l.dst value

  -- The links left are those from other rows and those to a row of the new value.
  pub delete_links-stays :
      delete_links (pks_to_remove existing (pks_to_keep existing pks value)) through.links
      ≡ filter stays through.links
  delete_links-stays =
      filter-same
        (λ (l : Link). not (mem l.id (pks_to_remove existing (pks_to_keep existing pks value))))
        stays through.links (λ l m. ground (arith, mem-pks_to_remove l m))

pub linked-stays :
    (s d : ℕ) (pks value : List ℕ) (links : List Link)
    → linked s d (filter (λ (l : Link). not (mem l.src pks) || mem l.dst value) links)
      ≡ (linked s d links && (not (mem s pks) || mem d value))
linked-stays s d pks value [] = refl
linked-stays s d pks value (l ∷ links) = elim (Bool-cases (joins s d l)) [
  | inl e ↦
      let from = ap (λ k. mem k pks) (eq_of_== l.src s (ground (arith, e))) in
      let to = ap (λ k. mem k value) (eq_of_== l.dst d (ground (arith, e))) in
      ground (arith, e, from, to, linked-stays s d pks value links)
  | inr e ↦ ground (arith, e, linked-stays s d pks value links)
]
