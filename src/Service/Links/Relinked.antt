-- ===== src/Service/Links/Relinked.antt =====
-- The links of a relation after an update.
use totem_backend.Base.{
  ℕ, ◌≡◌, refl, Bool, true, false, ◌&&◌, ◌||◌, not, some, List, [], ◌∷◌, ◌==◌, filter, mem, In,
  head, tail, if◌then◌else◌, arith, ==_refl, eq_of_==, Bool-cases, inl, inr, ◌∙◌, sym, subst,
}
use totem_backend.Base.Repeats.{has, distinct}
use totem_backend.Service.Links.{
  Link, Through, linked, is_refused, existing_links, relations_to_create, create_links, relink,
}
use totem_backend.Service.Links.Kept.{
  IsThrough, In-linked, In-filter, filter-In, linked-existing_links,
}
use totem_backend.Service.Links.Removed.{stays, delete_links-stays, linked-stays}
use totem_backend.Service.Links.Created.{
  pair_eq, has-relations_to_create, distinct-relations_to_create, In-append, linked-append,
  with_link, with_link-IsThrough,
}

-- Of the links that a test tells, none forbids another.
abbrev pub IsCompatible : (ℕ × ℕ → ℕ × ℕ → Bool) → (ℕ → ℕ → Bool) → Type 0
IsCompatible conflicts test =
    (s d s' d' : ℕ)
    → test s d ≡ true
    → test s' d' ≡ true
    → pair_eq (s, d) (s', d') ≡ false
    → conflicts (s, d) (s', d') ≡ false

is_refused-linked :
    (conflicts : ℕ × ℕ → ℕ × ℕ → Bool) (s d : ℕ) (links : List Link)
    → linked s d links ≡ false
    → ((l : Link) → In l links → conflicts (s, d) (l.src, l.dst) ≡ false)
    → is_refused conflicts s d links ≡ false
is_refused-linked conflicts s d [] f h = refl
is_refused-linked conflicts s d (l ∷ links) f h = ground (
  arith,
  f,
  h l (head refl),
  is_refused-linked conflicts s d links (ground (arith, f)) (λ m i. h m (tail i)),
)

-- The links there were, and those of the pairs.
abbrev Creates : (ℕ × ℕ → ℕ × ℕ → Bool) → List (ℕ × ℕ) → Through → Through → Type 0
Creates conflicts pairs through result =
    (create_links conflicts pairs through ≡ some result)
    × IsThrough result
    × ((s d : ℕ) → linked s d result.links ≡ (linked s d through.links || has pair_eq (s, d) pairs))
    × ((l : Link) → In l through.links → In l result.links)

abbrev new_link : ℕ → ℕ → Through → Link
new_link s d through = record { id = through.next_id; src = s; dst = d }

create_links-Creates :
    (conflicts : ℕ × ℕ → ℕ × ℕ → Bool) (pairs : List (ℕ × ℕ)) (through : Through)
    → IsThrough through
    → distinct pair_eq pairs ≡ true
    → ((s d : ℕ) → has pair_eq (s, d) pairs ≡ true → linked s d through.links ≡ false)
    → IsCompatible conflicts (λ s d. linked s d through.links || has pair_eq (s, d) pairs)
    → (result : Through) × Creates conflicts pairs through result
create_links-Creates conflicts [] through table h free fit =
    (through, (refl, table, λ s d. ground arith, λ l m. m))
create_links-Creates conflicts ((a, b) ∷ pairs) through table h free fit =
    let here = free a b (ground (arith, ==_refl a, ==_refl b)) in
    let (result, (run, good, links, kept)) =
      create_links-Creates conflicts pairs (with_link a b through)
        (with_link-IsThrough a b through table here) (ground (arith, h)) (λ s d m. still_free s d m)
        still_fit in
    (
      result,
      (
        rw (is_refused-linked conflicts a b through.links here (λ l i. fits l i here)) run,
        good,
        λ s d.
            links s d ∙ ground (arith, linked-append s d through.links (new_link a b through ∷ [])),
        λ l m. kept l (In-append through.links (new_link a b through ∷ []) m),
      ),
    )
  where
    fits :
        (l : Link)
        → In l through.links
        → linked a b through.links ≡ false
        → conflicts (a, b) (l.src, l.dst) ≡ false
    fits l i here =
        fit a b l.src l.dst (ground (arith, ==_refl a, ==_refl b))
          (ground (arith, In-linked l through.links i))
          (elim (Bool-cases (a == l.src && b == l.dst)) [
            | inl e ↦ absurd (
                ground (
                  arith,
                  here,
                  subst (λ k. linked k b through.links ≡ true)
                      (sym (eq_of_== a l.src (ground (arith, e))))
                      (subst (λ k. linked l.src k through.links ≡ true)
                        (sym (eq_of_== b l.dst (ground (arith, e)))) (In-linked l through.links i)),
                ))
            | inr e ↦ e
          ])

    still_fit :
        IsCompatible conflicts
          (λ s d. linked s d (with_link a b through).links || has pair_eq (s, d) pairs)
    still_fit s d s' d' m n apart =
        fit s d s' d'
          (ground (arith, m, linked-append s d through.links (new_link a b through ∷ [])))
          (ground (arith, n, linked-append s' d' through.links (new_link a b through ∷ []))) apart

    still_free :
        (s d : ℕ)
        → has pair_eq (s, d) pairs ≡ true
        → linked s d (with_link a b through).links ≡ false
    still_free s d m =
        linked-append s d through.links (new_link a b through ∷ [])
        ∙ elim (Bool-cases (a == s && b == d)) [
          | inl e ↦ absurd (
              ground (
                arith,
                h,
                subst (λ k. has pair_eq (k, b) pairs ≡ true)
                    (sym (eq_of_== a s (ground (arith, e))))
                    (subst (λ k. has pair_eq (s, k) pairs ≡ true)
                      (sym (eq_of_== b d (ground (arith, e)))) m),
              ))
          | inr e ↦ ground (arith, e, free s d (ground (arith, m)))
        ]

-- The links to be there after an update: those of the value from the rows updated, and the others.
abbrev pub linked_after : List ℕ → List ℕ → List Link → ℕ → ℕ → Bool
linked_after pks value links s d = if mem s pks then mem d value else linked s d links

module _ (through : Through) (pks value : List ℕ) (table : IsThrough through) where
  abbrev existing : List Link
  existing = existing_links pks through.links

  abbrev pairs : List (ℕ × ℕ)
  pairs = relations_to_create existing pks value

  abbrev rest : Through
  rest = record through { links = filter (stays through table pks value) through.links }

  old : (l : Link) → In l rest.links → In l through.links
  old l m = (filter-In (stays through table pks value) through.links m).0

  wanted :
      (s d : ℕ)
      → has pair_eq (s, d) pairs ≡ (mem s pks && (mem d value && not (linked s d through.links)))
  wanted s d =
      has-relations_to_create existing pks value s d
      ∙ ground (arith, linked-existing_links s d pks through.links)

  left :
      (s d : ℕ)
      → linked s d rest.links ≡ (linked s d through.links && (not (mem s pks) || mem d value))
  left s d = linked-stays s d pks value through.links

  after :
      (s d : ℕ)
      → (linked s d rest.links || has pair_eq (s, d) pairs) ≡ true
      → linked_after pks value through.links s d ≡ true
  after s d m = ground (arith, m, wanted s d, left s d)

  -- With a table where no two links join the same rows, an update that gives some rows, each once,
  -- the same distinct rows as the value of a many-to-many succeeds unless, of the links that are to be
  -- there, one forbids another by a constraint of the table. Each of the rows is then linked to
  -- exactly these, the links from other rows are those there were, the links that existed and are
  -- wanted are not touched, and no two links join the same rows.
  pub relink-linked :
      (conflicts : ℕ × ℕ → ℕ × ℕ → Bool)
      → distinct ◌==◌ pks ≡ true
      → distinct ◌==◌ value ≡ true
      → IsCompatible conflicts (linked_after pks value through.links)
      → (result : Through) × (relink conflicts pks value through ≡ some result)
        × IsThrough result
        × ((s d : ℕ) → linked s d result.links ≡ linked_after pks value through.links s d)
        × ((l : Link)
            → In l through.links
            → (not (mem l.src pks) || mem l.dst value) ≡ true
            → In l result.links)
  unfolding relink
  relink-linked conflicts h w fit =
      let (result, (run, good, links, kept)) =
        create_links-Creates conflicts pairs rest
          record {
            unique_ids = λ l m a b. table.unique_ids l m (old l a) (old m b);
            unique_pairs = λ l m a b. table.unique_pairs l m (old l a) (old m b);
            below = λ l a. table.below l (old l a);
          }
          (distinct-relations_to_create existing pks value h w)
          (λ s d m. ground (arith, m, wanted s d, left s d))
          (λ s d s' d' m n. fit s d s' d' (after s d m) (after s' d' n)) in
      (
        result,
        rw (delete_links-stays through table pks value) run,
        good,
        λ s d. links s d ∙ ground (arith, wanted s d, left s d),
        λ l m q. kept l (In-filter (stays through table pks value) through.links m q),
      )
