-- ===== src/Service/Resequence/Numbered.antt =====
-- What a resequence writes.
use totem_backend.Base.{
  ℕ, zero, suc, ◌+◌, ◌≡◌, refl, Bool, true, false, ◌&&◌, not, Option, none, some, List, [], ◌∷◌,
  ◌++◌, ◌==◌, any, mem, length, find?, arith, ==_refl, eq_of_==, Bool-cases, Option-cases, inl, inr,
  ap, ◌∙◌, sym, subst,
}
use totem_backend.Base.Repeats.{
  mem-has, is_empty, distinct, has, is_empty-repeated, is_empty-append,
}
use totem_backend.Service.Resequence.{
  SequencedRow, SequencedStore, Numbering, Answer, numbered, coerce, is_found, missing_pks,
  case_when, number_row, number_rows, refresh_rows, resequence_coerced, resequence,
}
use totem_backend.Service.Resequence.Complete.{
  stands_again, is_complete, is_written, is_written-is_complete, has-coerce, length-coerce,
}

-- The row with a key.
abbrev pub row_at : ℕ → List SequencedRow → Option SequencedRow
row_at pk rows = find? (λ (r : SequencedRow). r.pk == pk) rows

abbrev pub number_of : Option SequencedRow → Option (Option ℕ)
number_of none = none
number_of (some r) = some r.sequence

-- The number of the row with a key, if there is one.
abbrev pub number_at : ℕ → List SequencedRow → Option (Option ℕ)
number_at pk rows = number_of (row_at pk rows)

-- The value at a place.
abbrev pub get_elem? : List ℕ → ℕ → Option ℕ
get_elem? [] i = none
get_elem? (x ∷ xs) zero = some x
get_elem? (x ∷ xs) (suc i) = get_elem? xs i

abbrev pub unique_pks : List SequencedRow → Bool
unique_pks [] = true
unique_pks (r ∷ rows) = not (any (λ (s : SequencedRow). s.pk == r.pk) rows) && unique_pks rows

module _ {M : Type 0} (numbering : Numbering M) where
  open numbering use {to_python, is_updatable, stamped}

  row_at-number_rows :
      (k : ℕ) (pks : List ℕ) (offset : ℕ) (rows : List SequencedRow)
      → row_at k (number_rows numbering pks offset rows)
        ≡ elim (row_at k rows) [ none ↦ none | some r ↦ some (number_row numbering pks offset r) ]
  row_at-number_rows k pks offset [] = refl
  row_at-number_rows k pks offset (r ∷ rows) = elim (Bool-cases (is_updatable r && mem r.pk pks)) [
    | inl u ↦ ground (arith, u, row_at-number_rows k pks offset rows)
    | inr u ↦ ground (arith, u, row_at-number_rows k pks offset rows)
  ]

  case_when-get_elem? :
      (pks : List ℕ) (offset i : ℕ) {pk : ℕ}
      → distinct ◌==◌ pks ≡ true
      → get_elem? pks i ≡ some pk
      → (case_when pk offset pks ≡ some (suc (offset + i)))
        × (has ◌==◌ pk pks ≡ true)
        × (mem pk pks ≡ true)
  case_when-get_elem? [] offset i d e = absurd (ground (arith, e))
  case_when-get_elem? (p ∷ pks) offset zero d e = ground (arith, e)
  case_when-get_elem? (p ∷ pks) offset (suc i) {pk} d e =
      let (found, held, holds) =
        case_when-get_elem? pks (suc offset) i {pk = pk} (ground (arith, d)) e in
      (ground (arith, d, found, held), ground (arith, held), ground (arith, holds))

  first_or_later :
      (w pk i : ℕ) (vs coerced : List ℕ) {v : ℕ}
      → to_python w ≡ some pk
      → get_elem? (w ∷ vs) i ≡ some v
      → ((j : ℕ)
          → get_elem? vs j ≡ some v
          → (k : ℕ) × (to_python v ≡ some k) × (get_elem? coerced j ≡ some k))
      → (k : ℕ) × (to_python v ≡ some k) × (get_elem? (pk ∷ coerced) i ≡ some k)
  first_or_later w pk zero vs coerced p e later = (pk, ground (arith, p, e), refl)
  first_or_later w pk (suc i) vs coerced p e later = later i e

  get_elem?-coerce :
      (vs : List ℕ) (i : ℕ) {v : ℕ}
      → is_empty (coerce numbering vs).1 ≡ true
      → get_elem? vs i ≡ some v
      → (pk : ℕ) × (to_python v ≡ some pk) × (get_elem? (coerce numbering vs).0 i ≡ some pk)
  get_elem?-coerce [] i h e = absurd (ground (arith, e))
  get_elem?-coerce (w ∷ vs) i {v} h e = elim (Option-cases (to_python w)) [
    | inl p ↦ absurd (ground (arith, p, h))
    | inr (pk, p) ↦ rw (p) (
        first_or_later w pk i vs (coerce numbering vs).0 p e
          (λ j e'. get_elem?-coerce vs j {v = v} (rw (p) at h) e'))
  ]

  found_here :
      (rows : List SequencedRow) (r : SequencedRow) (pk : ℕ)
      → not (any (λ (s : SequencedRow). s.pk == r.pk) rows) ≡ true
      → r.pk ≡ pk
      → is_found numbering rows pk ≡ false
  found_here [] r pk u e = refl
  found_here (s ∷ rows) r pk u e = ground (arith, u, e, found_here rows r pk (ground (arith, u)) e)

  row_at-is_found :
      (rows : List SequencedRow) (pk : ℕ)
      → unique_pks rows ≡ true
      → is_found numbering rows pk ≡ true
      → (r : SequencedRow) × (row_at pk rows ≡ some r) × (is_updatable r ≡ true) × (r.pk ≡ pk)
  row_at-is_found [] pk u f = absurd (ground (arith, f))
  row_at-is_found (s ∷ rows) pk u f = elim (Bool-cases (s.pk == pk)) [
    | inl e ↦ (
      s,
      ground (arith, e),
      ground (arith, e, f, found_here rows s pk (ground (arith, u)) (eq_of_== s.pk pk e)),
      eq_of_== s.pk pk e,
    )
    | inr e ↦
        let (r, at, may, same) =
          row_at-is_found rows pk (ground (arith, u)) (ground (arith, e, f)) in
        (r, ground (arith, e, at), may, same)
  ]

  is_found-has :
      (rows : List SequencedRow) (pks : List ℕ) (k : ℕ)
      → is_empty (missing_pks numbering rows pks) ≡ true
      → has ◌==◌ k pks ≡ true
      → is_found numbering rows k ≡ true
  is_found-has rows [] k m h = absurd (ground (arith, h))
  is_found-has rows (p ∷ pks) k m h = elim (Bool-cases (p == k)) [
    | inl e ↦ elim (Bool-cases (is_found numbering rows p)) [
      | inl f ↦ subst (λ q. is_found numbering rows q ≡ true) (eq_of_== p k e) f
      | inr f ↦ absurd (ground (arith, f, m))
    ]
    | inr e ↦ elim (Bool-cases (is_found numbering rows p)) [
      | inl f ↦ is_found-has rows pks k (ground (arith, f, m)) (ground (arith, e, h))
      | inr f ↦ absurd (ground (arith, f, m))
    ]
  ]

  numbered_row :
      (pks : List ℕ) (offset : ℕ) (rows : List SequencedRow) (i : ℕ) {pk : ℕ}
      → unique_pks rows ≡ true
      → distinct ◌==◌ pks ≡ true
      → is_empty (missing_pks numbering rows pks) ≡ true
      → get_elem? pks i ≡ some pk
      → number_at pk (number_rows numbering pks offset rows) ≡ some (some (suc (offset + i)))
  numbered_row pks offset rows i {pk} u d m e =
      let (number, held, holds) = case_when-get_elem? pks offset i {pk = pk} d e in
      let (r, at, may, same) = row_at-is_found rows pk u (is_found-has rows pks pk m held) in
      let row = record r { sequence = some (suc (offset + i)); content = stamped r } in
      let there : row_at pk (number_rows numbering pks offset rows) ≡ some row =
        row_at-number_rows pk pks offset rows ∙ rw (at, may, same, holds, number) refl in
      ap number_of there

  number_at-refresh_rows :
      (k : ℕ) (pks : List ℕ) (all rows : List SequencedRow)
      → number_at k (refresh_rows numbering pks all rows) ≡ number_at k rows
  number_at-refresh_rows k pks all [] = refl
  number_at-refresh_rows k pks all (r ∷ rows) = elim (Bool-cases (r.pk == k)) [
    | inl e ↦ rw (e) refl
    | inr e ↦ rw (e) (number_at-refresh_rows k pks all rows)
  ]

  row_at-pk :
      (k : ℕ) (rows : List SequencedRow) {r : SequencedRow} → row_at k rows ≡ some r → r.pk ≡ k
  row_at-pk k [] e = absurd (ground (arith, e))
  row_at-pk k (s ∷ rows) {r} e = elim (Bool-cases (s.pk == k)) [
    | inl q ↦
        subst (λ (t : SequencedRow). t.pk ≡ k) {x = s} {y = r} (ground (arith, q, e))
          (eq_of_== s.pk k q)
    | inr q ↦ row_at-pk k rows {r = r} (ground (arith, q, e))
  ]

  kept_row :
      (pks : List ℕ) (offset k : ℕ) (rows : List SequencedRow)
      → has ◌==◌ k pks ≡ false
      → row_at k (number_rows numbering pks offset rows) ≡ row_at k rows
  kept_row pks offset k rows h =
      row_at-number_rows k pks offset rows ∙ elim (Option-cases (row_at k rows)) [
        | inl p ↦ rw (p) refl
        | inr (r, p) ↦
            let out : mem r.pk pks ≡ false =
              subst (λ j. mem j pks ≡ false) (sym (row_at-pk k rows p)) (mem-has k pks ∙ h) in
            rw (p) (ground (arith, out))
      ]

  abbrev renumbered : List ℕ → ℕ → List SequencedRow → List SequencedRow
  renumbered pks offset rows =
      let numbers = number_rows numbering pks offset rows in
      refresh_rows numbering pks numbers numbers

  number_at-renumbered :
      (k : ℕ) (pks : List ℕ) (offset : ℕ) (rows : List SequencedRow)
      → number_at k (renumbered pks offset rows)
        ≡ number_at k (number_rows numbering pks offset rows)
  number_at-renumbered k pks offset rows = number_at-refresh_rows k pks _ _

  -- The list with its keys distinct, none missing, none ill-typed.
  resequence_coerced-numbers :
      (coerced invalid : List ℕ) (offset : ℕ) (store : SequencedStore)
      → is_written numbering store.rows (coerced, invalid) ≡ true
      → resequence_coerced numbering (coerced, invalid) offset store ≡ (
        numbered (length coerced),
        record { rows = renumbered coerced offset store.rows; marked = store.marked ++ coerced },
      )
  resequence_coerced-numbers coerced invalid offset store w =
      let d = is_empty-repeated ◌==◌ ==_refl eq_of_== coerced in
      let p : distinct ◌==◌ coerced ≡ true = ground (arith, w) in
      let q : is_empty (invalid ++ missing_pks numbering store.rows coerced) ≡ true =
        ground (arith, w) in
      rw (d, p, q) refl

  -- When each value is the key of a row that the user may update, and no two are the same, all are
  -- numbered: the row of the value at place `i` gets `offset + i + 1`, and the rows of no value keep
  -- the number that they have.
  pub resequence_numbers :
      (vs : List ℕ) (offset : ℕ) (store : SequencedStore)
      → unique_pks store.rows ≡ true
      → is_complete numbering store.rows vs ≡ true
      → ((resequence numbering vs offset store).0 ≡ numbered (length vs))
        × ((i v : ℕ)
            → get_elem? vs i ≡ some v
            → (pk : ℕ) × (to_python v ≡ some pk)
              × (number_at pk (resequence numbering vs offset store).1.rows
                  ≡ some (some (suc (offset + i)))))
        × ((k : ℕ)
            → stands_again numbering k vs ≡ false
            → number_at k (resequence numbering vs offset store).1.rows ≡ number_at k store.rows)
  unfolding resequence
  resequence_numbers [] offset store u h = (refl, λ i v e. absurd (ground (arith, e)), λ k s. refl)
  resequence_numbers (v ∷ vs) offset store u h =
      let coerced = (coerce numbering (v ∷ vs)).0 in
      let invalid = (coerce numbering (v ∷ vs)).1 in
      let w = is_written-is_complete numbering store.rows (v ∷ vs) ∙ h in
      let run = resequence_coerced-numbers coerced invalid offset store w in
      let none_wrong : is_empty (invalid ++ missing_pks numbering store.rows coerced) ≡ true =
        ground (arith, w) in
      let both = is_empty-append invalid (missing_pks numbering store.rows coerced) in
      (
        ap (λ (t : Answer M × SequencedStore). t.0) run
            ∙ ap numbered (length-coerce numbering (v ∷ vs) (ground (arith, none_wrong, both))),
        λ i x e.
            let (pk, q, at) =
              get_elem?-coerce (v ∷ vs) i {v = x} (ground (arith, none_wrong, both)) e in
            (
              pk,
              q,
              ap (λ (t : Answer M × SequencedStore). number_at pk t.1.rows) run
                  ∙ number_at-renumbered pk coerced offset store.rows
                  ∙ numbered_row coerced offset store.rows i {pk = pk} u (ground (arith, w))
                      (ground (arith, none_wrong, both)) at,
            ),
        λ k out.
            ap (λ (t : Answer M × SequencedStore). number_at k t.1.rows) run
            ∙ number_at-renumbered k coerced offset store.rows
            ∙ ap number_of
                (kept_row coerced offset k store.rows (has-coerce numbering k (v ∷ vs) ∙ out)),
      )
