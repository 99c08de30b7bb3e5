-- ===== src/Service/Resequence/Complete.antt =====
-- Which lists a resequence refuses.
use totem_backend.Base.{
  ℕ, ◌≡◌, refl, Bool, true, false, ◌&&◌, not, Option, none, some, List, [], ◌∷◌, ◌++◌, ◌==◌, any,
  length, arith, ==_refl, eq_of_==, Bool-cases, Option-cases, inl, inr, ◌∙◌,
}
use totem_backend.Base.Repeats.{is_empty, distinct, has, is_empty-repeated, is_empty-append}
use totem_backend.Service.Resequence.{
  SequencedRow, SequencedStore, Numbering, Answer, numbered, refused, put_coerced, coerce, is_found,
  missing_pks, resequence_coerced, resequence,
}

abbrev pub is_numbered : {M : Type 0} → Answer M → Bool
is_numbered (numbered n) = true
is_numbered (refused e) = false

module _ {M : Type 0} (numbering : Numbering M) where
  open numbering use {to_python, is_updatable}

  abbrev is_key_of : ℕ → Option ℕ → Bool
  is_key_of k none = false
  is_key_of k (some pk) = pk == k

  -- Another value of the list stands for the key.
  abbrev pub stands_again : ℕ → List ℕ → Bool
  stands_again k vs = any (λ v. is_key_of k (to_python v)) vs

  abbrev can_number : List SequencedRow → Option ℕ → List ℕ → Bool
  can_number rows none vs = false
  can_number rows (some pk) vs = is_found numbering rows pk && not (stands_again pk vs)

  -- Each value stands for a row that may be updated, and for another one than those after it.
  abbrev pub is_complete : List SequencedRow → List ℕ → Bool
  is_complete rows [] = true
  is_complete rows (v ∷ vs) = can_number rows (to_python v) vs && is_complete rows vs

  pub has-coerce : (k : ℕ) (vs : List ℕ) → has ◌==◌ k (coerce numbering vs).0 ≡ stands_again k vs
  has-coerce k [] = refl
  has-coerce k (v ∷ vs) = elim (Option-cases (to_python v)) [
    | inl p ↦ ground (arith, p, has-coerce k vs)
    | inr (pk, p) ↦ ground (arith, p, has-coerce k vs)
  ]

  abbrev pub is_written : List SequencedRow → List ℕ × List ℕ → Bool
  is_written rows (coerced, invalid) =
      distinct ◌==◌ coerced && is_empty (invalid ++ missing_pks numbering rows coerced)

  is_written-put_coerced :
      (rows : List SequencedRow) (v pk : ℕ) (coerced invalid : List ℕ)
      → is_written rows (put_coerced v (some pk) (coerced, invalid)) ≡ (
          (is_found numbering rows pk && not (has ◌==◌ pk coerced))
          && is_written rows (coerced, invalid))
  is_written-put_coerced rows v pk coerced invalid =
      elim (Bool-cases (is_found numbering rows pk)) [
        | inl f ↦ ground (arith, f, is_empty-append invalid (missing_pks numbering rows coerced))
        | inr f ↦
            ground (arith, f, is_empty-append invalid (pk ∷ missing_pks numbering rows coerced))
      ]

  pub is_written-is_complete :
      (rows : List SequencedRow) (vs : List ℕ)
      → is_written rows (coerce numbering vs) ≡ is_complete rows vs
  is_written-is_complete rows [] = refl
  is_written-is_complete rows (v ∷ vs) = elim (Option-cases (to_python v)) [
    | inl p ↦ rw (p) (ground arith)
    | inr (pk, p) ↦ rw (p) (
        is_written-put_coerced rows v pk (coerce numbering vs).0 (coerce numbering vs).1
        ∙ rw (has-coerce pk vs, is_written-is_complete rows vs) refl)
  ]

  pub length-coerce :
      (vs : List ℕ)
      → is_empty (coerce numbering vs).1 ≡ true
      → length (coerce numbering vs).0 ≡ length vs
  length-coerce [] h = refl
  length-coerce (v ∷ vs) h = elim (Option-cases (to_python v)) [
    | inl p ↦ absurd (ground (arith, p, h))
    | inr (pk, p) ↦ ground (arith, p, h, length-coerce vs)
  ]

  pub resequence_coerced-is_written :
      (coerced invalid : List ℕ) (offset : ℕ) (store : SequencedStore)
      → is_written store.rows (coerced, invalid) ≡ false
      → (is_numbered (resequence_coerced numbering (coerced, invalid) offset store).0 ≡ false)
        × ((resequence_coerced numbering (coerced, invalid) offset store).1 ≡ store)
  resequence_coerced-is_written coerced invalid offset store w =
      let d = is_empty-repeated ◌==◌ ==_refl eq_of_== coerced in
      elim (Bool-cases (distinct ◌==◌ coerced)) [
        | inl p ↦ (rw (d, p) (ground (arith, w, p)), rw (d, p) (ground (arith, w, p)))
        | inr p ↦ (rw (d, p) refl, rw (d, p) refl)
      ]

  -- Unless each value of the list is the key of a row that the user may update, and no two of them are
  -- the same key, the answer is an error and nothing is written.
  pub resequence_refused :
      (vs : List ℕ) (offset : ℕ) (store : SequencedStore)
      → is_complete store.rows vs ≡ false
      → (is_numbered (resequence numbering vs offset store).0 ≡ false)
        × ((resequence numbering vs offset store).1 ≡ store)
  unfolding resequence
  resequence_refused [] offset store h = absurd (ground (arith, h))
  resequence_refused (v ∷ vs) offset store h =
      resequence_coerced-is_written (coerce numbering (v ∷ vs)).0 (coerce numbering (v ∷ vs)).1
        offset store (is_written-is_complete store.rows (v ∷ vs) ∙ h)
