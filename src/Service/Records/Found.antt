-- ===== src/Service/Records/Found.antt =====
-- The records that are found for the keys of a column.
use totem_backend.Base.{
  ℕ, ◌≡◌, refl, Bool, true, false, ◌&&◌, ◌||◌, Option, none, some, List, [], ◌∷◌, ◌==◌, find?, mem,
  if◌then◌else◌, arith, ==_refl, eq_of_==, Bool-cases, Option-cases, inl, inr, ap, ◌∙◌, sym, subst,
}
use totem_backend.Base.Text.{Text}
use totem_backend.Service.Relations.{Record, Backend, browse}
use totem_backend.Service.Relations.Resolved.{find-browse}
use totem_backend.Service.Records.{
  keys_once, record_at, coerce_once, in_order, display_name, resolve_relation_records,
}

abbrev is_key : ℕ → Option ℕ → Bool
is_key k none = false
is_key k (some pk) = k == pk

abbrev pub mem_some : ℕ → List (Option ℕ) → Bool
mem_some k [] = false
mem_some k (o ∷ os) = is_key k o || mem_some k os

keys_once-mem :
    (k : ℕ) (seen : List ℕ) (pks : List (Option ℕ))
    → mem k seen ≡ false
    → mem_some k pks ≡ true
    → mem k (keys_once seen pks) ≡ true
keys_once-mem k seen [] s m = absurd (ground (arith, m))
keys_once-mem k seen (none ∷ pks) s m = keys_once-mem k seen pks s m
keys_once-mem k seen (some pk ∷ pks) s m = elim (Bool-cases (k == pk)) [
  | inl e ↦
      let new : mem pk seen ≡ false = ap (λ j. mem j seen) (sym (eq_of_== k pk e)) ∙ s in
      ground (arith, e, new)
  | inr e ↦
      let later : mem_some k pks ≡ true = ground (arith, e, m) in
      ground (
        arith,
        e,
        keys_once-mem k seen pks s later,
        keys_once-mem k (pk ∷ seen) pks (ground (arith, e, s)) later,
      )
]

record_at-pk :
    (k : ℕ) (records : List Record) {r : Record} → record_at k records ≡ some r → r.pk ≡ k
record_at-pk k [] e = absurd (ground (arith, e))
record_at-pk k (s ∷ records) {r} e = elim (Bool-cases (s.pk == k)) [
  | inl q ↦
      subst (λ (t : Record). t.pk ≡ k) {x = s} {y = r} (ground (arith, q, e)) (eq_of_== s.pk k q)
  | inr q ↦ record_at-pk k records {r = r} (ground (arith, q, e))
]

module _ {M : Type 0} (backend : Backend M) where
  open backend use {to_python}

  record_at-in_order :
      (k : ℕ) (pks : List ℕ) (records : List Record)
      → record_at k (in_order backend pks records)
        ≡ (if mem k pks then record_at k records else none)
  record_at-in_order k [] records = refl
  record_at-in_order k (p ∷ pks) records = elim (Option-cases (record_at p records)) [
    | inl e ↦
        rw (e, in_order)
          (record_at-in_order k pks records ∙ elim (Bool-cases (k == p)) [
            | inl q ↦
                let same : record_at k records ≡ none =
                  ap (λ j. record_at j records) (eq_of_== k p q) ∙ e in
                rw (same) (ground (arith, q))
            | inr q ↦ ground (arith, q)
          ])
    | inr (r, e) ↦
        rw (e, in_order)
          (elim (Bool-cases (k == p)) [
            | inl q ↦
                let same : record_at k records ≡ some r =
                  ap (λ j. record_at j records) (eq_of_== k p q) ∙ e in
                rw (same)
                  (ground (arith, q, record_at-pk p records {r = r} e, eq_of_== k p, ==_refl p))
            | inr q ↦ ground (
              arith,
              q,
              record_at-pk p records {r = r} e,
              eq_of_== r.pk k,
              ==_refl k,
              record_at-in_order k pks records,
            )
          ])
  ]

  coerce_once-mem :
      (model k : ℕ) (seen vs : List ℕ)
      → to_python model k ≡ some k
      → mem k seen ≡ false
      → mem k vs ≡ true
      → mem k (coerce_once backend model seen vs) ≡ true
  coerce_once-mem model k seen [] t s m = absurd (ground (arith, m))
  coerce_once-mem model k seen (v ∷ vs) t s m = elim (Bool-cases (k == v)) [
    | inl e ↦
        let here : to_python model v ≡ some k = ap (to_python model) (sym (eq_of_== k v e)) ∙ t in
        rw (here, coerce_once) (rw (s) (ground (arith, ==_refl k)))
    | inr e ↦ elim (Option-cases (to_python model v)) [
      | inl p ↦ rw (p, coerce_once) (coerce_once-mem model k seen vs t s (ground (arith, e, m)))
      | inr (pk, p) ↦
          rw (p, coerce_once)
            (elim (Bool-cases (k == pk)) [
              | inl q ↦
                  let new : mem pk seen ≡ false =
                    ap (λ j. mem j seen) (sym (eq_of_== k pk q)) ∙ s in
                  rw (new) (ground (arith, q))
              | inr q ↦ ground (
                arith,
                q,
                coerce_once-mem model k seen vs t s (ground (arith, e, m)),
                coerce_once-mem model k (pk ∷ seen) vs t (ground (arith, q, s))
                    (ground (arith, e, m)),
              )
            ])
    ]
  ]

  -- The record with a key, if the acting user may read it.
  abbrev pub readable_at : ℕ → ℕ → Option Record
  readable_at model pk =
      find? (λ (r : Record). backend.readable model r && r.pk == pk) (backend.table model)

  record_at-browse :
      (model k : ℕ) (pks : List ℕ)
      → mem k pks ≡ true
      → record_at k (browse backend model pks) ≡ readable_at model k
  unfolding browse
  record_at-browse model k pks m = find-browse backend model k pks (backend.table model) m

  -- A key of the column is resolved to its record if the acting user may read it, else to none.
  pub record_at-resolve_relation_records :
      (model k : ℕ) (pks : List (Option ℕ)) (lookups : Option (List Text))
      → to_python model k ≡ some k
      → mem_some k pks ≡ true
      → record_at k (resolve_relation_records backend model pks lookups) ≡ readable_at model k
  unfolding resolve_relation_records display_name
  record_at-resolve_relation_records model k pks none t m =
      record_at-browse model k (keys_once [] pks) (keys_once-mem k [] pks refl m)
  record_at-resolve_relation_records model k pks (some lookups) t m =
      let held =
        coerce_once-mem model k [] (keys_once [] pks) t refl (keys_once-mem k [] pks refl m) in
      record_at-in_order k (coerce_once backend model [] (keys_once [] pks)) _
      ∙ rw (held) (record_at-browse model k (coerce_once backend model [] (keys_once [] pks)) held)
