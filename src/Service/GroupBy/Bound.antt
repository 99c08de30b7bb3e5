-- ===== src/Service/GroupBy/Bound.antt =====
-- What the declarations of a service are bound to.
use totem_backend.Base.{
  ◌≡◌, Bool, true, false, Option, none, some, List, [], ◌∷◌, ◌++◌, any, arith, Bool-cases, inl, inr,
  ap, subst,
}
use totem_backend.Base.Text.{Text, text_eq, text_eq_refl, eq_of_text_eq}
use totem_backend.Base.Repeats.{has, distinct, distinct-append, all-has}
use totem_backend.Service.Errors.{is_error}
use totem_backend.Service.GroupBy.{Declared, Request, group_by_check}
use totem_backend.Service.GroupBy.Checked.{names_pass, is_error-group_by_check}
use totem_backend.Service.GroupBy.Declarations.{
  ModelField, Dimension, Measure, BoundDeclaration, bind_dimensions, bind_measures, with_count,
  bound_names, both_bound, declare,
}

module _ (fields : List ModelField) where
  any-has :
      (p : Text → Bool) (name : Text) (names : List Text)
      → any p names ≡ false
      → has text_eq name names ≡ true
      → p name ≡ false
  any-has p name [] a h = absurd (ground (arith, h))
  any-has p name (n ∷ names) a h = elim (Bool-cases (text_eq n name)) [
    | inl e ↦ ground (arith, a, ap p (eq_of_text_eq n name e))
    | inr e ↦ any-has p name names (ground (arith, a)) (ground (arith, e, h))
  ]

  both_bound-apart :
      (ds ms : Option (List BoundDeclaration)) {declared : Declared}
      → both_bound fields ds ms ≡ some declared
      → any (λ name. has text_eq name declared.measures) declared.dimensions ≡ false
  both_bound-apart none ms e = absurd (ground (arith, e))
  both_bound-apart (some ds) none e = absurd (ground (arith, e))
  both_bound-apart (some ds) (some ms) {declared} e =
      elim (Bool-cases
        (any (λ name. has text_eq name (bound_names fields ms)) (bound_names fields ds))) [
          | inl p ↦ absurd (ground (arith, p, e))
          | inr p ↦
              subst
                (λ (d : Declared). any (λ name. has text_eq name d.measures) d.dimensions ≡ false)
                {x = record {
                  dimensions = bound_names fields ds;
                  measures = bound_names fields ms;
                }}
                {y = declared} (ground (arith, p, e)) p
        ]

  -- Of a service whose declarations are accepted, no name that a request which passes the checks asks
  -- is asked twice, as a dimension and as a measure neither: the keys of a group are distinct.
  pub distinct-declare :
      (dimensions : List (Text × Dimension)) (measures : List (Text × Measure)) (request : Request)
      {declared : Declared}
      → declare fields dimensions measures ≡ some declared
      → is_error (group_by_check declared request) ≡ false
      → distinct text_eq (request.dimensions ++ request.measures) ≡ true
  unfolding declare
  distinct-declare dimensions measures request {declared} e h =
      let passes = is_error-group_by_check declared request in
      let ds : names_pass request.dimensions declared.dimensions ≡ true =
        ground (arith, h, passes) in
      let ms : names_pass request.measures declared.measures ≡ true = ground (arith, h, passes) in
      let apart =
        both_bound-apart (bind_dimensions fields dimensions)
          (bind_measures fields (with_count fields measures)) {declared = declared} e in
      distinct-append text_eq text_eq_refl eq_of_text_eq request.dimensions request.measures
        (ground (arith, ds)) (ground (arith, ms))
        (λ k m.
          let known =
            all-has text_eq text_eq_refl eq_of_text_eq (λ n. has text_eq n declared.dimensions) k
              request.dimensions (ground (arith, ds)) m in
          let other =
            any-has (λ n. has text_eq n declared.measures) k declared.dimensions apart known in
          elim (Bool-cases (has text_eq k request.measures)) [
            | inl q ↦ absurd (
                ground (
                  arith,
                  other,
                  all-has text_eq text_eq_refl eq_of_text_eq (λ n. has text_eq n declared.measures)
                      k request.measures (ground (arith, ms)) q,
                ))
            | inr q ↦ q
          ])
