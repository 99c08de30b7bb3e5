-- ===== src/Service/GroupBy/Ordered.antt =====
-- The order of the groups.
use totem_backend.Base.{
  ◌≡◌, refl, true, false, ◌||◌, not, List, [], ◌∷◌, ◌++◌, filter, arith, Bool-cases, inl, inr, ◌∙◌,
  ap,
}
use totem_backend.Base.Text.{Text, text_eq, text_eq_refl, eq_of_text_eq}
use totem_backend.Base.Repeats.{
  has, distinct, has-append, has-filter, distinct-filter, distinct-append,
}
use totem_backend.Service.Errors.{is_error}
use totem_backend.Service.GroupBy.{
  Declared, Request, Term, ordered_names, token_terms, ascending_terms, group_by_check,
  group_by_ordering,
}
use totem_backend.Service.GroupBy.Checked.{
  all_among, names_pass, ordering_passes, is_error-group_by_check,
}

-- The names that terms order by.
abbrev pub columns : List Term → List Text
columns [] = []
columns (term ∷ terms) = term.column ∷ columns terms

-- The dimensions that the tokens do not name.
abbrev rest_of : List Text → List Text → List Text
rest_of dimensions ordering =
    filter (λ name. not (has text_eq name (ordered_names ordering))) dimensions

columns-append : (xs ys : List Term) → columns (xs ++ ys) ≡ (columns xs ++ columns ys)
columns-append [] ys = refl
columns-append (x ∷ xs) ys = ap (λ l. x.column ∷ l) (columns-append xs ys)

columns-token_terms : (tokens : List Text) → columns (token_terms tokens) ≡ ordered_names tokens
columns-token_terms [] = refl
columns-token_terms (token ∷ tokens) = rw (columns-token_terms tokens) refl

columns-ascending_terms : (names : List Text) → columns (ascending_terms names) ≡ names
columns-ascending_terms [] = refl
columns-ascending_terms (name ∷ names) = rw (columns-ascending_terms names) refl

columns-group_by_ordering :
    (dimensions ordering : List Text)
    → columns (group_by_ordering dimensions ordering)
      ≡ (ordered_names ordering ++ rest_of dimensions ordering)
unfolding group_by_ordering
columns-group_by_ordering dimensions ordering =
    rw (columns-append, columns-token_terms, columns-ascending_terms) refl

has-all_among :
    (name : Text) (names declared : List Text)
    → all_among names declared ≡ true
    → has text_eq name names ≡ true
    → has text_eq name declared ≡ true
has-all_among name [] declared a h = absurd (ground (arith, h))
has-all_among name (n ∷ names) declared a h = elim (Bool-cases (text_eq n name)) [
  | inl e ↦ ground (arith, a, ap (λ t. has text_eq t declared) (eq_of_text_eq n name e))
  | inr e ↦ has-all_among name names declared (ground (arith, a)) (ground (arith, e, h))
]

has-ordering :
    (dimensions ordering : List Text) (name : Text)
    → has text_eq name (columns (group_by_ordering dimensions ordering))
      ≡ (has text_eq name (ordered_names ordering) || has text_eq name dimensions)
has-ordering dimensions ordering name =
    rw (columns-group_by_ordering, has-append text_eq text_eq_refl eq_of_text_eq)
      (ground (
        arith,
        has-filter text_eq text_eq_refl eq_of_text_eq name
            (λ n. not (has text_eq n (ordered_names ordering))) dimensions,
      ))

distinct-ordering :
    (dimensions ordering : List Text)
    → distinct text_eq dimensions ≡ true
    → distinct text_eq (ordered_names ordering) ≡ true
    → distinct text_eq (columns (group_by_ordering dimensions ordering)) ≡ true
distinct-ordering dimensions ordering d e = rw (columns-group_by_ordering) (
    distinct-append text_eq text_eq_refl eq_of_text_eq (ordered_names ordering)
      (rest_of dimensions ordering) e
      (distinct-filter text_eq text_eq_refl eq_of_text_eq
        (λ n. not (has text_eq n (ordered_names ordering))) dimensions d)
      (λ k m. ground (
        arith,
        m,
        has-filter text_eq text_eq_refl eq_of_text_eq k
            (λ n. not (has text_eq n (ordered_names ordering))) dimensions,
      )))

-- The groups of a request that passes the checks are ordered by each of its dimensions, by no name
-- twice, and by names that it asks only.
pub group_by_ordering-columns :
    (declared : Declared) (request : Request)
    → is_error (group_by_check declared request) ≡ false
    → (distinct text_eq (columns (group_by_ordering request.dimensions request.ordering)) ≡ true)
      × ((name : Text)
          → has text_eq name request.dimensions ≡ true
          → has text_eq name (columns (group_by_ordering request.dimensions request.ordering))
            ≡ true)
      × ((name : Text)
          → has text_eq name (columns (group_by_ordering request.dimensions request.ordering))
            ≡ true
          → has text_eq name (request.dimensions ++ request.measures) ≡ true)
group_by_ordering-columns declared request h =
    let passes = is_error-group_by_check declared request in
    let ordered : ordering_passes request ≡ true = ground (arith, h, passes) in
    let named : names_pass request.dimensions declared.dimensions ≡ true =
      ground (arith, h, passes) in
    (
      distinct-ordering request.dimensions request.ordering (ground (arith, named))
          (ground (arith, ordered)),
      λ name m. has-ordering request.dimensions request.ordering name ∙ ground (arith, m),
      λ name m. ground (
        arith,
        m,
        has-ordering request.dimensions request.ordering name,
        has-append text_eq text_eq_refl eq_of_text_eq name request.dimensions request.measures,
        has-all_among name (ordered_names request.ordering) (request.dimensions ++ request.measures)
            (ground (arith, ordered)),
      ),
    )
