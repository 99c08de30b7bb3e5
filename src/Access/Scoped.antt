-- ===== src/Access/Scoped.antt =====
-- The rows that `apply_access_rules` leaves of a queryset, and the policy.
use totem_backend.Base.{
  ℕ, ◌≡◌, refl, true, false, ◌&&◌, Option, none, some, List, [], ◌∷◌, ◌==◌, mem, find?, filter,
  if◌then◌else◌, arith, ◌∙◌,
}
use totem_backend.Access.{Lookups, Context, Role}
use totem_backend.Access
use totem_backend.Access.Rules
use totem_backend.Access.Policy

module _ (lookups : Lookups) where
  abbrev Rule : Type 0
  Rule = Access.Rule lookups

  is_registered-find :
      (m operation k : ℕ) (rules : List Rule)
      → Access.is_registered lookups k rules ≡ false
      → find? (λ (r : Rule). r.identifier == k && r.model == m && mem operation r.operations) rules
        ≡ none
  is_registered-find m operation k [] h = refl
  is_registered-find m operation k (r ∷ rules) h =
      ground (arith, is_registered-find m operation k rules)

  lookup_rule-put_rule :
      (k : ℕ) (rule : Rule) (result : List (ℕ × Rule))
      → Access.lookup_rule lookups k (Access.put_rule lookups rule result)
        ≡ (if rule.identifier == k then some rule else Access.lookup_rule lookups k result)
  lookup_rule-put_rule k rule [] = ground arith
  lookup_rule-put_rule k rule ((j, r) ∷ result) = ground (arith, lookup_rule-put_rule k rule result)

  abbrev or_rule : Option Rule → Option Rule → Option Rule
  or_rule none o = o
  or_rule (some rule) o = some rule

  -- An identifier that was asked for is found among the matching rules of a model exactly when the
  -- registered rule is relevant.
  lookup_rule-matching :
      (m operation k : ℕ) (ids : List ℕ) (result : List (ℕ × Rule)) (rules : List Rule)
      → Rules.IsDistinct lookups rules
      → mem k ids ≡ true
      → Access.lookup_rule lookups k (
          Access.matching lookups
            (some operation)
            (some ids)
            result
            (filter (λ (r : Rule). r.model == m) rules))
        ≡ or_rule
            (find?
              (λ (r : Rule). r.identifier == k && r.model == m && mem operation r.operations)
              rules)
            (Access.lookup_rule lookups k result)
  lookup_rule-matching m operation k ids result [] h asked = refl
  lookup_rule-matching m operation k ids result (rule ∷ rules) h asked = ground (
    arith,
    lookup_rule-matching m operation k ids result rules h.1 asked,
    lookup_rule-matching m operation k ids (Access.put_rule lookups rule result) rules h.1 asked,
    lookup_rule-put_rule k rule result,
    is_registered-find m operation rule.identifier rules h.0,
  )

  or_rule-none : (o : Option Rule) → or_rule o none ≡ o
  or_rule-none none = refl
  or_rule-none (some rule) = refl

  lookup_rule-get_matching_rules :
      (reg : Access.Registry lookups) (m operation k : ℕ) (ids : List ℕ)
      → Rules.IsConsistent lookups reg
      → mem k ids ≡ true
      → Access.lookup_rule lookups k
          (Access.get_matching_rules lookups reg m (some operation) (some ids))
        ≡ Policy.relevant lookups reg m operation k
  unfolding Access.get_matching_rules
  lookup_rule-get_matching_rules reg m operation k ids h asked =
      rw (h.indexed m)
        (lookup_rule-matching m operation k ids [] reg.rules h.distinct asked ∙ or_rule-none _)

  -- With a consistent registry, a row of the queryset is left by the access rules exactly when the
  -- policy permits it: no role limits the rows of this model for this operation, or some role does
  -- and all its rules let the row through.
  pub selects-apply_access_rules :
      (roles_all : ℕ → List Role) (reg : Access.Registry lookups)
      (queryset : Access.QuerySet lookups) (operation : ℕ) (context : Context) (row : lookups.Row)
      → Rules.IsConsistent lookups reg
      → (Access.apply_access_rules lookups roles_all reg queryset operation context).selects row ≡ (
          queryset.selects row
          && Policy.permits lookups context
              (Policy.relevant lookups reg queryset.model operation)
              row
              (Access.roles_of lookups roles_all context))
  unfolding Access.apply_access_rules
  selects-apply_access_rules roles_all reg queryset operation context row h =
      let roles = Access.roles_of lookups roles_all context in
      let look = Policy.relevant lookups reg queryset.model operation in
      let ids = Access.flatten_ids lookups roles in
      let found =
        Access.get_matching_rules lookups reg queryset.model (some operation) (some ids) in
      rw (Policy.lookups_of-eq lookups context found look roles) (
        Policy.selects-restrict lookups context found look queryset row roles (
          Policy.lookups_of-AreLookups lookups context found look row roles
            (λ k m. lookup_rule-get_matching_rules reg queryset.model operation k ids h m)))
