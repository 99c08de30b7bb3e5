-- ===== src/Access/Rules.antt =====
-- The two indexes of the registry of access rules.
use totem_backend.Base.{
  ℕ, ◌≡◌, refl, false, ◌||◌, Option, none, some, List, [], ◌∷◌, ◌++◌, ◌==◌, filter, if◌then◌else◌,
  arith, subst,
}
use totem_backend.Access.{Lookups, Context}
use totem_backend.Access

module _ (lookups : Lookups) where
  abbrev Rule : Type 0
  Rule = Access.Rule lookups

  abbrev Registry : Type 0
  Registry = Access.Registry lookups

  -- Each identifier stands for one rule.
  abbrev pub IsDistinct : List Rule → Type 0
  IsDistinct [] = Unit
  IsDistinct (r ∷ rs) = (Access.is_registered lookups r.identifier rs ≡ false) × IsDistinct rs

  -- The rules of a model are the registered ones with that model, in the order of registration.
  pub record IsConsistent (reg : Registry) : Type 0 where
    pub distinct : IsDistinct reg.rules
    pub indexed :
        (m : ℕ)
        → Access.get_model_rules lookups reg m ≡ filter (λ (r : Rule). r.model == m) reg.rules

  is_registered-snoc :
      (k : ℕ) (rs : List Rule) (q : Rule)
      → Access.is_registered lookups k (rs ++ q ∷ [])
        ≡ (Access.is_registered lookups k rs || q.identifier == k)
  is_registered-snoc k [] q = ground arith
  is_registered-snoc k (r ∷ rs) q = ground (arith, is_registered-snoc k rs q)

  IsDistinct-snoc :
      (rs : List Rule) (q : Rule)
      → IsDistinct rs
      → Access.is_registered lookups q.identifier rs ≡ false
      → IsDistinct (rs ++ q ∷ [])
  IsDistinct-snoc [] q h fresh = (refl, tt)
  IsDistinct-snoc (r ∷ rs) q h fresh =
      ground (arith, is_registered-snoc r.identifier rs q, IsDistinct-snoc rs q h.1)

  filter-snoc :
      (m : ℕ) (rs : List Rule) (q : Rule)
      → filter (λ (r : Rule). r.model == m) (rs ++ q ∷ []) ≡ (
          if q.model == m
          then filter (λ (r : Rule). r.model == m) rs ++ q ∷ []
          else filter (λ (r : Rule). r.model == m) rs)
  filter-snoc m [] q = ground arith
  filter-snoc m (r ∷ rs) q = ground (arith, filter-snoc m rs q)

  model_entry-append_rule :
      (m k : ℕ) (q : Rule) (index : List (ℕ × List Rule))
      → Access.model_entry lookups k (Access.append_rule lookups m q index) ≡ (
          if m == k
          then Access.model_entry lookups k index ++ q ∷ []
          else Access.model_entry lookups k index)
  model_entry-append_rule m k q [] = ground arith
  model_entry-append_rule m k q ((j, rs) ∷ index) =
      ground (arith, model_entry-append_rule m k q index)

  add_rule-IsConsistent :
      (c : Access.RuleClass lookups) (k m : ℕ) (reg : Registry)
      → IsConsistent reg
      → Access.is_registered lookups k reg.rules ≡ false
      → IsConsistent (Access.add_rule lookups c k m reg)
  unfolding Access.get_model_rules
  add_rule-IsConsistent c k m reg h fresh =
      let q : Rule = record {
        identifier = k;
        model = m;
        operations = c.operations;
        scope_filter = c.scope_filter;
      } in
      record {
        distinct = IsDistinct-snoc reg.rules q h.distinct fresh;
        indexed = λ j. ground (
          arith,
          filter-snoc j reg.rules q,
          model_entry-append_rule m j q reg.by_model,
          h.indexed j,
        );
      }

  register_as-IsConsistent :
      (c : Access.RuleClass lookups) (m k : Option ℕ) (reg : Registry) {reg' : Registry}
      → IsConsistent reg
      → Access.register_as lookups c m k reg ≡ Access.accepted reg'
      → IsConsistent reg'
  register_as-IsConsistent c none k reg h e = absurd (ground (arith, e))
  register_as-IsConsistent c (some m) none reg h e = absurd (ground (arith, e))
  register_as-IsConsistent c (some m) (some k) reg h e =
      subst IsConsistent (ground (arith, e)) (add_rule-IsConsistent c k m reg h (ground (arith, e)))

  -- Registering a rule keeps the registry consistent: identifiers stay unique, and the rules of a
  -- model are the registered rules of that model.
  pub register_rule-IsConsistent :
      (c : Access.RuleClass lookups) (reg : Registry) {reg' : Registry}
      → IsConsistent reg
      → Access.register_rule lookups c reg ≡ Access.accepted reg'
      → IsConsistent reg'
  unfolding Access.register_rule
  register_rule-IsConsistent c reg h e = register_as-IsConsistent c c.model c.identifier reg h e
