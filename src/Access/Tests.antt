-- ===== src/Access/Tests.antt =====
-- The access rules of src/user/access_policy.py, run on a lookup that is a list of tests on numbers.
use totem_backend.Base.{
  ℕ, ◌≡◌, refl, Bool, true, false, ◌&&◌, ◌||◌, Option, none, some, List, [], ◌∷◌, ltb, arith,
}
use totem_backend.Access.{Lookups, Role, Context}
use totem_backend.Access
use totem_backend.Access.Rules
use totem_backend.Access.Policy
use totem_backend.Access.Scoped

-- No lookup, or a test on rows.
abbrev Test : Type 0
Test = Option (ℕ → Bool)

abbrev both : Test → Test → Test
both none q = q
both (some p) none = some p
both (some p) (some q) = some (λ r. p r && q r)

abbrev either : Test → Test → Test
either none q = q
either (some p) none = some p
either (some p) (some q) = some (λ r. p r || q r)

abbrev no_test : Test → Bool
no_test none = true
no_test (some p) = false

abbrev passes : Test → ℕ → Bool
passes none r = true
passes (some p) r = p r

no_test-both : (p q : Test) → no_test (both p q) ≡ (no_test p && no_test q)
no_test-both p q = ground arith

no_test-either : (p q : Test) → no_test (either p q) ≡ (no_test p && no_test q)
no_test-either p q = ground arith

passes-no_test : (p : Test) (r : ℕ) → no_test p ≡ true → passes p r ≡ true
passes-no_test none r h = refl
passes-no_test (some p) r h = ground (arith, h)

passes-both : (p q : Test) (r : ℕ) → passes (both p q) r ≡ (passes p r && passes q r)
passes-both none q r = refl
passes-both (some p) none r = ground arith
passes-both (some p) (some q) r = refl

passes-either :
    (p q : Test) (r : ℕ)
    → no_test p ≡ false
    → no_test q ≡ false
    → passes (either p q) r ≡ (passes p r || passes q r)
passes-either none q r h k = ground (arith, h)
passes-either (some p) none r h k = ground (arith, k)
passes-either (some p) (some q) r h k = refl

abbrev tests : Lookups
tests = record {
  Row = ℕ;
  Q = Test;
  no_lookup = none;
  conj = both;
  disj = either;
  is_empty = no_test;
  holds = passes;
  is_empty-no_lookup = refl;
  is_empty-conj = no_test-both;
  is_empty-disj = no_test-either;
  holds-empty = passes-no_test;
  holds-conj = passes-both;
  holds-disj = passes-either;
}

abbrev no_rules : Access.Registry tests
no_rules = record { rules = []; by_model = [] }

abbrev own_rows : Access.RuleClass tests
own_rows = record {
  identifier = some 1;
  model = some 5;
  has_name = true;
  operations = 2 ∷ [];
  scope_filter = λ context. some (λ r. ltb r 10);
}

abbrev own_rule : Access.Rule tests
own_rule = record {
  identifier = 1;
  model = 5;
  operations = 2 ∷ [];
  scope_filter = λ context. some (λ r. ltb r 10);
}

abbrev one_rule : Access.Registry tests
one_rule = record { rules = own_rule ∷ []; by_model = (5, own_rule ∷ []) ∷ [] }

no_rules-IsConsistent : Rules.IsConsistent tests no_rules
unfolding Access.get_model_rules
no_rules-IsConsistent = record { distinct = tt; indexed = λ m. refl }

register_first : Access.register_rule tests own_rows no_rules ≡ Access.accepted one_rule
unfolding Access.register_rule
register_first = refl

register_rule-IsConsistent_example : Rules.IsConsistent tests one_rule
register_rule-IsConsistent_example =
    Rules.register_rule-IsConsistent tests own_rows no_rules no_rules-IsConsistent register_first

abbrev roles_all : ℕ → List Role
roles_all user = record { rules = some (1 ∷ []) } ∷ []

abbrev all_rows : Access.QuerySet tests
all_rows = record { model = 5; selects = λ r. true }

abbrev by_user : Context
by_user = record { user = some 7; roles = none }

selects-apply_access_rules_example :
    (Access.apply_access_rules tests roles_all one_rule all_rows 2 by_user).selects 12
    ≡ Policy.permits tests by_user
        (Policy.relevant tests one_rule 5 2)
        12
        (Access.roles_of tests roles_all by_user)
selects-apply_access_rules_example =
    Scoped.selects-apply_access_rules tests roles_all one_rule all_rows 2 by_user 12 (
      Rules.register_rule-IsConsistent tests own_rows no_rules no_rules-IsConsistent register_first)
