-- ===== src/Access.antt =====
-- src/user/access_policy.py: the registry of access rules, and the rows that the rules of a user's
-- roles leave of a queryset. Lookups (`Q` of django) are third-party code: the record `Lookups`.
-- Identifiers, models and operations are only compared: they are numbers.
pub mod Rules
pub mod Policy
pub mod Scoped
mod Tests
use totem_backend.Base.{
  ℕ, ◌≡◌, Bool, true, false, ◌&&◌, ◌||◌, not, Option, none, some, List, [], ◌∷◌, ◌++◌, ◌==◌, mem,
  find?, if◌then◌else◌,
}

-- `Q` expressions: combining them, whether one is falsy, and the rows that a filter by one selects.
-- An empty expression filters nothing, and is absorbed by what it is combined with.
pub record Lookups : Type 1 where
  pub Row : Type 0
  pub Q : Type 0
  pub no_lookup : Q
  pub conj : Q → Q → Q
  pub disj : Q → Q → Q
  pub is_empty : Q → Bool
  pub holds : Q → Row → Bool
  pub is_empty-no_lookup : is_empty no_lookup ≡ true
  pub is_empty-conj : (p q : Q) → is_empty (conj p q) ≡ (is_empty p && is_empty q)
  pub is_empty-disj : (p q : Q) → is_empty (disj p q) ≡ (is_empty p && is_empty q)
  pub holds-empty : (p : Q) (r : Row) → is_empty p ≡ true → holds p r ≡ true
  pub holds-conj : (p q : Q) (r : Row) → holds (conj p q) r ≡ (holds p r && holds q r)
  pub holds-disj :
      (p q : Q) (r : Row)
      → is_empty p ≡ false
      → is_empty q ≡ false
      → holds (disj p q) r ≡ (holds p r || holds q r)

-- `rules` is a nullable array of identifiers.
pub record Role : Type 0 where
  pub rules : Option (List ℕ)

pub record Context : Type 0 where
  pub user : Option ℕ
  pub roles : Option (List Role)

module _ (lookups : Lookups) where
  open lookups use {Row, Q, no_lookup, conj, disj, is_empty, holds}

  pub record Rule : Type 0 where
    pub identifier : ℕ
    pub model : ℕ
    pub operations : List ℕ
    pub scope_filter : Context → Q

  -- A subclass of `BaseRule`, with what its attributes may be instead of a model, a text and a name.
  pub record RuleClass : Type 0 where
    pub identifier : Option ℕ
    pub model : Option ℕ
    pub has_name : Bool
    pub operations : List ℕ
    pub scope_filter : Context → Q

  pub record Registry : Type 0 where
    pub rules : List Rule
    pub by_model : List (ℕ × List Rule)

  pub data Registration : Type 0 where
    accepted : Registry → Registration
    no_model no_identifier duplicate_identifier no_name : Registration

  abbrev pub is_registered : ℕ → List Rule → Bool
  is_registered k [] = false
  is_registered k (r ∷ rs) = r.identifier == k || is_registered k rs

  -- `registry.setdefault(model, []).append(rule)`
  abbrev pub append_rule : ℕ → Rule → List (ℕ × List Rule) → List (ℕ × List Rule)
  append_rule m rule [] = (m, rule ∷ []) ∷ []
  append_rule m rule ((k, rs) ∷ rest) =
      if k == m then (k, rs ++ rule ∷ []) ∷ rest else (k, rs) ∷ append_rule m rule rest

  -- `registry.get(model, [])`
  abbrev model_entry : ℕ → List (ℕ × List Rule) → List Rule
  model_entry m [] = []
  model_entry m ((k, rs) ∷ rest) = if k == m then rs else model_entry m rest

  unfoldable pub get_model_rules : Registry → ℕ → List Rule
  get_model_rules reg m = model_entry m reg.by_model

  abbrev add_rule : RuleClass → ℕ → ℕ → Registry → Registry
  add_rule c k m reg =
      let rule : Rule = record {
        identifier = k;
        model = m;
        operations = c.operations;
        scope_filter = c.scope_filter;
      } in
      record { rules = reg.rules ++ rule ∷ []; by_model = append_rule m rule reg.by_model }

  abbrev register_as : RuleClass → Option ℕ → Option ℕ → Registry → Registration
  register_as c none k reg = no_model
  register_as c (some m) none reg = no_identifier
  register_as c (some m) (some k) reg =
      if is_registered k reg.rules
      then duplicate_identifier
      else if c.has_name
      then accepted (add_rule c k m reg)
      else no_name

  unfoldable pub register_rule : RuleClass → Registry → Registration
  register_rule c reg = register_as c c.model c.identifier reg

  -- `value is None or test(value)`
  abbrev allows {ℓ} : {A : Type ℓ} → Option A → (A → Bool) → Bool
  allows none p = true
  allows (some a) p = p a

  -- `result[rule.identifier] = rule`
  abbrev pub put_rule : Rule → List (ℕ × Rule) → List (ℕ × Rule)
  put_rule rule [] = (rule.identifier, rule) ∷ []
  put_rule rule ((k, r) ∷ rest) =
      if k == rule.identifier then (k, rule) ∷ rest else (k, r) ∷ put_rule rule rest

  abbrev pub lookup_rule : ℕ → List (ℕ × Rule) → Option Rule
  lookup_rule k [] = none
  lookup_rule k ((j, r) ∷ rest) = if j == k then some r else lookup_rule k rest

  abbrev matching : Option ℕ → Option (List ℕ) → List (ℕ × Rule) → List Rule → List (ℕ × Rule)
  matching operation rule_ids result [] = result
  matching operation rule_ids result (rule ∷ rules) =
      matching operation rule_ids
        (if allows operation (λ o. mem o rule.operations)
            && allows rule_ids (λ ids. mem rule.identifier ids)
          then put_rule rule result
          else result)
        rules

  unfoldable pub get_matching_rules : Registry → ℕ → Option ℕ → Option (List ℕ) → List (ℕ × Rule)
  get_matching_rules reg m operation rule_ids =
      matching operation rule_ids [] (get_model_rules reg m)

  pub record QuerySet : Type 0 where
    pub model : ℕ
    pub selects : Row → Bool

  abbrev rule_ids_of : Role → List ℕ
  rule_ids_of role = elim role.rules [ none ↦ [] | some ids ↦ ids ]

  abbrev flatten_ids : List Role → List ℕ
  flatten_ids [] = []
  flatten_ids (role ∷ roles) = rule_ids_of role ++ flatten_ids roles

  abbrev and_filter : Context → Q → Option Rule → Q
  and_filter context q none = q
  and_filter context q (some rule) = conj q (rule.scope_filter context)

  -- The lookup of one role: its rules that apply, joined by AND.
  abbrev role_lookup : Context → List (ℕ × Rule) → Q → List ℕ → Q
  role_lookup context found q [] = q
  role_lookup context found q (k ∷ ids) =
      role_lookup context found (and_filter context q (lookup_rule k found)) ids

  -- The lookups of the roles that have one.
  abbrev role_lookups : Context → List (ℕ × Rule) → List Role → List Q
  role_lookups context found [] = []
  role_lookups context found (role ∷ roles) =
      let q = role_lookup context found no_lookup (rule_ids_of role) in
      let rest = role_lookups context found roles in if is_empty q then rest else q ∷ rest

  -- `reduce(or_, lookups)` on a list that begins with `q`.
  abbrev any_of : Q → List Q → Q
  any_of q [] = q
  any_of q (p ∷ ps) = any_of (disj q p) ps

  abbrev filter_by : QuerySet → Q → QuerySet
  filter_by queryset q =
      if is_empty q
      then queryset
      else record queryset { selects = λ r. queryset.selects r && holds q r }

  abbrev restrict : QuerySet → List Q → QuerySet
  restrict queryset [] = queryset
  restrict queryset (q ∷ qs) = filter_by queryset (any_of q qs)

  -- `context.roles`, or else the roles of the user, or else none.
  abbrev pub roles_of : (ℕ → List Role) → Context → List Role
  roles_of roles_all context = elim context.roles [
    | some roles ↦ roles
    | none ↦ elim context.user [ none ↦ [] | some user ↦ roles_all user ]
  ]

  -- `roles_all` is `user.roles.all()`.
  unfoldable pub apply_access_rules : (ℕ → List Role) → Registry → QuerySet → ℕ → Context → QuerySet
  apply_access_rules roles_all reg queryset operation context =
      let roles = roles_of roles_all context in
      restrict queryset (
        role_lookups context
          (get_matching_rules reg queryset.model (some operation) (some (flatten_ids roles))) roles)
