-- ===== src/Access/Policy.antt =====
-- A description of the access policy row by row, and the lookups that the code assembles for it.
use totem_backend.Base.{
  ℕ, ◌≡◌, refl, Bool, true, false, ◌&&◌, ◌||◌, not, Option, none, some, List, [], ◌∷◌, ◌++◌, ◌==◌,
  mem, mem-append, find?, any, all, if◌then◌else◌, arith, ◌∙◌,
}
use totem_backend.Access.{Lookups, Context, Role}
use totem_backend.Access

module _ (lookups : Lookups) where
  abbrev pub Rule : Type 0
  Rule = Access.Rule lookups

  abbrev pub Registry : Type 0
  Registry = Access.Registry lookups

  -- The registered rule of an identifier, if it is about this model and this operation.
  abbrev pub relevant : Registry → ℕ → ℕ → ℕ → Option Rule
  relevant reg m operation k =
      find? (λ (r : Rule). r.identifier == k && r.model == m && mem operation r.operations)
        reg.rules

  abbrev pub limits : Context → Option Rule → Bool
  limits context none = false
  limits context (some rule) = not (lookups.is_empty (rule.scope_filter context))

  abbrev pub lets_through : Context → lookups.Row → Option Rule → Bool
  lets_through context row none = true
  lets_through context row (some rule) = lookups.holds (rule.scope_filter context) row

  -- A role limits the rows if one of its rules does, and lets a row through if all of them do.
  abbrev pub role_limits : Context → (ℕ → Option Rule) → Role → Bool
  role_limits context look role =
      any (λ k. limits context (look k)) (Access.rule_ids_of lookups role)

  abbrev pub role_allows : Context → (ℕ → Option Rule) → lookups.Row → Role → Bool
  role_allows context look row role =
      all (λ k. lets_through context row (look k)) (Access.rule_ids_of lookups role)

  -- No role limits the rows, or one of those that do lets the row through.
  abbrev pub permits : Context → (ℕ → Option Rule) → lookups.Row → List Role → Bool
  permits context look row roles =
      not (any (role_limits context look) roles)
      || any (λ role. role_limits context look role && role_allows context look row role) roles

  module _ (context : Context) (found : List (ℕ × Rule)) (look : ℕ → Option Rule) where
    -- The two ways to look a rule up agree on these identifiers.
    abbrev pub Agrees : List ℕ → Type 0
    Agrees ids = (k : ℕ) → mem k ids ≡ true → Access.lookup_rule lookups k found ≡ look k

    abbrev lookup_of : lookups.Q → List ℕ → lookups.Q
    lookup_of = Access.role_lookup lookups context found

    is_empty-and_filter :
        (q : lookups.Q) (o : Option Rule)
        → lookups.is_empty (Access.and_filter lookups context q o)
          ≡ (lookups.is_empty q && not (limits context o))
    is_empty-and_filter q none = ground arith
    is_empty-and_filter q (some rule) =
        ground (arith, lookups.is_empty-conj q (rule.scope_filter context))

    holds-and_filter :
        (row : lookups.Row) (q : lookups.Q) (o : Option Rule)
        → lookups.holds (Access.and_filter lookups context q o) row
          ≡ (lookups.holds q row && lets_through context row o)
    holds-and_filter row q none = ground arith
    holds-and_filter row q (some rule) = lookups.holds-conj q (rule.scope_filter context) row

    Agrees-tail : (k : ℕ) (ids : List ℕ) → Agrees (k ∷ ids) → Agrees ids
    Agrees-tail k ids same j m = same j (ground (arith, m))

    Agrees-head :
        (k : ℕ) (ids : List ℕ) → Agrees (k ∷ ids) → Access.lookup_rule lookups k found ≡ look k
    Agrees-head k ids same = same k (ground arith)

    is_empty-role_lookup :
        (q : lookups.Q) (ids : List ℕ)
        → Agrees ids
        → lookups.is_empty (lookup_of q ids)
          ≡ (lookups.is_empty q && not (any (λ k. limits context (look k)) ids))
    is_empty-role_lookup q [] same = ground arith
    is_empty-role_lookup q (k ∷ ids) same = rw (Agrees-head k ids same) (
        ground (
          arith,
          is_empty-role_lookup (Access.and_filter lookups context q (look k)) ids
              (Agrees-tail k ids same),
          is_empty-and_filter q (look k),
        ))

    holds-role_lookup :
        (row : lookups.Row) (q : lookups.Q) (ids : List ℕ)
        → Agrees ids
        → lookups.holds (lookup_of q ids) row
          ≡ (lookups.holds q row && all (λ k. lets_through context row (look k)) ids)
    holds-role_lookup row q [] same = ground arith
    holds-role_lookup row q (k ∷ ids) same = rw (Agrees-head k ids same) (
        ground (
          arith,
          holds-role_lookup row (Access.and_filter lookups context q (look k)) ids
              (Agrees-tail k ids same),
          holds-and_filter row q (look k),
        ))

    -- The rows that some lookup of the list lets through.
    abbrev pub some_holds : lookups.Row → List lookups.Q → Bool
    some_holds row = any (λ q. lookups.holds q row)

    abbrev pub AllFull : List lookups.Q → Type 0
    AllFull [] = Unit
    AllFull (q ∷ qs) = (lookups.is_empty q ≡ false) × AllFull qs

    any_of_full :
        (row : lookups.Row) (q : lookups.Q) (qs : List lookups.Q)
        → lookups.is_empty q ≡ false
        → AllFull qs
        → (lookups.is_empty (Access.any_of lookups q qs) ≡ false)
          × (lookups.holds (Access.any_of lookups q qs) row
              ≡ (lookups.holds q row || some_holds row qs))
    any_of_full row q [] full rest = (full, ground arith)
    any_of_full row q (p ∷ ps) full rest =
        let both : lookups.is_empty (lookups.disj q p) ≡ false =
          ground (arith, lookups.is_empty-disj q p) in
        let ih = any_of_full row (lookups.disj q p) ps both rest.1 in
        (ih.0, ground (arith, ih.1, lookups.holds-disj q p row))

    abbrev pub is_nil : List lookups.Q → Bool
    is_nil [] = true
    is_nil (q ∷ qs) = false

    pub lookup_of_role : Role → lookups.Q
    lookup_of_role role = lookup_of lookups.no_lookup (Access.rule_ids_of lookups role)

    is_empty-lookup_of_role :
        (role : Role)
        → Agrees (Access.rule_ids_of lookups role)
        → lookups.is_empty (lookup_of_role role) ≡ not (role_limits context look role)
    unfolding lookup_of_role
    is_empty-lookup_of_role role same =
        is_empty-role_lookup lookups.no_lookup (Access.rule_ids_of lookups role) same
        ∙ rw lookups.is_empty-no_lookup

    holds-lookup_of_role :
        (row : lookups.Row) (role : Role)
        → Agrees (Access.rule_ids_of lookups role)
        → lookups.holds (lookup_of_role role) row ≡ role_allows context look row role
    unfolding lookup_of_role
    holds-lookup_of_role row role same =
        holds-role_lookup row lookups.no_lookup (Access.rule_ids_of lookups role) same
        ∙ rw (lookups.holds-empty lookups.no_lookup row lookups.is_empty-no_lookup)

    -- The lookups of a list of roles, with the one of each role shut.
    abbrev pub lookups_of : List Role → List lookups.Q
    lookups_of [] = []
    lookups_of (role ∷ roles) =
        if lookups.is_empty (lookup_of_role role)
        then lookups_of roles
        else lookup_of_role role ∷ lookups_of roles

    pub lookups_of-eq :
        (roles : List Role) → Access.role_lookups lookups context found roles ≡ lookups_of roles
    unfolding lookup_of_role
    lookups_of-eq [] = refl
    lookups_of-eq (role ∷ roles) = rw (lookups_of-eq roles)

    Agrees-left : (ids rest : List ℕ) → Agrees (ids ++ rest) → Agrees ids
    Agrees-left ids rest same k m = same k (ground (arith, mem-append k ids rest, m))

    Agrees-right : (ids rest : List ℕ) → Agrees (ids ++ rest) → Agrees rest
    Agrees-right ids rest same k m = same k (ground (arith, mem-append k ids rest, m))

    -- What the lookups of the roles say of a row.
    pub record AreLookups (row : lookups.Row) (roles : List Role) : Type 0 where
      pub full : AllFull (lookups_of roles)
      pub nil : is_nil (lookups_of roles) ≡ not (any (role_limits context look) roles)
      pub some_row :
          some_holds row (lookups_of roles)
          ≡ any (λ role. role_limits context look role && role_allows context look row role) roles

    pub lookups_of-AreLookups :
        (row : lookups.Row) (roles : List Role)
        → Agrees (Access.flatten_ids lookups roles)
        → AreLookups row roles
    lookups_of-AreLookups row [] same = record { full = tt; nil = refl; some_row = refl }
    lookups_of-AreLookups row (role ∷ roles) same =
        let ids = Access.rule_ids_of lookups role in
        let rest = Access.flatten_ids lookups roles in
        let here = Agrees-left ids rest same in
        let ih = lookups_of-AreLookups row roles (Agrees-right ids rest same) in
        let empty = is_empty-lookup_of_role role here in
        let holds = holds-lookup_of_role row role here in
        record {
          full = ground (arith, ih.full);
          nil = ground (arith, empty, ih.nil);
          some_row = ground (arith, empty, holds, ih.some_row);
        }

    pub selects-restrict :
        (queryset : Access.QuerySet lookups) (row : lookups.Row) (roles : List Role)
        → AreLookups row roles
        → (Access.restrict lookups queryset (lookups_of roles)).selects row
          ≡ (queryset.selects row && permits context look row roles)
    selects-restrict queryset row roles h = go (lookups_of roles) h.full h.nil h.some_row
      where
        go :
            (qs : List lookups.Q)
            → AllFull qs
            → is_nil qs ≡ not (any (role_limits context look) roles)
            → some_holds row qs
              ≡ any
                  (λ role. role_limits context look role && role_allows context look row role)
                  roles
            → (Access.restrict lookups queryset qs).selects row
              ≡ (queryset.selects row && permits context look row roles)
        go [] full nil some_row = ground (arith, nil)
        go (q ∷ qs) full nil some_row =
            let both = any_of_full row q qs full.0 full.1 in
            ground (arith, nil, some_row, both.0, both.1)
