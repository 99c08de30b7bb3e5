-- ===== src/Tenancy/Aliases.antt =====
-- What the connection handler keeps of its aliases, and the pools that it leaves open.
use totem_backend.Base.{
  ℕ, ◌≡◌, ◌≢◌, refl, true, false, ◌&&◌, ◌||◌, not, Option, none, some, List, [], ◌∷◌, ◌++◌, arith,
  Bool-cases, inl, inr, subst, sym, ap, Option-cases,
}
use totem_backend.Base.Text.{Text, text_eq, text_eq_refl, eq_of_text_eq}
use totem_backend.Base.Sorting.{text_mem, text_add}
use totem_backend.Tenancy.{
  Handler, matches_name, default_alias, saas_alias, validate_database_name, resolve, add_database,
  evict_idle_pools, touch, connect, ensure_database, opened, get_item, without, forget_database,
}

text_mem-snoc :
    (t s : Text) (l : List Text) → text_mem t (l ++ s ∷ []) ≡ (text_mem t l || text_eq t s)
text_mem-snoc t s [] = ground arith
text_mem-snoc t s (r ∷ l) = ground (arith, text_mem-snoc t s l)

text_mem-text_add :
    (t s : Text) (l : List Text) → text_mem t (text_add s l) ≡ (text_eq t s || text_mem t l)
text_mem-text_add t s l = ground (arith, eq_of_text_eq t s, text_eq_refl t)

text_mem-without :
    (t s : Text) (l : List Text) → text_mem t (without s l) ≡ (text_mem t l && not (text_eq t s))
text_mem-without t s [] = refl
text_mem-without t s (r ∷ l) =
    ground (arith, text_mem-without t s l, eq_of_text_eq t r, text_eq_refl r)

-- `default` is configured; a tenant alias is in the settings, is a name of a database and is no
-- reserved alias; a connection is of an alias in the settings.
pub record IsHandler (h : Handler) : Type 0 where
  pub has_default : text_mem default_alias h.settings ≡ true
  pub tenants :
      (t : Text)
      → text_mem t h.tenant_aliases ≡ true
      → (text_mem t h.settings ≡ true)
        × (matches_name t ≡ true)
        × (text_eq t default_alias ≡ false)
        × (text_eq t saas_alias ≡ false)
  pub connections : (t : Text) → text_mem t h.connected ≡ true → text_mem t h.settings ≡ true

add_database-IsHandler :
    (db_name : Text) (h : Handler) {h' : Handler}
    → IsHandler h
    → add_database db_name h ≡ some h'
    → IsHandler h' × (text_mem db_name h'.settings ≡ true)
unfolding add_database
add_database-IsHandler db_name h {h'} w e = elim (Bool-cases (text_mem db_name h.settings)) [
  | inl known ↦
      subst (λ k. IsHandler k × (text_mem db_name k.settings ≡ true)) (ground (arith, e, known))
        (w, known)
  | inr fresh ↦
      subst (λ k. IsHandler k × (text_mem db_name k.settings ≡ true)) (ground (arith, e, fresh))
        (
          added,
          rw (text_mem-snoc db_name db_name h.settings) (ground (arith, text_eq_refl db_name)),
        )
]
  where
    added : IsHandler (record h {
      settings = h.settings ++ db_name ∷ [];
      tenant_aliases = text_add db_name h.tenant_aliases;
    })
    added = record {
      has_default = ground (arith, w.has_default, text_mem-snoc default_alias db_name h.settings);
      tenants = λ t m. ground (
        arith,
        e,
        m,
        w.tenants t,
        text_mem-snoc t db_name h.settings,
        text_mem-text_add t db_name h.tenant_aliases,
        eq_of_text_eq t db_name,
      );
      connections = λ t m. ground (arith, w.connections t m, text_mem-snoc t db_name h.settings);
    }

-- What a use of an alias does not change.
touch-settings :
    (evict_after now : ℕ) (alias : Text) (h : Handler)
    → ((touch evict_after now alias h).settings ≡ h.settings)
      × ((touch evict_after now alias h).tenant_aliases ≡ h.tenant_aliases)
      × ((touch evict_after now alias h).connected ≡ h.connected)
unfolding touch evict_idle_pools
touch-settings evict_after now alias h = ground arith

IsHandler-of_same :
    (h h' : Handler)
    → IsHandler h
    → (h'.settings ≡ h.settings)
      × (h'.tenant_aliases ≡ h.tenant_aliases)
      × (h'.connected ≡ h.connected)
    → IsHandler h'
IsHandler-of_same h h' w (s, t, c) = record {
  has_default = rw s (w.has_default);
  tenants = λ a. rw (s, t) (w.tenants a);
  connections = λ a. rw (s, c) (w.connections a);
}

ensure_database-IsHandler :
    (alias : Text) (h : Handler) {h' : Handler}
    → IsHandler h
    → ensure_database alias h ≡ some h'
    → IsHandler h' × (text_mem alias h'.settings ≡ true)
ensure_database-IsHandler alias h {h'} w e = elim (Bool-cases (text_mem alias h.settings)) [
  | inl known ↦
      subst (λ k. IsHandler k × (text_mem alias k.settings ≡ true)) (ground (arith, e, known))
        (w, known)
  | inr fresh ↦ add_database-IsHandler alias h w (ground (arith, e, fresh))
]

connect-IsHandler :
    (alias : Text) (h : Handler)
    → IsHandler h
    → text_mem alias h.settings ≡ true
    → IsHandler (connect alias h)
connect-IsHandler alias h w m = record {
  has_default = w.has_default;
  tenants = w.tenants;
  connections = λ t c.
      ground (
        arith,
        m,
        c,
        w.connections t,
        text_mem-text_add t alias h.connected,
        eq_of_text_eq t alias,
      );
}

-- An alias whose connection was asked for, and the state after.
pub opened_parts :
    (evict_after now : ℕ) (alias : Text) (o : Option Handler) {a : Text} {h' : Handler}
    → opened evict_after now alias o ≡ some (a, h')
    → (k : Handler) × (o ≡ some k)
      × (a ≡ alias)
      × (h' ≡ touch evict_after now alias (connect alias k))
opened_parts evict_after now alias none e = absurd (ground (arith, e))
opened_parts evict_after now alias (some k) e = (k, refl, ground (arith, e), ground (arith, e))

get_item-IsHandler :
    (evict_after now : ℕ) (current alias : Text) (h : Handler) {a : Text} {h' : Handler}
    → IsHandler h
    → get_item evict_after now current alias h ≡ some (a, h')
    → IsHandler h'
unfolding get_item
get_item-IsHandler evict_after now current alias h w e =
    let db : Text = resolve current alias in
    let (k, q, same, end) = opened_parts evict_after now db (ensure_database db h) e in
    let (v, m) = ensure_database-IsHandler db h w q in
    subst IsHandler (sym end) (
      IsHandler-of_same (connect db k) (touch evict_after now db (connect db k))
        (connect-IsHandler db k v m) (touch-settings evict_after now db (connect db k)))

forget_database-IsHandler :
    (db_name : Text) (h : Handler)
    → text_eq db_name default_alias ≡ false
    → IsHandler h
    → IsHandler (forget_database db_name h)
unfolding forget_database
forget_database-IsHandler db_name h other w = record {
  has_default = ground (
    arith,
    other,
    w.has_default,
    text_mem-without default_alias db_name h.settings,
    eq_of_text_eq default_alias db_name,
    text_eq_refl default_alias,
  );
  tenants = λ t m. ground (
    arith,
    m,
    w.tenants t,
    text_mem-without t db_name h.settings,
    text_mem-without t db_name h.tenant_aliases,
  );
  connections = λ t m. ground (
    arith,
    m,
    w.connections t,
    text_mem-without t db_name h.settings,
    text_mem-without t db_name h.connected,
  );
}

-- What a thread does with the handler: it asks for connections, at any time and on any database, and
-- forgets tenant databases.
pub data Use (h : Handler) : Handler → Type 0 where
  looked_up :
      (evict_after now : ℕ) (current alias a : Text) (h' : Handler)
      → get_item evict_after now current alias h ≡ some (a, h')
      → Use h h'
  forgotten :
      (db_name : Text) → text_eq db_name default_alias ≡ false → Use h (forget_database db_name h)

pub data Uses (start : Handler) : Handler → Type 0 where
  none_yet : Uses start start
  then_use : {h h' : Handler} → Uses start h → Use h h' → Uses start h'

Use-IsHandler : {h h' : Handler} → Use h h' → IsHandler h → IsHandler h'
Use-IsHandler {h} (looked_up evict_after now current alias a h' e) w =
    get_item-IsHandler evict_after now current alias h w e
Use-IsHandler {h} (forgotten db_name other) w = forget_database-IsHandler db_name h other w

-- Whatever connections are asked for and whatever databases but `default` are forgotten, in any
-- order: `default` stays configured, the aliases added for tenants are in the settings, are names of
-- databases and are no reserved alias, and each connection is of an alias in the settings.
pub Uses-IsHandler : {start h : Handler} → IsHandler start → Uses start h → IsHandler h
Uses-IsHandler w none_yet = w
Uses-IsHandler w (then_use us u) = Use-IsHandler u (Uses-IsHandler w us)

ensure_database-validated :
    (db_name : Text) (h : Handler)
    → IsHandler h
    → validate_database_name h db_name ≡ true
    → text_eq db_name saas_alias ≡ false
    → ensure_database db_name h ≢ none
unfolding validate_database_name add_database
ensure_database-validated db_name h w v s e = ground (
  arith,
  e,
  v,
  s,
  w.has_default,
  w.tenants db_name,
  λ (q : text_eq db_name default_alias ≡ true).
      ap (λ t. text_mem t h.settings) (eq_of_text_eq db_name default_alias q),
)

-- On a database whose name was validated, and is not the alias of the catalog, `default` is the
-- connection of that database.
pub get_item-validated :
    (evict_after now : ℕ) (db_name : Text) (h : Handler)
    → IsHandler h
    → validate_database_name h db_name ≡ true
    → text_eq db_name saas_alias ≡ false
    → (h' : Handler) × (get_item evict_after now db_name default_alias h ≡ some (db_name, h'))
      × (text_mem db_name h'.connected ≡ true)
unfolding get_item
get_item-validated evict_after now db_name h w v s =
    elim (Option-cases (ensure_database db_name h)) [
      | inl fails ↦ absurd (ensure_database-validated db_name h w v s fails)
      | inr (k, q) ↦ (
        touch evict_after now db_name (connect db_name k),
        rw q refl,
        rw ((touch-settings evict_after now db_name (connect db_name k)).2)
            (ground (arith, text_mem-text_add db_name db_name k.connected, text_eq_refl db_name)),
      )
    ]
