-- ===== src/Tenancy.antt =====
-- src/core/db/tenancy.py: the names of the tenant databases, and the handler that gives each of them
-- an alias, a connection and a pool behind the alias `default`. One thread is modelled. Opening a
-- connection is django's: an alias that has one is in `connected`. A pool is what its statistics
-- say. Times are whole seconds, and logging is left out.
pub mod Names
pub mod Aliases
pub mod Pools
mod Tests
use totem_backend.Base.{
  ℕ, ◌+◌, ◌-◌, Bool, true, false, ◌&&◌, ◌||◌, not, Option, none, some, List, [], ◌∷◌, ◌++◌, ◌==◌,
  leb, ltb, filter, if◌then◌else◌,
}
use totem_backend.Base.Text.{Text, codes, text_eq}
use totem_backend.Base.Sorting.{text_mem, text_add}
use totem_backend.Auth.AccessTokens.{text_or}

-- `[a-z_]`
unfoldable pub is_name_start : ℕ → Bool
is_name_start c = (leb b'a' c && leb c b'z') || c == b'_'

-- `[a-z0-9_]`
unfoldable pub is_name_char : ℕ → Bool
unfolding is_name_start
is_name_char c = is_name_start c || (leb b'0' c && leb c b'9')

-- `[a-z0-9_]{0,n}$`: `$` also matches before a newline that ends the text.
abbrev pub name_rest : ℕ → Text → Bool
name_rest n [] = true
name_rest n (c ∷ s) =
    let rest = name_rest (n - 1) s in
    (c == 10 && text_eq s []) || (ltb 0 n && is_name_char c && rest)

-- `DATABASE_NAME_RE.match`
unfoldable pub matches_name : Text → Bool
matches_name [] = false
matches_name (c ∷ s) = is_name_start c && name_rest 62 s

abbrev pub default_alias : Text
default_alias = codes "default"

abbrev pub saas_alias : Text
saas_alias = codes "saas_base"

-- `current_database`, for the value of the context variable and the default of the settings.
unfoldable pub current_database : Option Text → Text → Text
current_database selected default_database = text_or selected default_database

-- A pool of connections, with its statistics.
pub record Pool : Type 0 where
  pub alias : Text
  pub pool_size : ℕ
  pub pool_available : ℕ

pub record Handler : Type 0 where
  pub settings : List Text
  pub tenant_aliases : List Text
  pub connected : List Text
  pub pools : List Pool
  pub last_used : List (Text × ℕ)
  pub last_eviction_check : ℕ

-- `validate_database_name`: whether it returns.
unfoldable pub validate_database_name : Handler → Text → Bool
validate_database_name h db_name =
    matches_name db_name
    && not (text_mem db_name h.settings && not (text_mem db_name h.tenant_aliases))

-- `tenant_databases`, for the rows of the catalog, if the deployment has one.
unfoldable pub tenant_databases : Text → Option (List Text) → List Text
tenant_databases default_database none = default_database ∷ []
tenant_databases default_database (some names) = filter matches_name names

-- `_resolve`
abbrev pub resolve : Text → Text → Text
resolve current alias = if text_eq alias default_alias then current else alias

-- `_add_database`, or `none` for an unknown alias.
unfoldable pub add_database : Text → Handler → Option Handler
add_database db_name h =
    if not (matches_name db_name) || text_eq db_name default_alias || text_eq db_name saas_alias
    then none
    else if text_mem db_name h.settings
    then some h
    else some (record h {
      settings = h.settings ++ db_name ∷ [];
      tenant_aliases = text_add db_name h.tenant_aliases;
    })

-- `_last_used.get(alias, now)`
abbrev pub last_use : Text → ℕ → List (Text × ℕ) → ℕ
last_use alias now [] = now
last_use alias now ((a, t) ∷ last_used) =
    if text_eq a alias then t else last_use alias now last_used

abbrev pub set_last_use : Text → ℕ → List (Text × ℕ) → List (Text × ℕ)
set_last_use alias now [] = (alias, now) ∷ []
set_last_use alias now ((a, t) ∷ last_used) =
    if text_eq a alias then (a, now) ∷ last_used else (a, t) ∷ set_last_use alias now last_used

-- A pool that `evict_idle_pools` closes: unused for long, and with no borrowed connection.
abbrev pub is_idle : ℕ → ℕ → List (Text × ℕ) → Pool → Bool
is_idle evict_after now last_used p =
    not (ltb now (last_use p.alias now last_used + evict_after))
    && not (ltb 0 (p.pool_size - p.pool_available))

unfoldable pub evict_idle_pools : ℕ → ℕ → Handler → Handler
evict_idle_pools evict_after now h = record h {
  pools = filter (λ p. not (is_idle evict_after now h.last_used p)) h.pools;
}

-- `_touch`
unfoldable pub touch : ℕ → ℕ → Text → Handler → Handler
unfolding evict_idle_pools
touch evict_after now alias h =
    let used : Handler = record h { last_used = set_last_use alias now h.last_used } in
    if leb (h.last_eviction_check + 60) now
    then evict_idle_pools evict_after now (record used { last_eviction_check = now })
    else used

-- `super().__getitem__`
abbrev pub connect : Text → Handler → Handler
connect alias h = record h { connected = text_add alias h.connected }

abbrev ensure_database : Text → Handler → Option Handler
ensure_database alias h = if text_mem alias h.settings then some h else add_database alias h

abbrev opened : ℕ → ℕ → Text → Option Handler → Option (Text × Handler)
opened evict_after now alias none = none
opened evict_after now alias (some h) = some (alias, touch evict_after now alias (connect alias h))

-- `__getitem__`: the alias whose connection it is, or `none` for an unknown alias.
unfoldable pub get_item : ℕ → ℕ → Text → Text → Handler → Option (Text × Handler)
get_item evict_after now current alias h =
    opened evict_after now (resolve current alias) (ensure_database (resolve current alias) h)

-- `__iter__`
unfoldable pub iterate : Text → Handler → List Text
iterate current h = filter (λ a. not (text_eq a current)) h.settings

abbrev without : Text → List Text → List Text
without a = filter (λ b. not (text_eq b a))

unfoldable pub forget_database : Text → Handler → Handler
forget_database db_name h = record h {
  connected = without db_name h.connected;
  pools = filter (λ p. not (text_eq p.alias db_name)) h.pools;
  settings = without db_name h.settings;
  tenant_aliases = without db_name h.tenant_aliases;
  last_used = filter (λ (e : Text × ℕ). not (text_eq e.0 db_name)) h.last_used;
}
