-- ===== src/Auth/ApiKeys.antt =====
-- src/authentication/models/api_key.py and `ApiKeyAuth` of src/authentication/authenticators.py: the
-- keys of machine callers. Names, secrets and digests are only compared: they are numbers. The digest
-- of a secret is an argument, and a secret that is generated is drawn by the caller.
pub mod Minted
mod Tests
use totem_backend.Base.{
  ℕ, Bool, true, false, ◌&&◌, ◌||◌, Option, none, some, List, [], ◌∷◌, ◌++◌, ◌==◌, ltb, any, filter,
  find?, if◌then◌else◌,
}
use totem_backend.Base.Text.{Text}
use totem_backend.Base.Sorting.{text_union}
use totem_backend.Auth.Scopes.{or_empty, has_scopes}

-- A row of `authentication.ApiKey`.
pub record ApiKey : Type 0 where
  pub name : ℕ
  pub secret_hash : ℕ
  pub scope : Option (List Text)
  pub is_active : Bool
  pub expires_at : Option ℕ

-- A key that is not saved yet: its digest, if the caller provides it, and the rest of the row.
pub record NewKey : Type 0 where
  pub name : ℕ
  pub secret_hash : Option ℕ
  pub scope : Option (List Text)
  pub is_active : Bool
  pub expires_at : Option ℕ

abbrev with_hash : NewKey → ℕ → ApiKey
with_hash k h = record {
  name = k.name;
  secret_hash = h;
  scope = k.scope;
  is_active = k.is_active;
  expires_at = k.expires_at;
}

-- The row of a new key, and its secret if one was generated.
abbrev mint : (ℕ → ℕ) → NewKey → ℕ → ApiKey × Option ℕ
mint hash_secret k drawn = elim k.secret_hash [
  | some h ↦ (with_hash k h, none)
  | none ↦ (with_hash k (hash_secret drawn), some drawn)
]

abbrev is_taken : ApiKey → List ApiKey → Bool
is_taken k = any (λ r. r.name == k.name || r.secret_hash == k.secret_hash)

-- `bulk_create`, for the keys and the secrets that are drawn for them: the rows with their secrets,
-- and the table; `none` when a name or a digest is taken.
unfoldable pub bulk_create :
    (ℕ → ℕ) → List (NewKey × ℕ) → List ApiKey → Option (List (ApiKey × Option ℕ) × List ApiKey)
bulk_create hash_secret [] keys = some ([], keys)
bulk_create hash_secret ((k, drawn) ∷ objs) keys =
    let row = mint hash_secret k drawn in
    let rest = bulk_create hash_secret objs (keys ++ row.0 ∷ []) in
    if is_taken row.0 keys
    then none
    else elim rest [ none ↦ none | some (rows, keys') ↦ some (row ∷ rows, keys') ]

abbrev first_created :
    Option (List (ApiKey × Option ℕ) × List ApiKey) → Option ((ApiKey × Option ℕ) × List ApiKey)
first_created none = none
first_created (some ([], keys)) = none
first_created (some (row ∷ rows, keys)) = some (row, keys)

-- `create_with_secret`
unfoldable pub create_with_secret :
    (ℕ → ℕ) → NewKey → ℕ → List ApiKey → Option ((ApiKey × Option ℕ) × List ApiKey)
unfolding bulk_create
create_with_secret hash_secret k drawn keys =
    first_created (bulk_create hash_secret ((k, drawn) ∷ []) keys)

-- Whether a key may authenticate a request.
abbrev pub is_usable_key : ℕ → ApiKey → Bool
is_usable_key now k =
    k.is_active && (elim k.expires_at as (λ _. Bool) [ none ↦ true | some t ↦ ltb now t ])

unfoldable pub usable : ℕ → List ApiKey → List ApiKey
usable now = filter (is_usable_key now)

-- `ApiKeyAuth.authenticate`: the key that was presented, `none` for a blank header.
unfoldable pub authenticate_key : (ℕ → ℕ) → ℕ → Option ℕ → List ApiKey → Option ApiKey
unfolding usable
authenticate_key hash_secret now none keys = none
authenticate_key hash_secret now (some key) keys =
    find? (λ k. k.secret_hash == hash_secret key) (usable now keys)

-- `request.auth.has_scopes(required)` for a key.
unfoldable pub key_has_scopes : ApiKey → List Text → Bool
key_has_scopes k required = has_scopes (text_union (or_empty k.scope) []) required
