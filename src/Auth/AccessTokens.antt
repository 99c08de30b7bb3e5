-- ===== src/Auth/AccessTokens.antt =====
-- src/authentication/tokens.py and `JWTAuth` of src/authentication/authenticators.py: the codec of
-- the access tokens, and what a request that carries one is authenticated as. The signing library
-- and the text form of a primary key are third-party code: the records `Jwt` and `PkCodec`.
-- Times and lifetimes are whole seconds.
pub mod Verified
use totem_backend.Base.{
  ℕ, ◌+◌, ◌≤◌, ◌<◌, ◌≡◌, Bool, true, false, ◌&&◌, Option, none, some, List, [], ◌∷◌, ◌==◌, find?,
  if◌then◌else◌,
}
use totem_backend.Base.Text.{Text, codes, text_eq}
use totem_backend.Base.Sorting.{sorted}
use totem_backend.Base.Words.{join_words}
use totem_backend.Auth.Scopes.{Roles, or_empty, has_scopes, token_scopes}

-- The payload of a verified token. All but `scope` are required claims, so they are there.
pub record Claims : Type 0 where
  pub sub : Text
  pub typ : Text
  pub scope : Option Text
  pub db : Text
  pub iat : ℕ
  pub exp : ℕ
  pub jti : ℕ

-- How `jwt.decode` ends: the claims, `ExpiredSignatureError`, any other `InvalidTokenError`.
pub data Decoded : Type 0 where
  payload : Claims → Decoded
  expired_signature invalid_token : Decoded

-- pyjwt, with the signing key, the one algorithm and the required claims of the settings. A token
-- that it signed is accepted from its `iat` on, and until its `exp`.
pub record Jwt : Type 1 where
  pub Token : Type 0
  pub encode : Claims → Token
  pub decode : ℕ → Token → Decoded
  pub decode_live :
      (now : ℕ) (c : Claims) → c.iat ≤ now → now < c.exp → decode now (encode c) ≡ payload c
  pub decode_late :
      (now : ℕ) (c : Claims) → c.iat ≤ now → c.exp ≤ now → decode now (encode c) ≡ expired_signature

-- `str(pk)` and `to_python` of a primary key; `none` is a `ValidationError` or a `ValueError`.
pub record PkCodec : Type 0 where
  pub str : ℕ → Text
  pub to_python : Text → Option ℕ
  pub to_python_str : (pk : ℕ) → to_python (str pk) ≡ some pk

-- What the settings and the unit of work hold: the clock, the current database, the lifetimes.
pub record Ambient : Type 0 where
  pub clock : ℕ
  pub database : Text
  pub access_lifetime : ℕ
  pub refresh_lifetime : ℕ

-- A row of `user.User`, with the permissions of its roles.
pub record User : Type 0 where
  pub pk : ℕ
  pub is_active : Bool
  pub last_login : Option ℕ
  pub roles : Roles

-- `authentication.principal.AccessToken`
pub record AccessToken : Type 0 where
  pub user : User
  pub scope : Text
  pub jti : ℕ
  pub expires_at : ℕ

-- The `TokenError`s, and the claims.
pub data Verdict : Type 0 where
  verified : Claims → Verdict
  token_expired token_invalid : Verdict

abbrev pub access_token_type : Text
access_token_type = codes "access"

-- `value or default` on an optional number and on an optional text, where "" is falsy too.
abbrev pub number_or : Option ℕ → ℕ → ℕ
number_or none d = d
number_or (some n) d = n

abbrev pub text_or : Option Text → Text → Text
text_or none d = d
text_or (some []) d = d
text_or (some (c ∷ s)) d = c ∷ s

-- The payload that `encode_access_token` signs.
unfoldable pub access_claims :
    PkCodec → Ambient → ℕ → Option (List Text) → Option Text → Option ℕ → Option ℕ → ℕ → Claims
access_claims ids env user_id scopes db_name ttl now jti =
    let issued = number_or now env.clock in
    record {
      sub = ids.str user_id;
      typ = access_token_type;
      scope = some (join_words (sorted (or_empty scopes)));
      db = text_or db_name env.database;
      iat = issued;
      exp = issued + number_or ttl env.access_lifetime;
      jti = jti;
    }

-- What `decode_access_token` checks of the claims that the library verified.
unfoldable pub check_claims : Ambient → Option Text → Decoded → Verdict
check_claims env db_name expired_signature = token_expired
check_claims env db_name invalid_token = token_invalid
check_claims env db_name (payload c) =
    if text_eq c.typ access_token_type
    then (if text_eq c.db (text_or db_name env.database) then verified c else token_invalid)
    else token_invalid

-- `User.objects.filter(pk=…, is_active=True).first()`
unfoldable pub active_user : ℕ → List User → Option User
active_user pk = find? (λ u. u.pk == pk && u.is_active)

abbrev scope_or_blank : Option Text → Text
scope_or_blank none = []
scope_or_blank (some s) = s

abbrev pub as_principal : Claims → Option User → Option AccessToken
as_principal c none = none
as_principal c (some u) =
    some (record { user = u; scope = scope_or_blank c.scope; jti = c.jti; expires_at = c.exp })

abbrev load_user : Claims → List User → Option ℕ → Option AccessToken
load_user c users none = none
load_user c users (some pk) = as_principal c (active_user pk users)

abbrev principal_of : PkCodec → List User → Verdict → Option AccessToken
principal_of ids users (verified c) = load_user c users (ids.to_python c.sub)
principal_of ids users token_expired = none
principal_of ids users token_invalid = none

module _ (jwt : Jwt) (ids : PkCodec) where
  unfoldable pub encode_access_token :
      Ambient → ℕ → Option (List Text) → Option Text → Option ℕ → Option ℕ → ℕ → jwt.Token × ℕ
  unfolding access_claims
  encode_access_token env user_id scopes db_name ttl now jti =
      let claims = access_claims ids env user_id scopes db_name ttl now jti in
      (jwt.encode claims, claims.exp)

  unfoldable pub decode_access_token : Ambient → jwt.Token → Option Text → Verdict
  unfolding check_claims
  decode_access_token env token db_name = check_claims env db_name (jwt.decode env.clock token)

  -- `JWTAuth.authenticate`: the principal, or `none` for a 401.
  unfoldable pub authenticate : Ambient → List User → jwt.Token → Option AccessToken
  authenticate env users token = principal_of ids users (decode_access_token env token none)

-- `request.auth.has_scopes(required)` for an access token.
unfoldable pub token_has_scopes : AccessToken → List Text → Bool
token_has_scopes t required = has_scopes (token_scopes t.scope) required
