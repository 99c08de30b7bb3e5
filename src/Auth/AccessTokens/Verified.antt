-- ===== src/Auth/AccessTokens/Verified.antt =====
-- What a token that this service signed is worth: until when, on which database, to whom.
use totem_backend.Base.{
  ℕ, ◌≤◌, ◌≡◌, ◌↔◌, sym, refl, ◌∙◌, true, Option, none, some, List, [], ◌∷◌, ◌==◌, if◌then◌else◌,
  leb, arith, ap,
}
use totem_backend.Base.Text.{Text, text_eq, text_eq_refl}
use totem_backend.Base.Sorting.{sorted, text_mem, text_mem-sorted}
use totem_backend.Base.Words.{join_words, IsWord}
use totem_backend.Auth.Scopes.{Roles, get_user_scopes, token_scopes}
use totem_backend.Auth.Scopes.Granted.{
  grants, text_mem-get_user_scopes, text_mem-token_scopes, has_scopes_iff,
}
use totem_backend.Auth.AccessTokens.{
  Jwt, PkCodec, Ambient, User, AccessToken, verified, token_expired, token_invalid, number_or,
  text_or, access_claims, active_user, encode_access_token, decode_access_token, authenticate,
  token_has_scopes, as_principal, access_token_type,
}

sub-access_claims :
    (ids : PkCodec) (env : Ambient) (user_id : ℕ) (scopes : Option (List Text))
    (db_name : Option Text) (ttl now : Option ℕ) (jti : ℕ)
    → (access_claims ids env user_id scopes db_name ttl now jti).sub ≡ ids.str user_id
unfolding access_claims
sub-access_claims ids env user_id scopes db_name ttl now jti = refl

scope-access_claims :
    (ids : PkCodec) (env : Ambient) (user_id : ℕ) (scopes : List Text) (db_name : Option Text)
    (ttl now : Option ℕ) (jti : ℕ)
    → (access_claims ids env user_id (some scopes) db_name ttl now jti).scope
      ≡ some (join_words (sorted scopes))
unfolding access_claims
scope-access_claims ids env user_id scopes db_name ttl now jti = refl

-- The account with a key, if it is active.
abbrev pub active_account : ℕ → List User → Option User
active_account pk [] = none
active_account pk (u ∷ users) =
    let rest = active_account pk users in
    if u.pk == pk then (if u.is_active then some u else rest) else rest

module _ (jwt : Jwt) (ids : PkCodec) where
  -- Decoding a token that was encoded here, no earlier than it was issued: past its expiry it is
  -- expired; before, it is refused unless the database asked for is the one that it was issued
  -- for; and otherwise its claims come back unchanged.
  pub decode-encode_access_token :
      (env env' : Ambient) (user_id : ℕ) (scopes : Option (List Text))
      (db_name db_name' : Option Text) (ttl now : Option ℕ) (jti : ℕ)
      → number_or now env.clock ≤ env'.clock
      → let (token, expires_at) =
          encode_access_token jwt ids env user_id scopes db_name ttl now jti in
        decode_access_token jwt ids env' token db_name' ≡ (
          if leb expires_at env'.clock
          then token_expired
          else if text_eq (text_or db_name env.database) (text_or db_name' env'.database)
          then verified (access_claims ids env user_id scopes db_name ttl now jti)
          else token_invalid)
  unfolding encode_access_token decode_access_token
  decode-encode_access_token env env' user_id scopes db_name db_name' ttl now jti issued =
      let c = access_claims ids env user_id scopes db_name ttl now jti in
      ground (
        arith,
        jwt.decode_live env'.clock c,
        jwt.decode_late env'.clock c,
        text_eq_refl access_token_type,
      )

  -- The token that `AuthService` issues, for the roles that its user has then, on the current
  -- database.
  abbrev pub issued_for : Ambient → ℕ → Roles → ℕ → jwt.Token × ℕ
  issued_for env user_id roles jti =
      encode_access_token jwt ids env user_id (some (get_user_scopes roles)) none none none jti

  active_user-active_account :
      (pk : ℕ) (users : List User) → active_user pk users ≡ active_account pk users
  unfolding active_user
  active_user-active_account pk [] = refl
  active_user-active_account pk (u ∷ users) = ground (arith, active_user-active_account pk users)

  -- A request that presents a token that was issued for a user is authenticated as that user, if
  -- the token has not expired, the request runs on the same database and the account is active at
  -- the time of the request; in every other case it is not authenticated at all.
  pub authenticate-issued_for :
      (env env' : Ambient) (users : List User) (user_id : ℕ) (roles : Roles) (jti : ℕ)
      → env.clock ≤ env'.clock
      → let (token, expires_at) = issued_for env user_id roles jti in
        authenticate jwt ids env' users token ≡ (
          if leb expires_at env'.clock
          then none
          else if text_eq (text_or none env.database) (text_or none env'.database)
          then as_principal
              (access_claims ids env user_id (some (get_user_scopes roles)) none none none jti)
              (active_account user_id users)
          else none)
  unfolding authenticate
  authenticate-issued_for env env' users user_id roles jti later = ground (
    arith,
    decode-encode_access_token env env' user_id (some (get_user_scopes roles)) none none none none
        jti later,
    ids.to_python_str user_id,
    active_user-active_account user_id users,
    sub-access_claims ids env user_id (some (get_user_scopes roles)) none none none jti,
  )

  scope-authenticate :
      (env env' : Ambient) (users : List User) (user_id : ℕ) (roles : Roles) (jti : ℕ)
      {p : AccessToken}
      → env.clock ≤ env'.clock
      → authenticate jwt ids env' users (issued_for env user_id roles jti).0 ≡ some p
      → p.scope ≡ join_words (sorted (get_user_scopes roles))
  scope-authenticate env env' users user_id roles jti later e = ground (
    arith,
    authenticate-issued_for env env' users user_id roles jti later,
    scope-access_claims ids env user_id (get_user_scopes roles) none none none jti,
  )

  -- A request that a token authenticates passes a route's scope check exactly when every scope that
  -- the route requires was granted by a role that the user had when the token was issued, for
  -- permissions that are single words.
  pub token_has_scopes-issued_for :
      (env env' : Ambient) (users : List User) (user_id : ℕ) (roles : Roles) (jti : ℕ)
      (required : List Text) {p : AccessToken}
      → env.clock ≤ env'.clock
      → ((t : Text) → grants t roles ≡ true → IsWord t)
      → authenticate jwt ids env' users (issued_for env user_id roles jti).0 ≡ some p
      → (token_has_scopes p required ≡ true)
        ↔ ((s : Text) → text_mem s required ≡ true → grants s roles ≡ true)
  unfolding token_has_scopes
  token_has_scopes-issued_for env env' users user_id roles jti required {p} later words e = (
    λ h s m. sym (granted s) ∙ (has_scopes_iff (token_scopes p.scope) required).0 h s m,
    λ h. (has_scopes_iff (token_scopes p.scope) required).1 (λ s m. granted s ∙ h s m),
  )
    where
      claim : List Text
      claim = sorted (get_user_scopes roles)

      in_claim : (s : Text) → text_mem s claim ≡ grants s roles
      in_claim s = text_mem-sorted s (get_user_scopes roles) ∙ text_mem-get_user_scopes s roles

      granted : (s : Text) → text_mem s (token_scopes p.scope) ≡ grants s roles
      granted s =
          ap (λ c. text_mem s (token_scopes c))
            (scope-authenticate env env' users user_id roles jti later e)
          ∙ text_mem-token_scopes s claim (λ t m. words t (sym (in_claim t) ∙ m))
          ∙ in_claim s
