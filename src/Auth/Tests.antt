-- ===== src/Auth/Tests.antt =====
-- The sessions and the tokens of src/authentication/ and the permissions of src/user/, run on small
-- values, with a codec of tokens that signs nothing.
use totem_backend.Base.{
  ◌++◌, ℕ, ◌≤◌, ◌<◌, ◌≡◌, ◌≢◌, ◌↔◌, refl, sym, subst, inl, inr, ◌⊎◌, true, Option, none, some, [],
  ◌∷◌, leb, ltb, ◌+◌, if◌then◌else◌, arith,
}
use totem_backend.Base.Text.{Text, codes, text_eq, eq_of_text_eq}
use totem_backend.Base.Sorting.{text_mem, sorted}
use totem_backend.Base.Words.{IsWord, is_space, join_words}
use totem_backend.Base.Ascending.{IsAscending}
use totem_backend.Auth.Scopes.{Roles, get_user_scopes, has_scopes}
use totem_backend.Auth.Scopes.Granted.{
  grants, text_mem-get_user_scopes, get_user_scopes_deterministic, has_scopes_iff,
}
use totem_backend.Auth.AccessTokens.{
  Claims, Decoded, payload, expired_signature, invalid_token, Jwt, PkCodec, Ambient, User,
  AccessToken, verified, token_expired, token_invalid, access_claims, encode_access_token,
  decode_access_token, authenticate, token_has_scopes, check_claims, active_user, as_principal,
}
use totem_backend.Auth.AccessTokens.Verified.{
  decode-encode_access_token, authenticate-issued_for, token_has_scopes-issued_for, issued_for,
  active_account,
}
use totem_backend.Auth.RefreshTokens.{
  RefreshToken, revoke_session, Draw, purge_expired, issue, revoke,
}
use totem_backend.Auth.RefreshTokens.Table.{IsTable}
use totem_backend.Auth.Sessions.{
  Database, Outcome, TokenPair, replayed, unknown, expired, inactive, sign_out, refused, issued,
  find_token, rotate, login, issue_pair,
}
use totem_backend.Auth.Sessions.Rotation.{rotate-IsTable}
use totem_backend.Auth.Sessions.Replay.{rotate-rotate, rotate_successor}
use totem_backend.Auth.Sessions.Reachable.{Step, Reach, Reach-IsTable, purge, IsFresh}
use totem_backend.Auth.Sessions.Spent.{rotate-Reach}
use totem_backend.Auth.Sessions.Opened.{login_successor}
use totem_backend.Auth.Sessions.Ended.{sign_out-Reach}
use totem_backend.Auth.Sessions.Purge.{find_token-purge_expired, unexpired}

abbrev read_claims : ℕ → Claims → Decoded
read_claims now c =
    if leb c.iat now
    then (if ltb now c.exp then payload c else expired_signature)
    else invalid_token

read_claims_live :
    (now : ℕ) (c : Claims) → c.iat ≤ now → now < c.exp → read_claims now c ≡ payload c
read_claims_live now c early live = ground (arith, early, live)

read_claims_late :
    (now : ℕ) (c : Claims) → c.iat ≤ now → c.exp ≤ now → read_claims now c ≡ expired_signature
read_claims_late now c early late = ground (arith, early, late)

abbrev jwt : Jwt
jwt = record {
  Token = Claims;
  encode = λ c. c;
  decode = read_claims;
  decode_live = read_claims_live;
  decode_late = read_claims_late;
}

abbrev single : Text → Option ℕ
single [] = none
single (c ∷ []) = some c
single (c ∷ d ∷ s) = none

abbrev ids : PkCodec
ids = record { str = λ pk. pk ∷ []; to_python = single; to_python_str = λ pk. refl }

abbrev digest : ℕ → ℕ
digest secret = secret

abbrev at_time : ℕ → Ambient
at_time now = record {
  clock = now;
  database = codes "dance";
  access_lifetime = 10;
  refresh_lifetime = 100;
}

abbrev some_roles : Roles
some_roles = some (codes "b" ∷ codes "a" ∷ []) ∷ none ∷ some (codes "a" ∷ []) ∷ []

abbrev alice : User
alice = record { pk = 7; is_active = true; last_login = none; roles = some_roles }

abbrev start : Database
start = record {
  tokens =
      record {
        pk = 1;
        user = 7;
        secret_hash = 50;
        session_id = 3;
        expires_at = 200;
        revoked_at = none;
      }
      ∷ [];
  users = alice ∷ [];
}

abbrev draw_at : ℕ → Draw
draw_at n = record { pk = n; secret = 50 + n; session_id = 100 + n; jti = n }

start-IsTable : IsTable start.tokens
start-IsTable = (tt, tt)

-- The outcome of the exchange of the first secret, and the state after it.
abbrev exchanged : TokenPair jwt.Token × Database
exchanged = (
  record {
    access_token =
        access_claims ids (at_time 20) 7 (some (get_user_scopes some_roles)) none none (some 20) 9;
    refresh_token = 59;
    expires_in = 10;
    scope = join_words (get_user_scopes some_roles);
  },
  record {
    tokens =
        record {
          pk = 1;
          user = 7;
          secret_hash = 50;
          session_id = 3;
          expires_at = 200;
          revoked_at = some 20;
        }
        ∷ record {
          pk = 9;
          user = 7;
          secret_hash = 59;
          session_id = 3;
          expires_at = 120;
          revoked_at = none;
        }
        ∷ [];
    users = alice ∷ [];
  },
)

rotate-start :
    rotate jwt ids digest (at_time 20) 50 20 (draw_at 9) start ≡ (issued exchanged.0, exchanged.1)
unfolding rotate issue_pair issue revoke encode_access_token access_claims
rotate-start = refl

rotate-rotate_example :
    let (again, db₂) = rotate jwt ids digest (at_time 30) 50 30 (draw_at 10) exchanged.1 in
    let (next, _) = rotate jwt ids digest (at_time 40) 59 40 (draw_at 11) db₂ in
    (again ≡ refused replayed) × (next ≡ refused replayed)
rotate-rotate_example =
    rotate-rotate jwt ids digest (at_time 20) (at_time 30) (at_time 40) 50 20 30 40 (draw_at 9)
      (draw_at 10) (draw_at 11) start rotate-start

rotate_successor_example :
    (rotate jwt ids digest (at_time 30) 59 30 (draw_at 10) exchanged.1).0 ≢ refused expired
rotate_successor_example =
    rotate_successor jwt ids digest (at_time 20) (at_time 30) 50 20 30 (draw_at 9) (draw_at 10)
      start expired rotate-start (omega arith)

abbrev after_login : Database
after_login = (login jwt ids digest (at_time 25) (some alice) (draw_at 4) start).1

abbrev after_rotation : Database
after_rotation = (rotate jwt ids digest (at_time 26) 54 26 (draw_at 5) after_login).1

Reach-rotation : Reach jwt ids digest start after_rotation
Reach-rotation =
    Reach.next
      (Reach.next Reach.here
        (Step.logged_in (at_time 25) (some alice) (draw_at 4) (ground arith, tt)))
      (Step.rotated (at_time 26) 54 26 (draw_at 5))

Reach-IsTable_example : IsTable after_rotation.tokens
Reach-IsTable_example = Reach-IsTable jwt ids digest start-IsTable Reach-rotation

exchanged-IsTable : IsTable exchanged.1.tokens
exchanged-IsTable =
    subst (λ (r : Outcome jwt.Token × Database). IsTable r.1.tokens) rotate-start
      (rotate-IsTable jwt ids digest (at_time 20) 50 20 (draw_at 9) start start-IsTable)

find_token-purge_expired_example :
    find_token 50 (alice ∷ []) (purge_expired 130 exchanged.1.tokens).1
    ≡ unexpired 130 (find_token 50 (alice ∷ []) exchanged.1.tokens)
find_token-purge_expired_example =
    find_token-purge_expired 50 130 (alice ∷ []) exchanged.1.tokens exchanged-IsTable

-- The outcome of a login, and the state after it.
abbrev opened : TokenPair jwt.Token × Database
opened = (
  record {
    access_token =
        access_claims ids (at_time 25) 7 (some (get_user_scopes some_roles)) none none (some 25) 4;
    refresh_token = 54;
    expires_in = 10;
    scope = join_words (get_user_scopes some_roles);
  },
  record {
    tokens =
        start.tokens
        ++ record {
          pk = 4;
          user = 7;
          secret_hash = 54;
          session_id = 104;
          expires_at = 125;
          revoked_at = none;
        }
          ∷ [];
    users = record alice { last_login = some 25 } ∷ [];
  },
)

login-start :
    login jwt ids digest (at_time 25) (some alice) (draw_at 4) start ≡ (issued opened.0, opened.1)
unfolding login issue_pair issue encode_access_token access_claims
login-start = refl

login_successor_example :
    (rotate jwt ids digest (at_time 30) 54 30 (draw_at 5) opened.1).0 ≢ refused inactive
login_successor_example =
    login_successor jwt ids digest (at_time 25) (at_time 30) alice 30 (draw_at 4) (draw_at 5) start
      inactive refl refl login-start (omega arith)

-- Another login, and a purge when the spent token has expired.
abbrev after_purge : Database
after_purge = purge 250 (login jwt ids digest (at_time 25) (some alice) (draw_at 4) exchanged.1).1

exchanged-IsFresh : IsFresh 104 exchanged.1.tokens
exchanged-IsFresh = (ground arith, (ground arith, tt))

abbrev other_login :
    Step jwt ids digest exchanged.1
      (login jwt ids digest (at_time 25) (some alice) (draw_at 4) exchanged.1).1
other_login = Step.logged_in (at_time 25) (some alice) (draw_at 4) exchanged-IsFresh

abbrev purge_reached : Reach jwt ids digest exchanged.1 after_purge
purge_reached = Reach.next (Reach.next Reach.here other_login) (Step.purged 250)

rotate-Reach_example :
    ((rotate jwt ids digest (at_time 260) 50 260 (draw_at 12) after_purge).0 ≡ refused replayed)
    ⊎ ((rotate jwt ids digest (at_time 260) 50 260 (draw_at 12) after_purge).0 ≡ refused unknown)
rotate-Reach_example =
    rotate-Reach jwt ids digest (at_time 20) (at_time 260) 50 20 260 (draw_at 9) (draw_at 12) start
      start-IsTable rotate-start purge_reached ((tt, ground arith), tt)

abbrev signed_out : Database
signed_out = sign_out digest 30 59 exchanged.1

abbrev last_token : RefreshToken
last_token = record {
  pk = 9;
  user = 7;
  secret_hash = 59;
  session_id = 3;
  expires_at = 120;
  revoked_at = none;
}

abbrev revoked_token : RefreshToken
revoked_token = record last_token { revoked_at = some 30 }

found_again :
    find_token 59 signed_out.users (purge 40 signed_out).tokens ≡ some (revoked_token, alice)
unfolding sign_out revoke_session revoke purge_expired
found_again = refl

abbrev signed_out_reached : Reach jwt ids digest signed_out (purge 40 signed_out)
signed_out_reached = Reach.next Reach.here (Step.purged 40)

sign_out-Reach_example :
    (rotate jwt ids digest (at_time 50) 59 50 (draw_at 12) (purge 40 signed_out)).0
    ≡ refused replayed
sign_out-Reach_example =
    sign_out-Reach jwt ids digest (at_time 50) 30 50 59 59 (draw_at 12) exchanged.1
      {token = last_token} refl signed_out_reached (tt, tt) found_again refl

decode-encode_access_token_example :
    decode_access_token jwt ids
      (at_time 12)
      (encode_access_token jwt ids (at_time 5) 7 none none none none 1).0
      none
    ≡ (if leb (encode_access_token jwt ids (at_time 5) 7 none none none none 1).1 12
        then token_expired
        else if text_eq (codes "dance") (codes "dance")
        then verified (access_claims ids (at_time 5) 7 none none none none 1)
        else token_invalid)
decode-encode_access_token_example =
    decode-encode_access_token jwt ids (at_time 5) (at_time 12) 7 none none none none none 1
      (omega arith)

authenticate-issued_for_example :
    authenticate jwt ids (at_time 12) (alice ∷ []) (issued_for jwt ids (at_time 5) 7 some_roles 1).0
    ≡ (if leb (issued_for jwt ids (at_time 5) 7 some_roles 1).1 12
        then none
        else if text_eq (codes "dance") (codes "dance")
        then as_principal
            (access_claims ids (at_time 5) 7 (some (get_user_scopes some_roles)) none none none 1)
            (active_account 7 (alice ∷ []))
        else none)
authenticate-issued_for_example =
    authenticate-issued_for jwt ids (at_time 5) (at_time 12) (alice ∷ []) 7 some_roles 1
      (omega arith)

abbrev alice_token : AccessToken
alice_token = record {
  user = alice;
  scope = join_words (sorted (get_user_scopes some_roles));
  jti = 1;
  expires_at = 15;
}

authenticate-alice :
    authenticate jwt ids (at_time 12) (alice ∷ []) (issued_for jwt ids (at_time 5) 7 some_roles 1).0
    ≡ some alice_token
unfolding authenticate decode_access_token encode_access_token access_claims check_claims
    active_user
authenticate-alice = refl

IsWord-of_eq : (t w : Text) → IsWord w → text_eq t w ≡ true → IsWord t
IsWord-of_eq t w h e = subst IsWord (sym (eq_of_text_eq t w e)) h

grants_cases :
    (t : Text)
    → grants t some_roles ≡ true
    → (text_eq t (codes "a") ≡ true) ⊎ (text_eq t (codes "b") ≡ true)
grants_cases t h = ground (arith, h)

grants-IsWord : (t : Text) → grants t some_roles ≡ true → IsWord t
unfolding is_space
grants-IsWord t h = elim (grants_cases t h) [
  | inl e ↦ IsWord-of_eq t (codes "a") (refl, tt) e
  | inr e ↦ IsWord-of_eq t (codes "b") (refl, tt) e
]

token_has_scopes-issued_for_example :
    (token_has_scopes alice_token (codes "a" ∷ []) ≡ true)
    ↔ ((s : Text) → text_mem s (codes "a" ∷ []) ≡ true → grants s some_roles ≡ true)
token_has_scopes-issued_for_example =
    token_has_scopes-issued_for jwt ids (at_time 5) (at_time 12) (alice ∷ []) 7 some_roles 1
      (codes "a" ∷ []) (omega arith) grants-IsWord authenticate-alice

text_mem-get_user_scopes_example :
    text_mem (codes "a") (get_user_scopes some_roles) ≡ grants (codes "a") some_roles
text_mem-get_user_scopes_example = text_mem-get_user_scopes (codes "a") some_roles

-- The same permissions, in another order and from one role.
abbrev other_roles : Roles
other_roles = some (codes "a" ∷ codes "b" ∷ codes "a" ∷ []) ∷ []

grants_other : (s : Text) → grants s some_roles ≡ grants s other_roles
grants_other s = ground arith

get_user_scopes_deterministic_example :
    IsAscending (get_user_scopes some_roles)
    × (get_user_scopes some_roles ≡ get_user_scopes other_roles)
get_user_scopes_deterministic_example =
    get_user_scopes_deterministic some_roles other_roles grants_other

has_scopes_iff_example : (has_scopes (codes "a" ∷ codes "b" ∷ []) (codes "b" ∷ []) ≡ true) ↔ (
    (s : Text)
    → text_mem s (codes "b" ∷ []) ≡ true
    → text_mem s (codes "a" ∷ codes "b" ∷ []) ≡ true)
has_scopes_iff_example = has_scopes_iff (codes "a" ∷ codes "b" ∷ []) (codes "b" ∷ [])
