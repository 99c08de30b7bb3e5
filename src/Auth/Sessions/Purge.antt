-- ===== src/Auth/Sessions/Purge.antt =====
-- What the periodic purge (src/authentication/tasks.py) forgets, as a later exchange sees it.
use totem_backend.Base.{
  ℕ, ◌≡◌, refl, Option, none, some, List, [], ◌∷◌, leb, if◌then◌else◌, All, arith,
}
use totem_backend.Auth.AccessTokens.{User}
use totem_backend.Auth.RefreshTokens.{RefreshToken, Tokens, purge_expired}
use totem_backend.Auth.RefreshTokens.Table.{AreApart, IsTable}
use totem_backend.Auth.Sessions.{find_token}

-- What is left of a lookup after a purge at `now`.
abbrev pub unexpired : ℕ → Option (RefreshToken × User) → Option (RefreshToken × User)
unexpired now none = none
unexpired now (some (t, u)) = if leb t.expires_at now then none else some (t, u)

find_token-apart :
    (secret_hash : ℕ) (users : List User) (t : RefreshToken) (ts : Tokens)
    → t.secret_hash ≡ secret_hash
    → All (AreApart t) ts
    → find_token secret_hash users ts ≡ none
find_token-apart secret_hash users t [] same h = refl
find_token-apart secret_hash users t (u ∷ ts) same h =
    ground (arith, find_token-apart secret_hash users t ts same h.1, h.0.digests)

-- After a purge, a secret finds the row that it found before, unless that row had expired: a
-- revoked token that has not expired is still there for a replay to be told from a guess.
pub find_token-purge_expired :
    (secret_hash now : ℕ) (users : List User) (ts : Tokens)
    → IsTable ts
    → find_token secret_hash users (purge_expired now ts).1
      ≡ unexpired now (find_token secret_hash users ts)
unfolding purge_expired
find_token-purge_expired secret_hash now users [] h = refl
find_token-purge_expired secret_hash now users (t ∷ ts) h = ground (
  arith,
  find_token-purge_expired secret_hash now users ts h.1,
  λ (same : t.secret_hash ≡ secret_hash). find_token-apart secret_hash users t ts same h.0,
)
