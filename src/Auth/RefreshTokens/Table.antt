-- ===== src/Auth/RefreshTokens/Table.antt =====
-- The invariant of the table: keys and digests are unique, the tokens of a session belong to one
-- user, and at most one of them is live. Every method of the queryset keeps it.
use totem_backend.Base.{
  ℕ, ◌≡◌, ◌≢◌, ◌⊎◌, refl, Bool, true, false, ◌&&◌, not, Option, some, List, [], ◌∷◌, ◌++◌, leb,
  filter, map, if◌then◌else◌, All, arith,
}
use totem_backend.Auth.AccessTokens.{Ambient, number_or}
use totem_backend.Auth.RefreshTokens.{
  RefreshToken, Tokens, Draw, is_live, stamp, revoke, purge_expired, clashes, issued_row, issue,
}

-- What two rows of one table may share.
pub record AreApart (t u : RefreshToken) : Type 0 where
  pub pks : t.pk ≢ u.pk
  pub digests : t.secret_hash ≢ u.secret_hash
  pub owner : t.session_id ≡ u.session_id → t.user ≡ u.user
  pub one_live : t.session_id ≡ u.session_id → is_live t && is_live u ≡ false

abbrev pub IsTable : Tokens → Type 0
IsTable [] = Unit
IsTable (t ∷ ts) = All (AreApart t) ts × IsTable ts

-- The tokens of a session belong to a user and are all revoked.
abbrev pub IsSpent : ℕ → ℕ → Tokens → Type 0
IsSpent session_id user tokens =
    All (λ t. t.session_id ≡ session_id → (t.user ≡ user) × (is_live t ≡ false)) tokens

AreApart-stamp :
    (rows : RefreshToken → Bool) (now : ℕ) (t u : RefreshToken)
    → AreApart t u
    → AreApart (stamp rows now t) (stamp rows now u)
AreApart-stamp rows now t u h = record {
  pks = ground (arith, h.pks);
  digests = ground (arith, h.digests);
  owner = λ e. ground (arith, h.owner);
  one_live = λ e. ground (arith, h.one_live);
}

AreApart-map-stamp :
    (rows : RefreshToken → Bool) (now : ℕ) (t : RefreshToken) (ts : Tokens)
    → All (AreApart t) ts
    → All (AreApart (stamp rows now t)) (map (stamp rows now) ts)
AreApart-map-stamp rows now t [] h = tt
AreApart-map-stamp rows now t (u ∷ ts) h =
    (AreApart-stamp rows now t u h.0, AreApart-map-stamp rows now t ts h.1)

-- Revoking any set of rows keeps the table well formed.
pub revoke-IsTable :
    (rows : RefreshToken → Bool) (now : ℕ) (ts : Tokens)
    → IsTable ts
    → IsTable (revoke rows now ts).1
unfolding revoke
revoke-IsTable rows now [] h = tt
revoke-IsTable rows now (t ∷ ts) h =
    (AreApart-map-stamp rows now t ts h.0, revoke-IsTable rows now ts h.1)

All-filter {ℓ κ} :
    {A : Type ℓ} (P : A → Type κ) (p : A → Bool) (xs : List A) → All P xs → All P (filter p xs)
All-filter P p [] h = tt
All-filter P p (x ∷ xs) h =
    elim (p x) as (λ b. All P (if b then x ∷ filter p xs else filter p xs)) [
      | true ↦ (h.0, All-filter P p xs h.1)
      | false ↦ All-filter P p xs h.1
    ]

filter-IsTable : (p : RefreshToken → Bool) (ts : Tokens) → IsTable ts → IsTable (filter p ts)
filter-IsTable p [] h = tt
filter-IsTable p (t ∷ ts) h =
    elim (p t) as (λ b. IsTable (if b then t ∷ filter p ts else filter p ts)) [
      | true ↦ (All-filter (AreApart t) p ts h.0, filter-IsTable p ts h.1)
      | false ↦ filter-IsTable p ts h.1
    ]

-- Purging keeps the table well formed.
pub purge_expired-IsTable : (now : ℕ) (ts : Tokens) → IsTable ts → IsTable (purge_expired now ts).1
unfolding purge_expired
purge_expired-IsTable now ts h = filter-IsTable (λ t. not (leb t.expires_at now)) ts h

IsTable-snoc :
    (row : RefreshToken) (ts : Tokens)
    → clashes row ts ≡ false
    → IsSpent row.session_id row.user ts
    → IsTable ts
    → IsTable (ts ++ row ∷ [])
IsTable-snoc row [] c s h = (tt, tt)
IsTable-snoc row (t ∷ ts) c s h = (
  AreApart-snoc t row ts
      (record {
        pks = ground arith;
        digests = ground arith;
        owner = λ e. (s.0 e).0;
        one_live = λ e. rw ((s.0 e).1) refl;
      })
      h.0,
  IsTable-snoc row ts (ground arith) s.1 h.1,
)
  where
    AreApart-snoc :
        (t u : RefreshToken) (ts : Tokens)
        → AreApart t u
        → All (AreApart t) ts
        → All (AreApart t) (ts ++ u ∷ [])
    AreApart-snoc t u [] a h = (a, tt)
    AreApart-snoc t u (v ∷ ts) a h = (h.0, AreApart-snoc t u ts a h.1)

-- A new token keeps the table well formed, if its session holds no live token and no other user's.
pub issue-IsTable :
    (hash_secret : ℕ → ℕ) (env : Ambient) (user : ℕ) (session_id now : Option ℕ) (draw : Draw)
    (ts : Tokens) {secret : ℕ} {ts' : Tokens}
    → IsTable ts
    → IsSpent (number_or session_id draw.session_id) user ts
    → issue hash_secret env user session_id now draw ts ≡ some (secret, ts')
    → IsTable ts'
unfolding issue
issue-IsTable hash_secret env user session_id now draw ts h s e = ground (
  arith,
  IsTable-snoc (issued_row hash_secret env user session_id (number_or now env.clock) draw) ts,
)

-- Revoking the rows of a session spends it, whoever owned them before.
pub IsSpent-revoke :
    (rows : RefreshToken → Bool) (now session_id user : ℕ) (ts : Tokens)
    → All
        (λ t. t.session_id ≡ session_id → (t.user ≡ user) × ((rows t ≡ true) ⊎ (is_live t ≡ false)))
        ts
    → IsSpent session_id user (revoke rows now ts).1
unfolding revoke
IsSpent-revoke rows now session_id user [] h = tt
IsSpent-revoke rows now session_id user (t ∷ ts) h =
    (λ e. ground (arith, h.0), IsSpent-revoke rows now session_id user ts h.1)
