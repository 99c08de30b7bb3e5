-- ===== src/Auth/ApiKeys/Minted.antt =====
-- What the secret of a key that was just created is worth.
use totem_backend.Base.{
  ℕ, ◌≡◌, refl, Bool, true, false, ◌&&◌, ltb, Option, Option-cases, inl, inr, none, some, List, [],
  ◌∷◌, ◌++◌, ◌==◌, filter, find?, if◌then◌else◌, arith, ==_refl,
}
use totem_backend.Auth.ApiKeys.{
  ApiKey, NewKey, is_taken, bulk_create, create_with_secret, is_usable_key, usable,
  authenticate_key,
}

find-fresh :
    (now : ℕ) (row : ApiKey) (keys : List ApiKey)
    → is_taken row keys ≡ false
    → find?
        (λ (k : ApiKey). k.secret_hash == row.secret_hash)
        (filter (is_usable_key now) (keys ++ row ∷ []))
      ≡ (if is_usable_key now row then some row else none)
find-fresh now row [] h = ground (arith, ==_refl row.secret_hash)
find-fresh now row (k ∷ keys) h = ground (arith, h, find-fresh now row keys)

-- A time is before the expiry, if there is one.
abbrev pub is_before : ℕ → Option ℕ → Bool
is_before now none = true
is_before now (some expiry) = ltb now expiry

is_usable_key-is_before :
    (now : ℕ) (k : ApiKey) → is_usable_key now k ≡ (k.is_active && is_before now k.expires_at)
is_usable_key-is_before now k = elim (Option-cases k.expires_at) [
  | inl p ↦ rw (p) refl
  | inr (t, p) ↦ rw (p) refl
]

-- The secret that a creation gives back authenticates as the key that was created, while that key is
-- active and not expired, and as nobody otherwise.
pub authenticate_key-create_with_secret :
    (hash_secret : ℕ → ℕ) (k : NewKey) (drawn now : ℕ) (keys : List ApiKey) {row : ApiKey}
    {secret : ℕ} {keys' : List ApiKey}
    → create_with_secret hash_secret k drawn keys ≡ some ((row, some secret), keys')
    → authenticate_key hash_secret now (some secret) keys'
      ≡ (if row.is_active && is_before now row.expires_at then some row else none)
unfolding create_with_secret bulk_create authenticate_key usable
authenticate_key-create_with_secret hash_secret k drawn now keys {row} e =
    ground (arith, e, find-fresh now row keys, is_usable_key-is_before now row)
