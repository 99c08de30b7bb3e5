-- ===== src/Auth/ApiKeys/Tests.antt =====
-- A key of src/authentication/models/api_key.py that is created, and presented.
use totem_backend.Base.{◌≡◌, ◌&&◌, refl, true, none, some, [], ◌∷◌, if◌then◌else◌}
use totem_backend.Base.Text.{codes}
use totem_backend.Auth.ApiKeys.{ApiKey, NewKey, bulk_create, create_with_secret, authenticate_key}
use totem_backend.Auth.ApiKeys.Minted.{authenticate_key-create_with_secret, is_before}

abbrev other_key : ApiKey
other_key = record {
  name = 1;
  secret_hash = 40;
  scope = some [];
  is_active = true;
  expires_at = none;
}

abbrev wanted : NewKey
wanted = record {
  name = 2;
  secret_hash = none;
  scope = some (codes "a" ∷ []);
  is_active = true;
  expires_at = some 100;
}

abbrev granted : ApiKey
granted = record {
  name = 2;
  secret_hash = 41;
  scope = some (codes "a" ∷ []);
  is_active = true;
  expires_at = some 100;
}

create_wanted :
    create_with_secret (λ s. s) wanted 41 (other_key ∷ [])
    ≡ some ((granted, some 41), other_key ∷ granted ∷ [])
unfolding create_with_secret bulk_create
create_wanted = refl

authenticate_key-create_with_secret_example :
    authenticate_key (λ s. s) 50 (some 41) (other_key ∷ granted ∷ [])
    ≡ (if granted.is_active && is_before 50 granted.expires_at then some granted else none)
authenticate_key-create_with_secret_example =
    authenticate_key-create_with_secret (λ s. s) wanted 41 50 (other_key ∷ []) create_wanted
