-- ===== src/Tenancy/Tests.antt =====
-- The handler of src/core/db/tenancy.py, run on one tenant database.
use totem_backend.Base.{◌≡◌, refl, true, some, [], ◌∷◌, arith, In, head}
use totem_backend.Base.Text.{Text, codes}
use totem_backend.Base.Sorting.{text_mem}
use totem_backend.Tenancy.{
  Pool, Handler, matches_name, default_alias, validate_database_name, add_database,
  evict_idle_pools, touch, get_item, forget_database, is_name_start,
}
use totem_backend.Tenancy.Aliases.{
  IsHandler, Uses, looked_up, forgotten, Uses-IsHandler, get_item-validated,
}
use totem_backend.Tenancy.Pools.{get_item-pools}

abbrev dance : Text
dance = codes "d"

abbrev dance_pool : Pool
dance_pool = record { alias = dance; pool_size = 2; pool_available = 2 }

abbrev at_start : Handler
at_start = record {
  settings = default_alias ∷ [];
  tenant_aliases = [];
  connected = [];
  pools = dance_pool ∷ [];
  last_used = [];
  last_eviction_check = 0;
}

at_start-IsHandler : IsHandler at_start
at_start-IsHandler = record {
  has_default = refl;
  tenants = λ t m. absurd (ground (arith, m));
  connections = λ t m. absurd (ground (arith, m));
}

abbrev on_dance : Handler
on_dance = record {
  settings = default_alias ∷ dance ∷ [];
  tenant_aliases = dance ∷ [];
  connected = dance ∷ [];
  pools = dance_pool ∷ [];
  last_used = (dance, 900) ∷ [];
  last_eviction_check = 900;
}

open_dance : get_item 600 900 dance default_alias at_start ≡ some (dance, on_dance)
unfolding get_item add_database touch evict_idle_pools matches_name is_name_start
open_dance = refl

valid_dance : validate_database_name at_start dance ≡ true
unfolding validate_database_name matches_name is_name_start
valid_dance = refl

Uses-IsHandler_example : IsHandler (forget_database dance on_dance)
Uses-IsHandler_example = Uses-IsHandler at_start-IsHandler (
    Uses.then_use
      (Uses.then_use Uses.none_yet
        (looked_up 600 900 dance default_alias dance on_dance open_dance))
      (forgotten dance refl))

get_item-validated_example :
    (h' : Handler) × (get_item 600 900 dance default_alias at_start ≡ some (dance, h'))
    × (text_mem dance h'.connected ≡ true)
get_item-validated_example =
    get_item-validated 600 900 dance at_start at_start-IsHandler valid_dance refl

get_item-pools_example : In dance_pool on_dance.pools
get_item-pools_example =
    get_item-pools 600 900 dance default_alias at_start dance_pool (omega arith) open_dance refl
      (head refl)
