-- ===== src/Auth/Scopes/Tests.antt =====
-- The registry of permissions of src/user/access_rights.py, run on one permission.
use totem_backend.Base.{◌≡◌, refl, true, ◌||◌, [], ◌∷◌, ◌++◌}
use totem_backend.Base.Text.{Text, codes, text_eq}
use totem_backend.Auth.Scopes.{
  Permissions, register_permission, registered, is_registered, matches_permission, segment, dot,
  lower_run, is_lower,
}
use totem_backend.Auth.Scopes.Registry.{
  IsRegistry, register_permission-IsRegistry, matches_permission-append,
}

matches_name : matches_permission (codes "event.card.read") ≡ true
unfolding matches_permission segment dot lower_run is_lower
matches_name = refl

abbrev one_permission : Permissions
one_permission =
    record { permission = codes "event.card.read"; description = []; is_public = true } ∷ []

register_first :
    register_permission (codes "event.card.read") [] true [] ≡ registered one_permission
unfolding register_permission
register_first = rw matches_name refl

register_permission-IsRegistry_example :
    IsRegistry one_permission
    × ((k : Text)
        → is_registered k one_permission
          ≡ (is_registered k [] || text_eq k (codes "event.card.read")))
register_permission-IsRegistry_example =
    register_permission-IsRegistry (codes "event.card.read") [] true [] tt register_first

matches_permission-append_example :
    matches_permission (codes "event.card.read" ++ codes "; ?") ≡ true
matches_permission-append_example =
    matches_permission-append (codes "event.card.read") (codes "; ?") matches_name
