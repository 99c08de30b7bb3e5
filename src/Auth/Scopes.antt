-- ===== src/Auth/Scopes.antt =====
-- src/user/access_rights.py and src/authentication/principal.py: the registry of permissions, the
-- permissions of a user's roles, and the test that a principal was granted the scopes of a route.
pub mod Granted
pub mod Registry
mod Tests
use totem_backend.Base.{
  ℕ, suc, ◌+◌, Bool, true, false, ◌&&◌, ◌||◌, Option, none, some, List, [], ◌∷◌, ◌++◌, leb, ◌==◌,
  if◌then◌else◌, all,
}
use totem_backend.Base.Text.{Text, text_eq}
use totem_backend.Base.Sorting.{text_mem, text_union, sorted}
use totem_backend.Base.Words.{split_words}

pub record PermissionRecord : Type 0 where
  pub permission : Text
  pub description : Text
  pub is_public : Bool

-- `_PERMISSIONS`: keyed by `permission`, in insertion order.
abbrev pub Permissions : Type 0
Permissions = List PermissionRecord

abbrev pub is_registered : Text → Permissions → Bool
is_registered p [] = false
is_registered p (r ∷ rs) = text_eq p r.permission || is_registered p rs

-- `[a-z]`
is_lower : ℕ → Bool
is_lower c = leb b'a' c && leb c b'z'

-- How many characters `[a-z]*` takes, and what is left.
lower_run : Text → ℕ × Text
unfolding is_lower
lower_run [] = (0, [])
lower_run (c ∷ s) = let (n, rest) = lower_run s in if is_lower c then (suc n, rest) else (0, c ∷ s)

-- `[a-z]{3,}` and then `next`. What `next` wants first is no `[a-z]`, so taking all is the only way.
segment : (Text → Bool) → Text → Bool
unfolding lower_run
segment next s = let (n, rest) = lower_run s in leb 3 n && next rest

-- `\.` and then `next`
dot : (Text → Bool) → Text → Bool
dot next [] = false
dot next (c ∷ s) = c == b'.' && next s

-- `re.match(regex, s) is not None`: the pattern is anchored at the start only.
unfoldable pub matches_permission : Text → Bool
unfolding segment dot
matches_permission = segment (dot (segment (dot (segment (λ _. true)))))

pub data Registration : Type 0 where
  registered : Permissions → Registration
  already_exists name_mismatch : Registration

unfoldable pub register_permission : Text → Text → Bool → Permissions → Registration
register_permission p description is_public rs =
    if is_registered p rs
    then already_exists
    else if matches_permission p
    then registered
        (rs ++ record { permission = p; description = description; is_public = is_public } ∷ [])
    else name_mismatch

unfoldable pub get_all_permission : Permissions → List (Text × Text)
get_all_permission [] = []
get_all_permission (r ∷ rs) = (r.permission, r.description) ∷ get_all_permission rs

unfoldable pub get_public_permission : Permissions → List (Text × Text)
get_public_permission [] = []
get_public_permission (r ∷ rs) =
    if r.is_public
    then (r.permission, r.description) ∷ get_public_permission rs
    else get_public_permission rs

-- The `permissions` of each role, a nullable array.
abbrev pub Roles : Type 0
Roles = List (Option (List Text))

-- `role.permissions or []`
abbrev pub or_empty : Option (List Text) → List Text
or_empty none = []
or_empty (some l) = l

abbrev collect : List Text → Roles → List Text
collect scopes [] = scopes
collect scopes (r ∷ rs) = collect (text_union (or_empty r) scopes) rs

unfoldable pub get_user_scopes : Roles → List Text
get_user_scopes roles = sorted (collect [] roles)

-- `ScopedPrincipalMixin.has_scopes` of a principal with the given `scopes`.
unfoldable pub has_scopes : List Text → List Text → Bool
has_scopes scopes [] = true
has_scopes scopes (s ∷ required) = all (λ r. text_mem r scopes) (s ∷ required)

-- `AccessToken.scopes`: `set(self.scope.split())`
unfoldable pub token_scopes : Text → List Text
token_scopes scope = text_union (split_words scope) []
