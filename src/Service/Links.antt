-- ===== src/Service/Links.antt =====
-- The many-to-many part of `UpdateMixin._update_atomic` of src/core/services/mixins.py, for one
-- field: the links from the updated rows to the rows of the new value are created, the obsolete ones
-- deleted, those that exist are not touched. The table of the links is the list of its rows: like
-- django's, it gives a new link an id of its own, and refuses a second link between the same rows.
-- The other unique constraints of the through model (`unique_role_category` of
-- src/user/models/user_role.py is one) are `conflicts`: the links, as pairs of rows, that it forbids
-- beside one another.
pub mod Kept
pub mod Removed
pub mod Created
pub mod Relinked
mod Tests
use totem_backend.Base.{
  ℕ, suc, Bool, true, false, ◌&&◌, ◌||◌, not, Option, none, some, List, [], ◌∷◌, ◌++◌, ◌==◌, any,
  filter, mem, if◌then◌else◌,
}

pub record Link : Type 0 where
  pub id : ℕ
  pub src : ℕ
  pub dst : ℕ

pub record Through : Type 0 where
  pub links : List Link
  pub next_id : ℕ

abbrev pub joins : ℕ → ℕ → Link → Bool
joins s d l = l.src == s && l.dst == d

-- A link from `s` to `d` is there.
abbrev pub linked : ℕ → ℕ → List Link → Bool
linked s d links = any (joins s d) links

-- `existing_vals`: the links from the updated rows.
abbrev pub existing_links : List ℕ → List Link → List Link
existing_links pks links = filter (λ (l : Link). mem l.src pks) links

abbrev or_match : ℕ → ℕ → Link → Option ℕ → Option ℕ
or_match s d l (some i) = some i
or_match s d l none = if joins s d l then some l.id else none

-- `existing_objs_map[(s, d)]`: a dict keeps the last of the items with the same key.
abbrev pub existing_id : ℕ → ℕ → List Link → Option ℕ
existing_id s d [] = none
existing_id s d (l ∷ links) = or_match s d l (existing_id s d links)

abbrev pub keep_id : Option ℕ → List ℕ → List ℕ
keep_id none keep = keep
keep_id (some i) keep = i ∷ keep

-- The ids to keep of the links from a row.
abbrev pub kept_from : List Link → ℕ → List ℕ → List ℕ
kept_from existing pk [] = []
kept_from existing pk (d ∷ value) =
    keep_id (existing_id pk d existing) (kept_from existing pk value)

-- `pks_to_keep`
abbrev pub pks_to_keep : List Link → List ℕ → List ℕ → List ℕ
pks_to_keep existing [] value = []
pks_to_keep existing (pk ∷ pks) value =
    kept_from existing pk value ++ pks_to_keep existing pks value

abbrev pub put_missing : ℕ → ℕ → Option ℕ → List (ℕ × ℕ) → List (ℕ × ℕ)
put_missing pk d none pairs = (pk, d) ∷ pairs
put_missing pk d (some i) pairs = pairs

abbrev pub created_from : List Link → ℕ → List ℕ → List (ℕ × ℕ)
created_from existing pk [] = []
created_from existing pk (d ∷ value) =
    put_missing pk d (existing_id pk d existing) (created_from existing pk value)

-- `relations_to_create`
abbrev pub relations_to_create : List Link → List ℕ → List ℕ → List (ℕ × ℕ)
relations_to_create existing [] value = []
relations_to_create existing (pk ∷ pks) value =
    created_from existing pk value ++ relations_to_create existing pks value

abbrev is_some_id : ℕ → Option ℕ → Bool
is_some_id i none = false
is_some_id i (some j) = i == j

-- `existing_objs_map.values()`
abbrev pub existing_values : List Link → List Link → List ℕ
existing_values existing [] = []
existing_values existing (l ∷ links) =
    let rest = existing_values existing links in
    if is_some_id l.id (existing_id l.src l.dst existing) then l.id ∷ rest else rest

-- `set(existing_objs_map.values()) - set(pks_to_keep)`
abbrev pub pks_to_remove : List Link → List ℕ → List ℕ
pks_to_remove existing keep = filter (λ i. not (mem i keep)) (existing_values existing existing)

abbrev pub delete_links : List ℕ → List Link → List Link
delete_links remove links = filter (λ (l : Link). not (mem l.id remove)) links

-- A link that is there forbids another.
abbrev pub is_refused : (ℕ × ℕ → ℕ × ℕ → Bool) → ℕ → ℕ → List Link → Bool
is_refused conflicts s d links =
    any (λ (l : Link). joins s d l || conflicts (s, d) (l.src, l.dst)) links

-- `bulk_create` of links: `none` is an integrity error.
abbrev pub create_links : (ℕ × ℕ → ℕ × ℕ → Bool) → List (ℕ × ℕ) → Through → Option Through
create_links conflicts [] through = some through
create_links conflicts ((s, d) ∷ pairs) through =
    let rest = create_links conflicts pairs record {
      links = through.links ++ record { id = through.next_id; src = s; dst = d } ∷ [];
      next_id = suc through.next_id;
    } in
    if is_refused conflicts s d through.links then none else rest

-- What the update does to a relation.
unfoldable pub relink : (ℕ × ℕ → ℕ × ℕ → Bool) → List ℕ → List ℕ → Through → Option Through
relink conflicts pks value through =
    let existing = existing_links pks through.links in
    create_links conflicts (relations_to_create existing pks value) record through {
      links = delete_links (pks_to_remove existing (pks_to_keep existing pks value)) through.links;
    }
