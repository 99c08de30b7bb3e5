-- ===== src/Files.antt =====
-- `CleanupFileModelMixin` of src/base/models/mixins.py: which files of an instance are deleted from
-- the storage, and when. A file is its path, and the empty text is no file. Field names are only
-- compared: they are numbers. The names of the file fields of the model are an argument.
pub mod Saved
mod Tests
use totem_backend.Base.{
  ℕ, Bool, true, false, ◌&&◌, not, Option, none, some, List, [], ◌∷◌, ◌++◌, ◌==◌, mem, filter,
  is_none, if◌then◌else◌,
}
use totem_backend.Base.Text.{Text, text_eq}

-- A dict, in insertion order.
abbrev pub Files : Type 0
Files = List (ℕ × Text)

-- `d[k] = v`
abbrev pub set_item : ℕ → Text → Files → Files
set_item k v [] = (k, v) ∷ []
set_item k v ((j, w) ∷ d) = if j == k then (k, v) ∷ d else (j, w) ∷ set_item k v d

-- `d.get(k)`
abbrev pub get_item : ℕ → Files → Option Text
get_item k [] = none
get_item k ((j, w) ∷ d) = if j == k then some w else get_item k d

-- The attributes of an instance, and `_initial_file_state`.
pub record Instance : Type 0 where
  pub attributes : Files
  pub initial : Files

-- The loops of `__init__` and of `save` over `__dict__`.
abbrev pub remember : List ℕ → Files → Files → Files
remember names [] state = state
remember names ((k, v) ∷ d) state =
    remember names d (if mem k names then set_item k v state else state)

-- `__init__`, on the attributes that django's constructor set.
unfoldable pub construct : List ℕ → Files → Instance
construct names attributes = record {
  attributes = attributes;
  initial = remember names attributes [];
}

-- `__setattr__`
unfoldable pub set_attribute : List ℕ → ℕ → Text → Instance → Instance
set_attribute names k v i = record {
  attributes = set_item k v i.attributes;
  initial =
      if mem k names && is_none (get_item k i.initial) then set_item k v i.initial else i.initial;
}

-- `current_val != val`
abbrev pub differs : Option Text → Text → Bool
differs none v = true
differs (some w) v = not (text_eq w v)

-- The loop of `_get_dirty_file_fields`, over the items of a state.
abbrev pub dirty_items : Files → Files → List ℕ
dirty_items state [] = []
dirty_items state ((k, v) ∷ items) =
    let rest = dirty_items state items in if differs (get_item k state) v then k ∷ rest else rest

unfoldable pub get_dirty_file_fields : Instance → List ℕ
get_dirty_file_fields i = dirty_items i.initial i.initial

-- `delete_files`: the paths that are deleted from the storage.
unfoldable pub delete_files : List Text → List Text
delete_files paths = filter (λ p. not (text_eq p [])) paths

abbrev path_of : Option Text → Text
path_of none = []
path_of (some p) = p

abbrev delete_fields : Files → List ℕ → List Text
delete_fields state [] = []
delete_fields state (k ∷ fields) =
    delete_files (path_of (get_item k state) ∷ []) ++ delete_fields state fields

-- `save`: the paths that it deletes, and the instance.
unfoldable pub save : List ℕ → Instance → List Text × Instance
unfolding get_dirty_file_fields
save names i = (
  delete_fields i.initial (get_dirty_file_fields i),
  record i { initial = remember names i.attributes i.initial },
)

-- `delete`: the paths that it deletes.
unfoldable pub delete : List ℕ → Instance → List Text
delete names i = delete_fields i.attributes names
