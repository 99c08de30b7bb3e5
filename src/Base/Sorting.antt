-- ===== src/Base/Sorting.antt =====
-- Python's `set` of texts as a list without repetitions, and `sorted` on it.
use totem_backend.Base.Tests.{if◌then◌else◌}
use totem_backend.Base.Text.{Text, text_eq, text_le, text_eq_refl, eq_of_text_eq}
use mathlib.Core.Path.{◌≡◌, refl}
use mathlib.Core.Bool.{Bool, false, ◌||◌}
use mathlib.Core.List.{List, [], ◌∷◌}
use native.Mathlib.Omega.{arith}

-- `s in l`
abbrev pub text_mem : Text → List Text → Bool
text_mem s [] = false
text_mem s (t ∷ l) = text_eq s t || text_mem s l

-- `set.add`
abbrev pub text_add : Text → List Text → List Text
text_add s l = if text_mem s l then l else s ∷ l

-- `acc |= set(l)`
unfoldable pub text_union : List Text → List Text → List Text
text_union [] acc = acc
text_union (s ∷ l) acc = text_add s (text_union l acc)

-- One insertion of an insertion sort.
unfoldable pub insert_sorted : Text → List Text → List Text
insert_sorted s [] = s ∷ []
insert_sorted s (t ∷ l) = if text_le s t then s ∷ t ∷ l else t ∷ insert_sorted s l

-- `sorted(l)`: the order is total and only equal texts tie, so any stable sort gives this list.
unfoldable pub sorted : List Text → List Text
unfolding insert_sorted
sorted [] = []
sorted (s ∷ l) = insert_sorted s (sorted l)

pub text_mem-union :
    (k : Text) (l acc : List Text)
    → text_mem k (text_union l acc) ≡ (text_mem k l || text_mem k acc)
unfolding text_union
text_mem-union k [] acc = refl
text_mem-union k (s ∷ l) acc =
    ground (arith, text_mem-union k l acc, eq_of_text_eq k s, text_eq_refl k)

pub text_mem-insert :
    (k s : Text) (l : List Text) → text_mem k (insert_sorted s l) ≡ (text_eq k s || text_mem k l)
unfolding insert_sorted
text_mem-insert k s [] = refl
text_mem-insert k s (t ∷ l) = ground (arith, text_mem-insert k s l)

pub text_mem-sorted : (k : Text) (l : List Text) → text_mem k (sorted l) ≡ text_mem k l
unfolding sorted
text_mem-sorted k [] = refl
text_mem-sorted k (s ∷ l) = ground (arith, text_mem-insert k s (sorted l), text_mem-sorted k l)
