-- ===== src/Service/Links/Tests.antt =====
-- A course with two teachers gets another in place of the second.
use totem_backend.Base.{
  ℕ, ◌≡◌, refl, Bool, true, not, ltb, none, ◌&&◌, ◌==◌, arith, ◌||◌, some, List, [], ◌∷◌, mem, In,
  if◌then◌else◌,
}
use totem_backend.Service.Links.{Link, Through, linked, relink}
use totem_backend.Service.Links.Kept.{IsThrough}
use totem_backend.Service.Links.Created.{with_link, with_link-IsThrough}
use totem_backend.Service.Links.Relinked.{IsCompatible, linked_after, relink-linked}

abbrev no_links : Through
no_links = record { links = []; next_id = 1 }

no_links-IsThrough : IsThrough no_links
no_links-IsThrough = record {
  unique_ids = λ l m a b e. elim a [ ];
  unique_pairs = λ l m a b e f. elim a [ ];
  below = λ l a. elim a [ ];
}

abbrev teachers : Through
teachers = with_link 5 11 (with_link 5 10 no_links)

teachers-IsThrough : IsThrough teachers
teachers-IsThrough =
    with_link-IsThrough 5 11 (with_link 5 10 no_links)
      (with_link-IsThrough 5 10 no_links no_links-IsThrough refl) refl

abbrev courses : List ℕ
courses = 5 ∷ 6 ∷ []

abbrev new_teachers : List ℕ
new_teachers = 12 ∷ 10 ∷ []

-- One teacher per category, which is the ten of the key.
abbrev category : ℕ → ℕ
category d = if ltb d 12 then 1 else 2

abbrev one_per_category : ℕ × ℕ → ℕ × ℕ → Bool
one_per_category (s, d) (s', d') = s == s' && category d == category d'

-- Two new teachers of one category are refused.
two_of_a_category : relink one_per_category courses (10 ∷ 11 ∷ []) no_links ≡ none
unfolding relink
two_of_a_category = refl

teachers_fit : IsCompatible one_per_category (linked_after courses new_teachers teachers.links)
teachers_fit s d s' d' m n apart = ground (arith, m, n, apart)

relink-linked_example :
    (result : Through) × (relink one_per_category courses new_teachers teachers ≡ some result)
    × IsThrough result
    × ((s d : ℕ) → linked s d result.links ≡ linked_after courses new_teachers teachers.links s d)
    × ((l : Link)
        → In l teachers.links
        → (not (mem l.src courses) || mem l.dst new_teachers) ≡ true
        → In l result.links)
relink-linked_example =
    relink-linked teachers courses new_teachers teachers-IsThrough one_per_category refl refl
      teachers_fit
