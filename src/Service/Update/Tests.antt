-- ===== src/Service/Update/Tests.antt =====
-- Two courses get a teacher; their other relations are empty.
use totem_backend.Base.{
  ℕ, ◌≡◌, refl, true, false, none, [], ◌∷◌, ◌==◌, length, if◌then◌else◌, ==_refl, ap, sym,
}
use totem_backend.Base.Repeats.{has}
use totem_backend.Service.Relations.{Record, plain, scalar, related_list, InternalItem}
use totem_backend.Service.Links.{Through}
use totem_backend.Service.Links.Kept.{IsThrough}
use totem_backend.Service.Creation.{Written, written, failed, other_error, record_pks}
use totem_backend.Service.Update.{UpdateBackend, updated, field_names, relations_of, update}
use totem_backend.Service.Update.Relinks.{IsApart, AreRelinked}
use totem_backend.Service.Update.Updated.{update-AreRelinked}

abbrev Links : Type 0
Links = ℕ → Through

abbrev record_of : ℕ → Record
record_of pk = record { pk = pk; content = 1 }

abbrev no_links : Through
no_links = record { links = []; next_id = 1 }

no_links-IsThrough : IsThrough no_links
no_links-IsThrough = record {
  unique_ids = λ l m a b e. elim a [ ];
  unique_pairs = λ l m a b e f. elim a [ ];
  below = λ l a. elim a [ ];
}

abbrev courses : UpdateBackend ℕ
courses = record {
  Tables = Links;
  selected = λ t. record_of 5 ∷ record_of 6 ∷ [];
  update_columns = λ values t. written t;
  through = λ k t. t k;
  conflicts = λ k new old. false;
  set_through = λ k links t j. if k == j then links else t j;
  tell_modified = λ pks fields before t. t;
  moves_rows = λ fields. true;
  many_to_many_fields = 2 ∷ 3 ∷ [];
  validate_data = λ values r. none;
  integrity_failure = other_error [];
  error_of = λ e. record { errors = []; code = none };
}

abbrev through_of : ℕ → Written ℕ Links → Through
through_of j (written t) = t j
through_of j (failed e) = no_links

courses-IsApart : IsApart courses
courses-IsApart = record {
  own = λ k links t. rw (==_refl k) refl;
  others = λ j k links t e. rw (e) refl;
  columns_apart = λ values t u j e. sym (ap (through_of j) e);
  context_apart = λ pks fields before t j. refl;
}

abbrev new_values : InternalItem
new_values = (1, plain (scalar 4)) ∷ (2, related_list (record_of 12 ∷ record_of 10 ∷ [])) ∷ []

abbrev start : Links
start k = no_links

update-AreRelinked_example :
    (after : Links) × (update courses new_values start
      ≡ (updated (length (record_pks (courses.selected start))), after))
    × AreRelinked courses courses-IsApart
        (record_pks (courses.selected start))
        (relations_of courses new_values)
        start
        after
    × ((j : ℕ)
        → has ◌==◌ j (field_names (relations_of courses new_values)) ≡ false
        → courses.through j after ≡ courses.through j start)
update-AreRelinked_example =
    update-AreRelinked courses courses-IsApart new_values start start refl refl refl refl
      (refl, refl, (λ s d s' d' m n e. refl), tt) (λ k. no_links-IsThrough)
