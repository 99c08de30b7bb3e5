-- ===== src/Files/Saved.antt =====
-- The files that saving an instance deletes.
use totem_backend.Base.{
  ℕ, ◌≡◌, refl, true, false, ◌&&◌, none, some, List, [], ◌∷◌, ◌==◌, mem, is_none, if◌then◌else◌,
  arith, ==_refl, eq_of_==,
}
use totem_backend.Base.Text.{Text, text_eq_refl}
use totem_backend.Files.{
  Files, set_item, get_item, Instance, remember, construct, set_attribute, dirty_items,
  get_dirty_file_fields, save,
}

-- Each key of a dict stands once.
abbrev pub IsDict : Files → Type 0
IsDict [] = Unit
IsDict ((k, v) ∷ d) = (get_item k d ≡ none) × IsDict d

get_item-set_item :
    (j k : ℕ) (v : Text) (d : Files)
    → get_item j (set_item k v d) ≡ (if k == j then some v else get_item j d)
get_item-set_item j k v [] = refl
get_item-set_item j k v ((i, w) ∷ d) = ground (arith, get_item-set_item j k v d)

set_item-IsDict : (k : ℕ) (v : Text) (d : Files) → IsDict d → IsDict (set_item k v d)
set_item-IsDict k v [] h = (refl, tt)
set_item-IsDict k v ((j, w) ∷ d) h =
    ground (arith, h.0, h.1, set_item-IsDict k v d h.1, get_item-set_item j k v d, eq_of_== j k)

remember-IsDict :
    (names : List ℕ) (items state : Files) → IsDict state → IsDict (remember names items state)
remember-IsDict names [] state h = h
remember-IsDict names ((k, v) ∷ items) state h =
    remember-IsDict names items _
      (elim (mem k names) as (λ b. IsDict (if b then set_item k v state else state)) [
        | true ↦ set_item-IsDict k v state h
        | false ↦ h
      ])

-- What a program does with an instance: it assigns to fields, and saves.
pub data Used (names : List ℕ) (attributes : Files) : Instance → Type 0 where
  constructed : Used names attributes (construct names attributes)
  assigned :
      {i : Instance} (k : ℕ) (v : Text)
      → Used names attributes i
      → Used names attributes (set_attribute names k v i)
  saved : {i : Instance} → Used names attributes i → Used names attributes (save names i).1

Used-IsDict :
    {names : List ℕ} {attributes : Files} {i : Instance}
    → Used names attributes i
    → IsDict i.initial
unfolding construct set_attribute save
Used-IsDict {names} {attributes} constructed = remember-IsDict names attributes [] tt
Used-IsDict {names} {attributes} (assigned {i} k v u) =
    let h = Used-IsDict u in
    elim (mem k names && is_none (get_item k i.initial))
      as (λ b. IsDict (if b then set_item k v i.initial else i.initial)) [
        | true ↦ set_item-IsDict k v i.initial h
        | false ↦ h
      ]
Used-IsDict {names} {attributes} (saved {i} u) =
    remember-IsDict names i.attributes i.initial (Used-IsDict u)

-- Items that are all found in a state.
abbrev AllIn : Files → Files → Type 0
AllIn state [] = Unit
AllIn state ((k, v) ∷ items) = (get_item k state ≡ some v) × AllIn state items

AllIn-cons :
    (k : ℕ) (v : Text) (d items : Files)
    → get_item k d ≡ none
    → AllIn d items
    → AllIn ((k, v) ∷ d) items
AllIn-cons k v d [] fresh h = tt
AllIn-cons k v d ((j, w) ∷ items) fresh h =
    (ground (arith, h.0, fresh, eq_of_== k j), AllIn-cons k v d items fresh h.1)

AllIn-self : (d : Files) → IsDict d → AllIn d d
AllIn-self [] h = tt
AllIn-self ((k, v) ∷ d) h = (ground (arith, ==_refl k), AllIn-cons k v d d h.0 (AllIn-self d h.1))

dirty_items-AllIn : (state items : Files) → AllIn state items → dirty_items state items ≡ []
dirty_items-AllIn state [] h = refl
dirty_items-AllIn state ((k, v) ∷ items) h =
    ground (arith, h.0, text_eq_refl v, dirty_items-AllIn state items h.1)

-- Saving an instance deletes no file, whatever was assigned to its file fields before.
pub save-deletes_none :
    {names : List ℕ} {attributes : Files} (i : Instance)
    → Used names attributes i
    → (save names i).0 ≡ []
unfolding save get_dirty_file_fields
save-deletes_none i u =
    rw (dirty_items-AllIn i.initial i.initial (AllIn-self i.initial (Used-IsDict u))) refl
