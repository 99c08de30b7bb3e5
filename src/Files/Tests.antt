-- ===== src/Files/Tests.antt =====
-- An instance of src/base/models/mixins.py whose file is replaced.
use totem_backend.Base.{◌≡◌, [], ◌∷◌}
use totem_backend.Base.Text.{codes}
use totem_backend.Files.{Files, Instance, construct, set_attribute, save}
use totem_backend.Files.Saved.{Used, save-deletes_none}

abbrev with_avatar : Files
with_avatar = (1, codes "old") ∷ []

abbrev replaced : Instance
replaced = set_attribute (1 ∷ []) 1 (codes "new") (construct (1 ∷ []) with_avatar)

save-deletes_none_example : (save (1 ∷ []) replaced).0 ≡ []
save-deletes_none_example =
    save-deletes_none {names = 1 ∷ []} {attributes = with_avatar} replaced
      (Used.assigned 1 (codes "new") Used.constructed)
