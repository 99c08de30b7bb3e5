-- ===== src/Service/Creation/Scoped.antt =====
-- What the rows that a creation leaves satisfy.
use totem_backend.Base.{Bool, true, ◌&&◌, not, List, [], ◌∷◌, ◌==◌, any}
use totem_backend.Service.Relations.{Record}
use totem_backend.Service.Creation.{Service}

abbrev pub unique_rows : List Record → Bool
unique_rows [] = true
unique_rows (r ∷ rows) = not (any (λ (s : Record). s.pk == r.pk) rows) && unique_rows rows
