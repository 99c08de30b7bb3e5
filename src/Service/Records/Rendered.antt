-- ===== src/Service/Records/Rendered.antt =====
-- What the groups hold after their relations are resolved.
use totem_backend.Base.{ℕ}
use totem_backend.Base.Text.{Text}
use totem_backend.Service.Relations.{Backend}
use totem_backend.Service.Records.{Cell, empty_cell, bare, rendered_record, or_bare}
use totem_backend.Service.Records.Found.{readable_at}

module _ {M : Type 0} (backend : Backend M) where
  open backend use {to_python}

  -- What a cell becomes.
  abbrev pub shown : ℕ → Cell → Cell
  shown model empty_cell = empty_cell
  shown model (bare pk) = or_bare pk (readable_at backend model pk)
  shown model (rendered_record r) = rendered_record r
