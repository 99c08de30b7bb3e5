-- ===== src/Tenancy/Names.antt =====
-- The texts that pass as names of databases.
use totem_backend.Base.{Bool, false, ◌&&◌, [], ◌∷◌, ◌==◌, leb, all, length, if◌then◌else◌}
use totem_backend.Base.Text.{Text}
use totem_backend.Tenancy.{is_name_start, is_name_char}

-- A lowercase identifier of at most 63 characters.
abbrev pub is_identifier : Text → Bool
is_identifier [] = false
is_identifier (c ∷ s) = is_name_start c && (leb (length s) 62 && all is_name_char s)

-- A text without the newline that ends it, if one does.
abbrev pub chomp : Text → Text
chomp [] = []
chomp (c ∷ []) = if c == 10 then [] else c ∷ []
chomp (c ∷ d ∷ s) = c ∷ chomp (d ∷ s)
