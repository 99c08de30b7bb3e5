-- ===== src/Service/Resequence/Tests.antt =====
-- The second page of a list, three rows of which one is out of reach.
use totem_backend.Base.{ℕ, suc, ◌+◌, ◌≡◌, refl, false, not, some, List, [], ◌∷◌, ◌==◌, length}
use totem_backend.Service.Resequence.{SequencedRow, SequencedStore, Numbering, numbered, resequence}
use totem_backend.Service.Resequence.Complete.{is_numbered, stands_again, resequence_refused}
use totem_backend.Service.Resequence.Numbered.{number_at, get_elem?, resequence_numbers}

abbrev tracks : Numbering ℕ
tracks = record {
  to_python = λ v. some v;
  is_updatable = λ r. not (r.pk == 9);
  stamped = λ r. 30;
  refreshed = λ pks rows r. r.content;
  repeated_message = λ pks. 1;
  invalid_message = λ values pks. 2;
}

abbrev two_tracks : List ℕ
two_tracks = 8 ∷ 7 ∷ []

abbrev row : ℕ → ℕ → SequencedRow
row pk sequence = record { pk = pk; sequence = some sequence; content = 0 }

abbrev three_rows : SequencedStore
three_rows = record { rows = row 7 1 ∷ row 8 2 ∷ row 9 3 ∷ []; marked = [] }

resequence_refused_example :
    (is_numbered (resequence tracks (8 ∷ 9 ∷ []) 20 three_rows).0 ≡ false)
    × ((resequence tracks (8 ∷ 9 ∷ []) 20 three_rows).1 ≡ three_rows)
resequence_refused_example = resequence_refused tracks (8 ∷ 9 ∷ []) 20 three_rows refl

resequence_numbers_example :
    ((resequence tracks two_tracks 20 three_rows).0 ≡ numbered (length two_tracks))
    × ((i v : ℕ)
        → get_elem? two_tracks i ≡ some v
        → (pk : ℕ) × (tracks.to_python v ≡ some pk)
          × (number_at pk (resequence tracks two_tracks 20 three_rows).1.rows
              ≡ some (some (suc (20 + i)))))
    × ((k : ℕ)
        → stands_again tracks k two_tracks ≡ false
        → number_at k (resequence tracks two_tracks 20 three_rows).1.rows
          ≡ number_at k three_rows.rows)
resequence_numbers_example = resequence_numbers tracks two_tracks 20 three_rows refl refl
