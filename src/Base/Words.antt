-- ===== src/Base/Words.antt =====
-- Python's `" ".join(words)` and `text.split()` (no argument: runs of white space separate).
use totem_backend.Base.Tests.{◌==◌, leb, if◌then◌else◌}
use totem_backend.Base.Lists.{All}
use totem_backend.Base.Text.{Text}
use mathlib.Core.Path.{◌≡◌, refl, ap, ◌∙◌}
use mathlib.Core.Bool.{Bool, true, false, ◌&&◌, ◌||◌}
use mathlib.Core.List.{List, [], ◌∷◌, ◌++◌}
use mathlib.Core.List.{append-nil}
use Prim.Native.Nat.{ℕ}
use native.Mathlib.Omega.{arith}

-- `str.isspace` of one character: what `split()` cuts at.
unfoldable pub is_space : ℕ → Bool
is_space c =
    (leb 9 c && leb c 13)
    || (leb 28 c && leb c 32)
    || c == 133
    || c == 160
    || c == 5760
    || (leb 8192 c && leb c 8202)
    || (leb 8232 c && leb c 8233)
    || c == 8239
    || c == 8287
    || c == 12288

-- `" ".join(words)`
unfoldable pub join_words : List Text → Text
join_words [] = []
join_words (w ∷ []) = w
join_words (w ∷ v ∷ ws) = w ++ (32 ∷ join_words (v ∷ ws))

-- Whether a text goes on with the word that a character before it is part of.
abbrev begins_word : Text → Bool
begins_word [] = false
begins_word (c ∷ s) = if is_space c then false else true

abbrev onto_head : ℕ → List Text → List Text
onto_head c [] = (c ∷ []) ∷ []
onto_head c (w ∷ ws) = (c ∷ w) ∷ ws

-- `text.split()`
unfoldable pub split_words : Text → List Text
split_words [] = []
split_words (c ∷ s) =
    let ws = split_words s in
    if is_space c then ws else if begins_word s then onto_head c ws else (c ∷ []) ∷ ws

abbrev pub NoSpace : Text → Type 0
NoSpace [] = Unit
NoSpace (c ∷ s) = (is_space c ≡ false) × NoSpace s

-- A text that is one word: not empty, no white space in it.
abbrev pub IsWord : Text → Type 0
IsWord [] = ⊥
IsWord (c ∷ s) = (is_space c ≡ false) × NoSpace s

-- What may follow a word that is complete.
abbrev EndsWord : Text → Type 0
EndsWord s = begins_word s ≡ false

split_words-word :
    (c : ℕ) (w rest : Text)
    → is_space c ≡ false
    → NoSpace w
    → EndsWord rest
    → split_words ((c ∷ w) ++ rest) ≡ (c ∷ w) ∷ split_words rest
unfolding split_words
split_words-word c [] rest hc hw he = ground arith
split_words-word c (d ∷ w) rest hc hw he = ground (arith, split_words-word d w rest hw.0 hw.1 he)

-- The space that `join_words` puts is where the next word begins.
split_words-space : (s : Text) → split_words (32 ∷ s) ≡ split_words s
unfolding split_words is_space
split_words-space s = refl

-- Splitting what was joined gives the words back.
pub split_words-join_words : (ws : List Text) → All IsWord ws → split_words (join_words ws) ≡ ws
unfolding join_words
split_words-join_words [] h = unfold split_words in refl
split_words-join_words ([] ∷ ws) h = absurd h.0
split_words-join_words ((c ∷ w) ∷ []) h =
    rw (← append-nil (c ∷ w))
      (split_words-word c w [] h.0.0 h.0.1 refl ∙ unfold split_words in rw append-nil)
split_words-join_words ((c ∷ w) ∷ v ∷ ws) h =
    split_words-word c w (32 ∷ join_words (v ∷ ws)) h.0.0 h.0.1 (unfold is_space in refl)
    ∙ ap (λ l. (c ∷ w) ∷ l)
        (split_words-space (join_words (v ∷ ws)) ∙ split_words-join_words (v ∷ ws) h.1)
