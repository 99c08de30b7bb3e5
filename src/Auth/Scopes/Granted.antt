-- ===== src/Auth/Scopes/Granted.antt =====
-- What a user's scopes are: exactly what their roles grant, in one canonical order, and the same
-- after the trip through the scope claim of an access token.
use totem_backend.Base.{
  ◌≡◌, ◌↔◌, sym, all, refl, ◌∙◌, Bool, true, false, ◌||◌, List, [], ◌∷◌, arith, All,
}
use totem_backend.Base.Text.{Text, eq_of_text_eq, text_eq_refl}
use totem_backend.Base.Sorting.{text_mem, text_union, text_mem-union, text_mem-sorted}
use totem_backend.Base.Ascending.{
  IsDistinct, IsAscending, text_union-IsDistinct, sorted-IsAscending, IsAscending-unique,
}
use totem_backend.Base.Words.{IsWord, join_words, split_words, split_words-join_words}
use totem_backend.Auth.Scopes.{Roles, or_empty, collect, get_user_scopes, has_scopes, token_scopes}

-- Some role of the list has the permission.
abbrev pub grants : Text → Roles → Bool
grants s [] = false
grants s (r ∷ rs) = text_mem s (or_empty r) || grants s rs

text_mem-collect :
    (s : Text) (acc : List Text) (rs : Roles)
    → text_mem s (collect acc rs) ≡ (text_mem s acc || grants s rs)
text_mem-collect s acc [] = ground arith
text_mem-collect s acc (r ∷ rs) =
    ground (
      arith,
      text_mem-collect s (text_union (or_empty r) acc) rs,
      text_mem-union s (or_empty r) acc,
    )

collect-IsDistinct : (acc : List Text) (rs : Roles) → IsDistinct acc → IsDistinct (collect acc rs)
collect-IsDistinct acc [] h = h
collect-IsDistinct acc (r ∷ rs) h =
    collect-IsDistinct (text_union (or_empty r) acc) rs (text_union-IsDistinct (or_empty r) acc h)

-- A scope is among a user's scopes exactly when some role of the user grants it.
pub text_mem-get_user_scopes :
    (s : Text) (roles : Roles) → text_mem s (get_user_scopes roles) ≡ grants s roles
unfolding get_user_scopes
text_mem-get_user_scopes s roles =
    text_mem-sorted s (collect [] roles) ∙ text_mem-collect s [] roles

get_user_scopes-IsAscending : (roles : Roles) → IsAscending (get_user_scopes roles)
unfolding get_user_scopes
get_user_scopes-IsAscending roles =
    sorted-IsAscending (collect [] roles) (collect-IsDistinct [] roles tt)

-- The list of scopes is strictly ascending, and depends only on which permissions the roles grant:
-- two lists of roles that grant the same permissions give the same list.
pub get_user_scopes_deterministic :
    (rs qs : Roles)
    → ((s : Text) → grants s rs ≡ grants s qs)
    → IsAscending (get_user_scopes rs) × (get_user_scopes rs ≡ get_user_scopes qs)
get_user_scopes_deterministic rs qs e = (
  get_user_scopes-IsAscending rs,
  IsAscending-unique (get_user_scopes rs) (get_user_scopes qs) (get_user_scopes-IsAscending rs)
      (get_user_scopes-IsAscending qs)
      (λ s. text_mem-get_user_scopes s rs ∙ e s ∙ sym (text_mem-get_user_scopes s qs)),
)

All-of_mem : (l : List Text) → ((s : Text) → text_mem s l ≡ true → IsWord s) → All IsWord l
All-of_mem [] h = tt
All-of_mem (s ∷ l) h = (h s (rw text_eq_refl), All-of_mem l (λ t m. h t (ground (arith, m))))

-- The scopes that a token carries, read back from its claim, are those that were joined into it.
pub text_mem-token_scopes :
    (s : Text) (l : List Text)
    → ((t : Text) → text_mem t l ≡ true → IsWord t)
    → text_mem s (token_scopes (join_words l)) ≡ text_mem s l
unfolding token_scopes
text_mem-token_scopes s l words =
    text_mem-union s (split_words (join_words l)) []
    ∙ rw (split_words-join_words l (All-of_mem l words)) (ground arith)

all-of_mem :
    (scopes l : List Text)
    → ((s : Text) → text_mem s l ≡ true → text_mem s scopes ≡ true)
    → all (λ r. text_mem r scopes) l ≡ true
all-of_mem scopes [] h = refl
all-of_mem scopes (r ∷ l) h =
    ground (arith, h r, text_eq_refl r, all-of_mem scopes l (λ s m. h s (ground arith)))

mem_of_all :
    (scopes l : List Text) (s : Text)
    → all (λ r. text_mem r scopes) l ≡ true
    → text_mem s l ≡ true
    → text_mem s scopes ≡ true
mem_of_all scopes [] s h m = cc
mem_of_all scopes (r ∷ l) s h m = ground (arith, mem_of_all scopes l s, eq_of_text_eq s r)

-- `has_scopes` is true exactly when every scope that is required was granted; no requirement at all
-- is granted too.
pub has_scopes_iff :
    (scopes required : List Text)
    → (has_scopes scopes required ≡ true)
      ↔ ((s : Text) → text_mem s required ≡ true → text_mem s scopes ≡ true)
unfolding has_scopes
has_scopes_iff scopes [] = (λ h s m. cc, λ h. refl)
has_scopes_iff scopes (r ∷ l) =
    (λ h s m. mem_of_all scopes (r ∷ l) s h m, λ h. all-of_mem scopes (r ∷ l) h)
