-- ===== src/Base/Ascending.antt =====
-- `sorted(set(…))`: the strictly ascending list of the members, and the only such list.
use totem_backend.Base.Lists.{All}
use totem_backend.Base.Text.{
  Text, text_eq, text_le, text_eq_refl, eq_of_text_eq, text_le_total, text_le_trans,
  text_le_antisymm,
}
use totem_backend.Base.Sorting.{text_mem, text_union, insert_sorted, sorted, text_mem-sorted}
use mathlib.Core.Path.{◌≡◌, refl, sym, ap, ap₂, ◌∙◌}
use mathlib.Core.Bool.{Bool, true, false, ◌&&◌, not}
use mathlib.Core.List.{List, [], ◌∷◌}
use native.Mathlib.Omega.{arith}

-- `s < t`
abbrev pub text_lt : Text → Text → Bool
text_lt s t = text_le s t && not (text_eq s t)

abbrev pub IsAscending : List Text → Type 0
IsAscending [] = Unit
IsAscending (s ∷ l) = All (λ t. text_lt s t ≡ true) l × IsAscending l

-- No text is listed twice.
abbrev pub IsDistinct : List Text → Type 0
IsDistinct [] = Unit
IsDistinct (s ∷ l) = (text_mem s l ≡ false) × IsDistinct l

pub text_union-IsDistinct : (l acc : List Text) → IsDistinct acc → IsDistinct (text_union l acc)
unfolding text_union
text_union-IsDistinct [] acc h = h
text_union-IsDistinct (s ∷ l) acc h = ground (arith, text_union-IsDistinct l acc h)

text_lt_trans : (s t u : Text) → text_lt s t ≡ true → text_lt t u ≡ true → text_lt s u ≡ true
text_lt_trans s t u h k =
    ground (arith, text_le_trans s t u, eq_of_text_eq s u, text_le_antisymm s t, text_eq_refl s)

lt-All :
    (s t : Text) (l : List Text)
    → text_lt s t ≡ true
    → All (λ u. text_lt t u ≡ true) l
    → All (λ u. text_lt s u ≡ true) l
lt-All s t [] h k = tt
lt-All s t (u ∷ l) h k = (text_lt_trans s t u h k.0, lt-All s t l h k.1)

insert_sorted-All :
    (x s : Text) (l : List Text)
    → text_lt x s ≡ true
    → All (λ u. text_lt x u ≡ true) l
    → All (λ u. text_lt x u ≡ true) (insert_sorted s l)
unfolding insert_sorted
insert_sorted-All x s [] h k = (h, tt)
insert_sorted-All x s (t ∷ l) h k = ground (arith, insert_sorted-All x s l h k.1)

insert_sorted-IsAscending :
    (s : Text) (l : List Text)
    → text_mem s l ≡ false
    → IsAscending l
    → IsAscending (insert_sorted s l)
unfolding insert_sorted
insert_sorted-IsAscending s [] h k = (tt, tt)
insert_sorted-IsAscending s (t ∷ l) h k = ground (
  arith,
  insert_sorted-IsAscending s l,
  insert_sorted-All t s l,
  lt-All s t l,
  text_le_total s t,
  text_eq_refl s,
  eq_of_text_eq t s,
)

pub sorted-IsAscending : (l : List Text) → IsDistinct l → IsAscending (sorted l)
unfolding sorted
sorted-IsAscending [] h = tt
sorted-IsAscending (s ∷ l) h =
    insert_sorted-IsAscending s (sorted l) (text_mem-sorted s l ∙ h.0) (sorted-IsAscending l h.1)

-- A text below every member is no member.
below-text_mem : (s : Text) (l : List Text) → All (λ u. text_lt s u ≡ true) l → text_mem s l ≡ false
below-text_mem s [] h = refl
below-text_mem s (t ∷ l) h = ground (arith, below-text_mem s l h.1)

lt_of_mem :
    (s t : Text) (m : List Text)
    → All (λ u. text_lt t u ≡ true) m
    → text_mem s m ≡ true
    → text_lt t s ≡ true
lt_of_mem s t [] h p = cc
lt_of_mem s t (u ∷ m) h p = ground (arith, lt_of_mem s t m h.1, eq_of_text_eq s u, h.0)

-- The head of one of two ascending lists with the same members is the head of the other.
heads_eq :
    (s t : Text) (l m : List Text)
    → All (λ u. text_lt s u ≡ true) l
    → All (λ u. text_lt t u ≡ true) m
    → text_mem s (t ∷ m) ≡ true
    → text_mem t (s ∷ l) ≡ true
    → s ≡ t
heads_eq s t l m hl hm p q = ground (
  arith,
  lt_of_mem s t m hm,
  lt_of_mem t s l hl,
  eq_of_text_eq s t,
  eq_of_text_eq t s,
  text_le_antisymm s t,
)

tails_eq :
    (k s : Text) (l m : List Text)
    → All (λ u. text_lt s u ≡ true) l
    → All (λ u. text_lt s u ≡ true) m
    → text_mem k (s ∷ l) ≡ text_mem k (s ∷ m)
    → text_mem k l ≡ text_mem k m
tails_eq k s l m hl hm e =
    ground (arith, eq_of_text_eq k s, below-text_mem s l hl, below-text_mem s m hm)

-- Two ascending lists with the same members are the same list.
pub IsAscending-unique :
    (l m : List Text)
    → IsAscending l
    → IsAscending m
    → ((s : Text) → text_mem s l ≡ text_mem s m)
    → l ≡ m
IsAscending-unique [] [] hl hm e = refl
IsAscending-unique [] (t ∷ m) hl hm e = ground (arith, e t, text_eq_refl t)
IsAscending-unique (s ∷ l) [] hl hm e = ground (arith, e s, text_eq_refl s)
IsAscending-unique (s ∷ l) (t ∷ m) hl hm e =
    ap₂ ◌∷◌ same (IsAscending-unique l m hl.1 hm.1 (λ k. tails_eq k s l m hl.0 below (tail_mem k)))
  where
    same : s ≡ t
    same = heads_eq s t l m hl.0 hm.0 (sym (e s) ∙ rw text_eq_refl) (e t ∙ rw text_eq_refl)

    below : All (λ u. text_lt s u ≡ true) m
    below = rw same hm.0

    tail_mem : (k : Text) → text_mem k (s ∷ l) ≡ text_mem k (s ∷ m)
    tail_mem k = e k ∙ ap (λ x. text_mem k (x ∷ m)) (sym same)
