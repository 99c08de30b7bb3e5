-- ===== src/Base/Repeats.antt =====
-- Repeated elements: `l.count(x)`, `{x for x in l if l.count(x) > 1}`, and lists without them, for
-- elements with a test of equality.
use Prim.Native.Nat.{ℕ, suc}
use mathlib.Core.Path.{◌≡◌, refl, sym, ap, subst, ◌∙◌}
use mathlib.Core.Logic.{inl, inr}
use mathlib.Core.Bool.{Bool, true, false, not, ◌&&◌, ◌||◌}
use mathlib.Core.List.{List, [], ◌∷◌, ◌++◌}
use native.Mathlib.Omega.{arith}
use totem_backend.Base.Tests.{◌==◌, eq_of_==, if◌then◌else◌, ltb, Bool-cases}
use totem_backend.Base.Lists.{filter, all, mem}

abbrev pub is_empty {ℓ} : {A : Type ℓ} → List A → Bool
is_empty [] = true
is_empty (x ∷ xs) = false

pub is_empty-append {ℓ} :
    {A : Type ℓ} (xs ys : List A) → is_empty (xs ++ ys) ≡ (is_empty xs && is_empty ys)
is_empty-append [] ys = refl
is_empty-append (x ∷ xs) ys = refl

module _ {A : Type 0} (eq : A → A → Bool) where
  abbrev pub has : A → List A → Bool
  has k [] = false
  has k (x ∷ xs) = eq x k || has k xs

  abbrev pub count : A → List A → ℕ
  count k [] = 0
  count k (x ∷ xs) = let rest = count k xs in if eq x k then suc rest else rest

  abbrev pub distinct : List A → Bool
  distinct [] = true
  distinct (x ∷ xs) = not (has x xs) && distinct xs

  -- `set(l)`
  abbrev pub dedup : List A → List A
  dedup [] = []
  dedup (x ∷ xs) = let rest = dedup xs in if has x xs then rest else x ∷ rest

  -- `{x for x in l if l.count(x) > 1}`
  abbrev pub repeated : List A → List A
  repeated l = dedup (filter (λ x. ltb 1 (count x l)) l)

  is_empty-dedup : (l : List A) → is_empty (dedup l) ≡ is_empty l
  is_empty-dedup [] = refl
  is_empty-dedup (x ∷ []) = refl
  is_empty-dedup (x ∷ y ∷ l) = ground (arith, is_empty-dedup (y ∷ l))

  count-has : (k : A) (l : List A) → has k l ≡ false → count k l ≡ 0
  count-has k [] h = refl
  count-has k (x ∷ xs) h = ground (arith, h, count-has k xs)

  has-count : (k : A) (l : List A) → count k l ≡ 0 → has k l ≡ false
  has-count k [] h = refl
  has-count k (x ∷ xs) h = ground (arith, h, has-count k xs)

  filter_none : (p : A → Bool) (l : List A) → ((k : A) → p k ≡ false) → is_empty (filter p l) ≡ true
  filter_none p [] h = refl
  filter_none p (x ∷ xs) h = ground (arith, h x, filter_none p xs h)

  module _ (eq_refl : (x : A) → eq x x ≡ true) (eq_sound : (x y : A) → eq x y ≡ true → x ≡ y) where
    count-distinct : (l : List A) → distinct l ≡ true → (k : A) → ltb 1 (count k l) ≡ false
    count-distinct [] h k = refl
    count-distinct (x ∷ xs) h k = elim (Bool-cases (eq x k)) [
      | inl p ↦
          let fresh = subst (λ y. has y xs ≡ false) (eq_sound x k p) (ground (arith, h)) in
          ground (arith, p, fresh, count-has k xs)
      | inr p ↦ ground (arith, p, h, count-distinct xs (ground (arith, h)) k)
    ]

    filter-is_empty :
        (p : A → Bool) (l : List A) (k : A)
        → is_empty (filter p l) ≡ true
        → has k l ≡ true
        → p k ≡ false
    filter-is_empty p [] k e h = absurd (ground (arith, h))
    filter-is_empty p (x ∷ xs) k e h = elim (Bool-cases (p x)) [
      | inl q ↦ absurd (ground (arith, q, e))
      | inr q ↦ elim (Bool-cases (eq x k)) [
        | inl same ↦ rw (sym (eq_sound x k same)) q
        | inr other ↦ filter-is_empty p xs k (ground (arith, q, e)) (ground (arith, other, h))
      ]
    ]

    distinct-count :
        (l : List A) → ((k : A) → has k l ≡ true → ltb 1 (count k l) ≡ false) → distinct l ≡ true
    distinct-count [] h = refl
    distinct-count (x ∷ xs) h =
        let here = h x (ground (arith, eq_refl x)) in
        let rest =
          distinct-count xs (λ k m. let at = h k (ground (arith, m)) in ground (arith, at)) in
        ground (arith, rest, here, eq_refl x, has-count x xs)

    -- Nothing is repeated in a list exactly if each of its elements is another.
    pub is_empty-repeated : (l : List A) → is_empty (repeated l) ≡ distinct l
    is_empty-repeated l =
        is_empty-dedup (filter (λ x. ltb 1 (count x l)) l) ∙ elim (Bool-cases (distinct l)) [
          | inl d ↦ filter_none (λ x. ltb 1 (count x l)) l (count-distinct l d) ∙ sym d
          | inr d ↦ elim (Bool-cases (is_empty (filter (λ x. ltb 1 (count x l)) l))) [
            | inl e ↦ absurd (
                ground (
                  arith,
                  d,
                  distinct-count l (λ k m. filter-is_empty (λ x. ltb 1 (count x l)) l k e m),
                ))
            | inr e ↦ e ∙ sym d
          ]
        ]

    pub has-append : (k : A) (xs ys : List A) → has k (xs ++ ys) ≡ (has k xs || has k ys)
    has-append k [] ys = refl
    has-append k (x ∷ xs) ys = ground (arith, has-append k xs ys)

    pub has-filter : (k : A) (p : A → Bool) (l : List A) → has k (filter p l) ≡ (has k l && p k)
    has-filter k p [] = refl
    has-filter k p (x ∷ xs) = elim (Bool-cases (eq x k)) [
      | inl e ↦ let same = ap p (eq_sound x k e) in ground (arith, e, same, has-filter k p xs)
      | inr e ↦ ground (arith, e, has-filter k p xs)
    ]

    pub distinct-filter :
        (p : A → Bool) (l : List A) → distinct l ≡ true → distinct (filter p l) ≡ true
    distinct-filter p [] d = refl
    distinct-filter p (x ∷ xs) d =
        ground (arith, d, has-filter x p xs, distinct-filter p xs (ground (arith, d)))

    pub distinct-append :
        (xs ys : List A)
        → distinct xs ≡ true
        → distinct ys ≡ true
        → ((k : A) → has k xs ≡ true → has k ys ≡ false)
        → distinct (xs ++ ys) ≡ true
    distinct-append [] ys d e apart = e
    distinct-append (x ∷ xs) ys d e apart =
        let rest =
          distinct-append xs ys (ground (arith, d)) e (λ k m. apart k (ground (arith, m))) in
        ground (arith, d, rest, has-append x xs ys, apart x (ground (arith, eq_refl x)))

    pub all-has : (p : A → Bool) (k : A) (l : List A) → all p l ≡ true → has k l ≡ true → p k ≡ true
    all-has p k [] a h = absurd (ground (arith, h))
    all-has p k (x ∷ xs) a h = elim (Bool-cases (eq x k)) [
      | inl e ↦ ground (arith, a, ap p (eq_sound x k e))
      | inr e ↦ all-has p k xs (ground (arith, a)) (ground (arith, e, h))
    ]

pub mem-has : (k : ℕ) (l : List ℕ) → mem k l ≡ has ◌==◌ k l
mem-has k [] = refl
mem-has k (x ∷ xs) = ground (arith, mem-has k xs)

pub mem-filter : (k : ℕ) (p : ℕ → Bool) (l : List ℕ) → mem k (filter p l) ≡ (mem k l && p k)
mem-filter k p [] = refl
mem-filter k p (x ∷ xs) = elim (Bool-cases (k == x)) [
  | inl e ↦ ground (arith, e, ap p (eq_of_== k x e), mem-filter k p xs)
  | inr e ↦ ground (arith, e, mem-filter k p xs)
]
