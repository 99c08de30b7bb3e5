-- ===== src/Service/Links/Created.antt =====
-- The links that an update of a relation creates.
use totem_backend.Base.{
  ℕ, suc, ◌≡◌, refl, Bool, true, false, ◌&&◌, ◌||◌, not, List, [], ◌∷◌, ◌++◌, ◌==◌, mem, In, head,
  tail, arith, ==_refl, eq_of_==, Bool-cases, Option-cases, inl, inr, ◌⊎◌, ap, ◌∙◌, sym, subst,
}
use totem_backend.Base.Repeats.{has, distinct, mem-has, has-append, distinct-append}
use totem_backend.Service.Links.{
  Link, Through, linked, existing_id, created_from, relations_to_create,
}
use totem_backend.Service.Links.Kept.{IsThrough, is_none-existing_id, In-linked}

abbrev pub pair_eq : ℕ × ℕ → ℕ × ℕ → Bool
pair_eq (a, b) (c, d) = a == c && b == d

pair_eq_refl : (x : ℕ × ℕ) → pair_eq x x ≡ true
pair_eq_refl (a, b) = ground (arith, ==_refl a, ==_refl b)

eq_of_pair_eq : (x y : ℕ × ℕ) → pair_eq x y ≡ true → x ≡ y
eq_of_pair_eq (a, b) (c, d) h = ground (arith, h, eq_of_== a c, eq_of_== b d)

has-created_from :
    (existing : List Link) (pk : ℕ) (value : List ℕ) (s d : ℕ)
    → has pair_eq (s, d) (created_from existing pk value)
      ≡ (pk == s && (mem d value && not (linked pk d existing)))
has-created_from existing pk [] s d = ground arith
has-created_from existing pk (v ∷ value) s d = elim (Option-cases (existing_id pk v existing)) [
  | inl p ↦ elim (Bool-cases (v == d)) [
    | inl e ↦
        let same = ap (λ k. linked pk k existing) (eq_of_== v d e) in
        ground (
          arith,
          p,
          e,
          same,
          is_none-existing_id pk v existing,
          has-created_from existing pk value s d,
        )
    | inr e ↦ ground (arith, p, e, has-created_from existing pk value s d)
  ]
  | inr (j, p) ↦ elim (Bool-cases (v == d)) [
    | inl e ↦
        let same = ap (λ k. linked pk k existing) (eq_of_== v d e) in
        ground (
          arith,
          p,
          e,
          same,
          is_none-existing_id pk v existing,
          has-created_from existing pk value s d,
        )
    | inr e ↦ ground (arith, p, e, has-created_from existing pk value s d)
  ]
]

distinct-created_from :
    (existing : List Link) (pk : ℕ) (value : List ℕ)
    → distinct ◌==◌ value ≡ true
    → distinct pair_eq (created_from existing pk value) ≡ true
distinct-created_from existing pk [] h = refl
distinct-created_from existing pk (v ∷ value) h =
    let rest = distinct-created_from existing pk value (ground (arith, h)) in
    elim (Option-cases (existing_id pk v existing)) [
      | inl p ↦ ground (arith, p, h, rest, has-created_from existing pk value pk v, mem-has v value)
      | inr (j, p) ↦ ground (arith, p, rest)
    ]

pub has-relations_to_create :
    (existing : List Link) (pks value : List ℕ) (s d : ℕ)
    → has pair_eq (s, d) (relations_to_create existing pks value)
      ≡ (mem s pks && (mem d value && not (linked s d existing)))
has-relations_to_create existing [] value s d = ground arith
has-relations_to_create existing (pk ∷ pks) value s d =
    has-append pair_eq pair_eq_refl eq_of_pair_eq (s, d) (created_from existing pk value)
      (relations_to_create existing pks value)
    ∙ elim (Bool-cases (pk == s)) [
      | inl e ↦
          let same = ap (λ k. linked k d existing) (eq_of_== pk s e) in
          ground (
            arith,
            e,
            same,
            has-created_from existing pk value s d,
            has-relations_to_create existing pks value s d,
          )
      | inr e ↦ ground (
        arith,
        e,
        has-created_from existing pk value s d,
        has-relations_to_create existing pks value s d,
      )
    ]

pub distinct-relations_to_create :
    (existing : List Link) (pks value : List ℕ)
    → distinct ◌==◌ pks ≡ true
    → distinct ◌==◌ value ≡ true
    → distinct pair_eq (relations_to_create existing pks value) ≡ true
distinct-relations_to_create existing [] value h w = refl
distinct-relations_to_create existing (pk ∷ pks) value h w =
    distinct-append pair_eq pair_eq_refl eq_of_pair_eq (created_from existing pk value)
      (relations_to_create existing pks value) (distinct-created_from existing pk value w)
      (distinct-relations_to_create existing pks value (ground (arith, h)) w)
      (λ (s, d) m.
        let from : pk ≡ s =
          eq_of_== pk s (ground (arith, m, has-created_from existing pk value s d)) in
        has-relations_to_create existing pks value s d
        ∙ rw (sym from) (ground (arith, h, mem-has pk pks)))

In-snoc : {A : Type 0} (xs : List A) (x : A) {a : A} → In a (xs ++ x ∷ []) → In a xs ⊎ (x ≡ a)
In-snoc [] x (head e) = inr e
In-snoc [] x (tail m) = elim m [ ]
In-snoc (y ∷ xs) x (head e) = inl (head e)
In-snoc (y ∷ xs) x (tail m) = elim (In-snoc xs x m) [ inl t ↦ inl (tail t) | inr e ↦ inr e ]

pub In-append : {A : Type 0} (xs ys : List A) {a : A} → In a xs → In a (xs ++ ys)
In-append [] ys m = elim m [ ]
In-append (x ∷ xs) ys (head e) = head e
In-append (x ∷ xs) ys (tail m) = tail (In-append xs ys m)

pub linked-append :
    (s d : ℕ) (xs ys : List Link) → linked s d (xs ++ ys) ≡ (linked s d xs || linked s d ys)
linked-append s d [] ys = refl
linked-append s d (x ∷ xs) ys = ground (arith, linked-append s d xs ys)

abbrev pub with_link : ℕ → ℕ → Through → Through
with_link s d through = record {
  links = through.links ++ record { id = through.next_id; src = s; dst = d } ∷ [];
  next_id = suc through.next_id;
}

pub with_link-IsThrough :
    (s d : ℕ) (through : Through)
    → IsThrough through
    → linked s d through.links ≡ false
    → IsThrough (with_link s d through)
with_link-IsThrough s d through table free = record {
  unique_ids = λ l m a b e. elim (In-snoc through.links _ a) [
    | inl x ↦ elim (In-snoc through.links _ b) [
      | inl y ↦ table.unique_ids l m x y e
      | inr y ↦ absurd (ground (arith, table.below l x, ap (λ (k : Link). k.id) y, e))
    ]
    | inr x ↦ elim (In-snoc through.links _ b) [
      | inl y ↦ absurd (ground (arith, table.below m y, ap (λ (k : Link). k.id) x, e))
      | inr y ↦ sym x ∙ y
    ]
  ];
  unique_pairs = λ l m a b e f. elim (In-snoc through.links _ a) [
    | inl x ↦ elim (In-snoc through.links _ b) [
      | inl y ↦ table.unique_pairs l m x y e f
      | inr y ↦
          absurd (
            clash l x (e ∙ sym (ap (λ (k : Link). k.src) y)) (f ∙ sym (ap (λ (k : Link). k.dst) y)))
    ]
    | inr x ↦ elim (In-snoc through.links _ b) [
      | inl y ↦ absurd (
          clash m y (sym e ∙ sym (ap (λ (k : Link). k.src) x))
            (sym f ∙ sym (ap (λ (k : Link). k.dst) x)))
      | inr y ↦ sym x ∙ y
    ]
  ];
  below = λ l a. elim (In-snoc through.links _ a) [
    | inl x ↦ ground (arith, table.below l x)
    | inr x ↦ ground (arith, ap (λ (k : Link). k.id) x)
  ];
}
  where
    clash : (l : Link) → In l through.links → l.src ≡ s → l.dst ≡ d → ⊥
    clash l m e f = ground (
      arith,
      free,
      subst (λ k. linked k d through.links ≡ true) e
          (subst (λ k. linked l.src k through.links ≡ true) f (In-linked l through.links m)),
    )
