-- ===== src/Service/Update/Relinks.antt =====
-- The links after an update.
use totem_backend.Base.{
  ℕ, ◌≡◌, refl, Bool, true, false, List, [], ◌∷◌, ◌==◌, mem, if◌then◌else◌, arith, ==_refl,
  eq_of_==, Bool-cases, inl, inr, ap, ◌∙◌, sym, subst,
}
use totem_backend.Base.Repeats.{has, distinct}
use totem_backend.Service.Relations.{Internal, InternalItem}
use totem_backend.Service.Links.{Through, linked}
use totem_backend.Service.Links.Kept.{IsThrough}
use totem_backend.Service.Links.Relinked.{IsCompatible, linked_after, relink-linked}
use totem_backend.Service.Creation.{written, linked_pks}
use totem_backend.Service.Update.{UpdateBackend, field_names, relink_all}

-- Each table of links is its own, and neither the columns nor the refresh context hold links.
pub record IsApart {M : Type 0} (backend : UpdateBackend M) : Type 0 where
  pub own :
      (k : ℕ) (links : Through) (t : backend.Tables)
      → backend.through k (backend.set_through k links t) ≡ links
  pub others :
      (j k : ℕ) (links : Through) (t : backend.Tables)
      → (k == j) ≡ false
      → backend.through j (backend.set_through k links t) ≡ backend.through j t
  pub columns_apart :
      (values : InternalItem) (t u : backend.Tables) (j : ℕ)
      → backend.update_columns values t ≡ written u
      → backend.through j u ≡ backend.through j t
  pub context_apart :
      (pks fields : List ℕ) (before : Bool) (t : backend.Tables) (j : ℕ)
      → backend.through j (backend.tell_modified pks fields before t) ≡ backend.through j t

-- The rows are linked to those of the value and to no other, and the links of the other rows stay.
abbrev pub IsRelinked : List ℕ → Internal → Through → Through → Type 0
IsRelinked pks v before after =
    (s d : ℕ)
    → linked s d after.links ≡ (if mem s pks then mem d (linked_pks v) else linked s d before.links)

module _ {M : Type 0} (backend : UpdateBackend M) (apart : IsApart backend) (pks : List ℕ) where
  open backend use {Tables, through, set_through, conflicts}

  -- What relinking needs: fields that are distinct, values that hold a row once, and links to be there
  -- of which none forbids another.
  abbrev pub CanRelink : InternalItem → Tables → Type 0
  CanRelink [] tables = Unit
  CanRelink ((k, v) ∷ values) tables =
      (has ◌==◌ k (field_names values) ≡ false)
      × (distinct ◌==◌ (linked_pks v) ≡ true)
      × IsCompatible (conflicts k) (linked_after pks (linked_pks v) (through k tables).links)
      × CanRelink values tables

  pub CanRelink-after :
      (values : InternalItem) (before after : Tables)
      → ((j : ℕ) → has ◌==◌ j (field_names values) ≡ true → through j before ≡ through j after)
      → CanRelink values before
      → CanRelink values after
  CanRelink-after [] before after same c = tt
  CanRelink-after ((k, v) ∷ values) before after same (fresh, once, fit, can) = (
    fresh,
    once,
    subst (λ (t : Through). IsCompatible (conflicts k) (linked_after pks (linked_pks v) t.links))
        (same k (ground (arith, ==_refl k))) fit,
    CanRelink-after values before after (λ j h. same j (ground (arith, h))) can,
  )

  abbrev pub AreRelinked : InternalItem → Tables → Tables → Type 0
  AreRelinked [] before after = Unit
  AreRelinked ((k, v) ∷ values) before after =
      IsRelinked pks v (through k before) (through k after) × AreRelinked values before after

  -- The tables whose links are the same, for some fields, as to what they are relinked from.
  pub AreRelinked-before :
      (values : InternalItem) (before before' after : Tables)
      → ((j : ℕ) → has ◌==◌ j (field_names values) ≡ true → through j before' ≡ through j before)
      → AreRelinked values before' after
      → AreRelinked values before after
  AreRelinked-before [] before before' after same r = tt
  AreRelinked-before ((k, v) ∷ values) before before' after same (r, rest) = (
    subst (λ t. IsRelinked pks v t (through k after)) (same k (ground (arith, ==_refl k))) r,
    AreRelinked-before values before before' after (λ j h. same j (ground (arith, h))) rest,
  )

  pub relink_all-AreRelinked :
      (values : InternalItem) (tables : Tables)
      → distinct ◌==◌ pks ≡ true
      → CanRelink values tables
      → ((k : ℕ) → IsThrough (through k tables))
      → (after : Tables) × (relink_all backend pks values tables ≡ written after)
        × AreRelinked values tables after
        × ((j : ℕ) → has ◌==◌ j (field_names values) ≡ false → through j after ≡ through j tables)
  relink_all-AreRelinked [] tables d can table = (tables, refl, tt, λ j h. refl)
  relink_all-AreRelinked ((k, v) ∷ values) tables d (fresh, once, fit, can) table =
      let (links, run, good, joined, kept) =
        relink-linked (through k tables) pks (linked_pks v) (table k) (conflicts k) d once fit in
      let next = set_through k links tables in
      let (after, done, rest, same) =
        relink_all-AreRelinked values next d
          (CanRelink-after values tables next
            (λ j h.
              sym (apart.others j k links tables (other_field k j (field_names values) fresh h)))
            can)
          (λ j. elim (Bool-cases (k == j)) [
            | inl e ↦
                subst IsThrough
                  (sym (apart.own k links tables) ∙ ap (λ i. through i next) (eq_of_== k j e)) good
            | inr e ↦ subst IsThrough (sym (apart.others j k links tables e)) (table j)
          ]) in
      (
        after,
        rw (run) done,
        (
          subst (λ t. IsRelinked pks v (through k tables) t)
              (sym (same k fresh ∙ apart.own k links tables)) joined,
          AreRelinked-before values tables next after
              (λ j h. apart.others j k links tables (other_field k j (field_names values) fresh h))
              rest,
        ),
        λ j h. same j (ground (arith, h)) ∙ apart.others j k links tables (ground (arith, h)),
      )
    where
      other_field :
          (k j : ℕ) (names : List ℕ)
          → has ◌==◌ k names ≡ false
          → has ◌==◌ j names ≡ true
          → (k == j) ≡ false
      other_field k j names f h = elim (Bool-cases (k == j)) [
        | inl e ↦
            absurd
              (ground (arith, f, subst (λ i. has ◌==◌ i names ≡ true) (sym (eq_of_== k j e)) h))
        | inr e ↦ e
      ]
