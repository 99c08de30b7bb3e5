-- ===== src/Tenancy/Pools.antt =====
-- The pools that a use of a connection leaves open.
use totem_backend.Base.{
  ℕ, ◌+◌, ◌<◌, ◌≡◌, Bool, true, false, ◌||◌, not, some, List, [], ◌∷◌, leb, ltb, filter,
  if◌then◌else◌, arith, In, head, tail, Bool-cases, inl, inr, subst, sym, ap, ◌∙◌,
}
use totem_backend.Base.Text.{Text, text_eq, text_eq_refl, eq_of_text_eq}
use totem_backend.Tenancy.{
  Pool, Handler, resolve, add_database, last_use, set_last_use, is_idle, evict_idle_pools, touch,
  connect, ensure_database, get_item,
}
use totem_backend.Tenancy.Aliases.{opened_parts}

filter-In {ℓ} :
    {A : Type ℓ} (p : A → Bool) (xs : List A) {x : A} → In x xs → p x ≡ true → In x (filter p xs)
filter-In p [] i e = elim i [ ]
filter-In p (y ∷ xs) {x} (head q) e = rw (ap p q ∙ e) (head q)
filter-In p (y ∷ xs) {x} (tail i) e =
    elim (p y) as (λ c. In x (if c then y ∷ filter p xs else filter p xs)) [
      | true ↦ tail (filter-In p xs i e)
      | false ↦ filter-In p xs i e
    ]

last_use-set_last_use :
    (alias : Text) (now : ℕ) (l : List (Text × ℕ))
    → last_use alias now (set_last_use alias now l) ≡ now
last_use-set_last_use alias now [] = ground (arith, text_eq_refl alias)
last_use-set_last_use alias now ((a, t) ∷ l) = ground (arith, last_use-set_last_use alias now l)

is_idle-set_last_use :
    (evict_after now : ℕ) (alias : Text) (l : List (Text × ℕ)) (p : Pool)
    → 0 < evict_after
    → (text_eq p.alias alias || ltb p.pool_available p.pool_size) ≡ true
    → is_idle evict_after now (set_last_use alias now l) p ≡ false
is_idle-set_last_use evict_after now alias l p pos h = elim (Bool-cases (text_eq p.alias alias)) [
  | inl same ↦ ground (
    arith,
    pos,
    subst (λ a. last_use a now (set_last_use alias now l) ≡ now)
        (sym (eq_of_text_eq p.alias alias same)) (last_use-set_last_use alias now l),
  )
  | inr other ↦ ground (arith, h, other)
]

touch-pools :
    (evict_after now : ℕ) (alias : Text) (h : Handler) (p : Pool)
    → 0 < evict_after
    → (text_eq p.alias alias || ltb p.pool_available p.pool_size) ≡ true
    → In p h.pools
    → In p (touch evict_after now alias h).pools
unfolding touch evict_idle_pools
touch-pools evict_after now alias h p pos used i =
    elim (Bool-cases (leb (h.last_eviction_check + 60) now)) [
      | inl due ↦ rw due (
          filter-In (λ q. not (is_idle evict_after now (set_last_use alias now h.last_used) q))
            h.pools i (ap not (is_idle-set_last_use evict_after now alias h.last_used p pos used)))
      | inr early ↦ rw early i
    ]

ensure_database-pools :
    (alias : Text) (h : Handler) {k : Handler}
    → ensure_database alias h ≡ some k
    → k.pools ≡ h.pools
unfolding add_database
ensure_database-pools alias h e = ground (arith, e)

-- With a delay of eviction that is not zero, asking for a connection closes neither the pool of its database nor a pool that a connection is
-- borrowed from, however long they were unused.
pub get_item-pools :
    (evict_after now : ℕ) (current alias : Text) (h : Handler) (p : Pool) {a : Text} {h' : Handler}
    → 0 < evict_after
    → get_item evict_after now current alias h ≡ some (a, h')
    → (text_eq p.alias a || ltb p.pool_available p.pool_size) ≡ true
    → In p h.pools
    → In p h'.pools
unfolding get_item
get_item-pools evict_after now current alias h p {a} {h'} pos e used i =
    let db : Text = resolve current alias in
    let (k, q, same, end) = opened_parts evict_after now db (ensure_database db h) e in
    subst (λ (g : Handler). In p g.pools) (sym end)
      (touch-pools evict_after now db (connect db k) p pos
        (subst (λ b. (text_eq p.alias b || ltb p.pool_available p.pool_size) ≡ true) same used)
        (subst (λ pools. In p pools) (sym (ensure_database-pools db h q)) i))
