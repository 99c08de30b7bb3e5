-- ===== src/Auth/Scopes/Registry.antt =====
-- The registry of permissions keeps one record for each name, and each name passed the pattern.
use totem_backend.Base.{ℕ, ◌-◌, leb, ◌≡◌, refl, Bool, true, false, ◌&&◌, ◌||◌, [], ◌∷◌, ◌++◌, arith}
use totem_backend.Base.Text.{Text, text_eq, eq_of_text_eq, text_eq_refl}
use totem_backend.Auth.Scopes.{
  PermissionRecord, Permissions, is_registered, lower_run, segment, dot, matches_permission,
  registered, register_permission,
}

abbrev pub IsRegistry : Permissions → Type 0
IsRegistry [] = Unit
IsRegistry (r ∷ rs) =
    (is_registered r.permission rs ≡ false)
    × (matches_permission r.permission ≡ true)
    × IsRegistry rs

is_registered-append :
    (p : Text) (rs qs : Permissions)
    → is_registered p (rs ++ qs) ≡ (is_registered p rs || is_registered p qs)
is_registered-append p [] qs = refl
is_registered-append p (r ∷ rs) qs = ground (arith, is_registered-append p rs qs)

IsRegistry-snoc :
    (rs : Permissions) (q : PermissionRecord)
    → IsRegistry rs
    → is_registered q.permission rs ≡ false
    → matches_permission q.permission ≡ true
    → IsRegistry (rs ++ q ∷ [])
IsRegistry-snoc [] q h fresh m = (refl, m, tt)
IsRegistry-snoc (r ∷ rs) q h fresh m = ground (
  arith,
  IsRegistry-snoc rs q h.2,
  is_registered-append r.permission rs (q ∷ []),
  eq_of_text_eq r.permission q.permission,
  text_eq_refl q.permission,
)

-- Registering a permission keeps the registry well formed (each name once, each
-- accepted by the code's pattern), adds the name and loses none.
pub register_permission-IsRegistry :
    (p d : Text) (is_public : Bool) (rs : Permissions) {rs' : Permissions}
    → IsRegistry rs
    → register_permission p d is_public rs ≡ registered rs'
    → IsRegistry rs' × ((k : Text) → is_registered k rs' ≡ (is_registered k rs || text_eq k p))
unfolding register_permission
register_permission-IsRegistry p d is_public rs h e =
    let q : PermissionRecord = record { permission = p; description = d; is_public = is_public } in
    (
      ground (arith, IsRegistry-snoc rs q h),
      λ k. ground (arith, is_registered-append k rs (q ∷ [])),
    )

-- A test that goes on passing whatever is appended.
abbrev IsOpenEnded : (Text → Bool) → Type 0
IsOpenEnded next = (s t : Text) → next s ≡ true → next (s ++ t) ≡ true

abbrev segment_from : ℕ → (Text → Bool) → ℕ × Text → Bool
segment_from k next (n, rest) = leb k n && next rest

segment_from-append :
    (k : ℕ) (next : Text → Bool) (s t : Text)
    → IsOpenEnded next
    → segment_from k next (lower_run s) ≡ true
    → segment_from k next (lower_run (s ++ t)) ≡ true
unfolding lower_run
segment_from-append k next [] t open_ended h = ground (arith, open_ended [] (lower_run t).1)
segment_from-append k next (c ∷ s) t open_ended h =
    ground (arith, segment_from-append (k - 1) next s t open_ended, open_ended (c ∷ s) t)

segment-IsOpenEnded : (next : Text → Bool) → IsOpenEnded next → IsOpenEnded (segment next)
unfolding segment
segment-IsOpenEnded next h s t e = segment_from-append 3 next s t h e

dot-IsOpenEnded : (next : Text → Bool) → IsOpenEnded next → IsOpenEnded (dot next)
unfolding dot
dot-IsOpenEnded next h [] t e = cc
dot-IsOpenEnded next h (c ∷ s) t e = ground (arith, h s t)

-- The pattern is not anchored at its end: whatever follows a name that passes, it still passes.
pub matches_permission-append :
    (s t : Text) → matches_permission s ≡ true → matches_permission (s ++ t) ≡ true
unfolding matches_permission
matches_permission-append = segment-IsOpenEnded _ (
    dot-IsOpenEnded _
      (segment-IsOpenEnded _ (dot-IsOpenEnded _ (segment-IsOpenEnded (λ _. true) (λ s t e. refl)))))
