-- ===== src/Service/Errors/Merged.antt =====
-- What adding to an error keeps of it.
use totem_backend.Base.{
  ℕ, ◌≡◌, refl, true, Option, some, List, [], ◌∷◌, ◌++◌, ◌==◌, if◌then◌else◌, arith,
}
use totem_backend.Service.Errors.{
  Messages, MessageDict, texts_of, key_or, extend, add_message, messages_at, Entry,
  validation_error, Errors, MultiError, set_entry, add_error, entry_at, is_error,
}

module _ {M : Type 0} where
  messages_at-extend :
      (k j : ℕ) (ms : List M) (error : MessageDict M)
      → messages_at k (extend j ms error)
        ≡ (if j == k then messages_at k error ++ ms else messages_at k error)
  messages_at-extend k j ms [] = refl
  messages_at-extend k j ms ((i, old) ∷ error) = ground (arith, messages_at-extend k j ms error)

  -- A message is added after those that its key has already, under `__all__` when no key is given,
  -- and the messages of the other keys stay what they are.
  pub messages_at-add_message :
      (k : ℕ) (ms : Messages M) (key : Option ℕ) (error : MessageDict M)
      → messages_at k (add_message ms key error)
        ≡ (if key_or key == k then messages_at k error ++ texts_of ms else messages_at k error)
  unfolding add_message
  messages_at-add_message k ms key error = messages_at-extend k (key_or key) (texts_of ms) error

  entry_at-set_entry :
      (k j : ℕ) (e : Entry M) (errors : Errors M)
      → entry_at k (set_entry j e errors) ≡ (if j == k then some e else entry_at k errors)
  entry_at-set_entry k j e [] = refl
  entry_at-set_entry k j e ((i, old) ∷ errors) = ground (arith, entry_at-set_entry k j e errors)

  -- Adding an error under a key replaces the one that was there, and leaves the others.
  pub entry_at-add_error :
      (k j : ℕ) (e : MessageDict M) (error : MultiError M)
      → entry_at k (add_error j e error).errors
        ≡ (if j == k then some (validation_error e) else entry_at k error.errors)
  unfolding add_error
  entry_at-add_error k j e error = entry_at-set_entry k j (validation_error e) error.errors

  pub is_error-extend :
      (k : ℕ) (ms : List M) (error : MessageDict M) → is_error (extend k ms error) ≡ true
  is_error-extend k ms [] = refl
  is_error-extend k ms ((j, old) ∷ error) = ground arith

  is_error-set_entry :
      (k : ℕ) (e : Entry M) (errors : Errors M) → is_error (set_entry k e errors) ≡ true
  is_error-set_entry k e [] = refl
  is_error-set_entry k e ((j, old) ∷ errors) = ground arith

  pub is_error-add_error :
      (k : ℕ) (e : MessageDict M) (error : MultiError M)
      → is_error (add_error k e error).errors ≡ true
  unfolding add_error
  is_error-add_error k e error = is_error-set_entry k (validation_error e) error.errors
