-- ===== src/Service/Errors.antt =====
-- src/core/services/exceptions.py: the errors of a service, as dicts in insertion order. What a
-- message says is not read by the code: messages are of any type.
pub mod Merged
use totem_backend.Base.{
  ℕ, Bool, true, false, Option, none, some, List, [], ◌∷◌, ◌++◌, ◌==◌, not, if◌then◌else◌,
}

-- `NON_FIELD_ERRORS`; the names of fields are other numbers.
abbrev pub non_field_errors : ℕ
non_field_errors = 0

-- A text, or a list of texts.
pub data Messages (M : Type 0) : Type 0 where
  message : M → Messages M
  messages : List M → Messages M

abbrev pub MessageDict : Type 0 → Type 0
MessageDict M = List (ℕ × List M)

abbrev pub texts_of : {M : Type 0} → Messages M → List M
texts_of (message m) = m ∷ []
texts_of (messages ms) = ms

abbrev pub key_or : Option ℕ → ℕ
key_or none = non_field_errors
key_or (some k) = k

-- `__init__` of `ServiceValidationError`, on a dict.
unfoldable pub of_dict : {M : Type 0} → List (ℕ × Messages M) → MessageDict M
of_dict [] = []
of_dict ((k, ms) ∷ rest) = (k, texts_of ms) ∷ of_dict rest

-- `__init__` of `ServiceValidationError`, on a message.
unfoldable pub of_messages : {M : Type 0} → Messages M → Option ℕ → MessageDict M
of_messages ms key = (key_or key, texts_of ms) ∷ []

-- `_message_dict[key]`, extended at its end; a key that is missing is added.
abbrev pub extend : {M : Type 0} → ℕ → List M → MessageDict M → MessageDict M
extend k ms [] = (k, ms) ∷ []
extend k ms ((j, old) ∷ rest) =
    if j == k then (j, old ++ ms) ∷ rest else (j, old) ∷ extend k ms rest

-- `add_message`
unfoldable pub add_message : {M : Type 0} → Messages M → Option ℕ → MessageDict M → MessageDict M
add_message ms key error = extend (key_or key) (texts_of ms) error

-- `bool(error)`, of either kind of error.
abbrev pub is_error {ℓ} : {A : Type ℓ} → List A → Bool
is_error [] = false
is_error (x ∷ xs) = true

-- What is under a key, if it is there.
abbrev pub messages_at : {M : Type 0} → ℕ → MessageDict M → List M
messages_at k [] = []
messages_at k ((j, ms) ∷ rest) = if j == k then ms else messages_at k rest

-- An entry of a `ServiceValidationMultiError`.
pub data Entry (M : Type 0) : Type 0 where
  texts : List M → Entry M
  validation_error : MessageDict M → Entry M

abbrev pub Errors : Type 0 → Type 0
Errors M = List (ℕ × Entry M)

pub record MultiError (M : Type 0) : Type 0 where
  pub errors : Errors M
  pub code : Option ℕ

-- `self._errors[key] = …`
abbrev pub set_entry : {M : Type 0} → ℕ → Entry M → Errors M → Errors M
set_entry k e [] = (k, e) ∷ []
set_entry k e ((j, old) ∷ rest) = if j == k then (j, e) ∷ rest else (j, old) ∷ set_entry k e rest

-- `add_error`
unfoldable pub add_error : {M : Type 0} → ℕ → MessageDict M → MultiError M → MultiError M
add_error k e error = record error { errors = set_entry k (validation_error e) error.errors }

abbrev pub entry_at : {M : Type 0} → ℕ → Errors M → Option (Entry M)
entry_at k [] = none
entry_at k ((j, e) ∷ rest) = if j == k then some e else entry_at k rest

-- A value of `dict()`: a list of texts, or a dict of them.
pub data Rendered (M : Type 0) : Type 0 where
  texts : List M → Rendered M
  by_key : MessageDict M → Rendered M

abbrev rendered : {M : Type 0} → Entry M → Rendered M
rendered (Entry.texts ms) = Rendered.texts ms
rendered (validation_error e) = by_key e

abbrev render_all : {M : Type 0} → Errors M → List (ℕ × Rendered M)
render_all [] = []
render_all ((k, e) ∷ rest) = (k, rendered e) ∷ render_all rest

unfoldable pub to_dict : {M : Type 0} → MultiError M → List (ℕ × Rendered M)
to_dict error = render_all error.errors
