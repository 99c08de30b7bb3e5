-- ===== src/Service/GroupBy/Checked.antt =====
-- Which requests the checks of a grouping refuse, and what they say.
use totem_backend.Base.{
  ℕ, ◌≡◌, refl, Bool, true, false, ◌&&◌, ◌||◌, not, some, List, [], ◌∷◌, ◌++◌, ◌==◌, ltb, all,
  is_none, arith, ◌∙◌,
}
use totem_backend.Base.Text.{Text, text_eq, text_eq_refl, eq_of_text_eq}
use totem_backend.Base.Repeats.{
  is_empty, has, repeated, distinct, is_empty-repeated, is_empty-append,
}
use totem_backend.Service.Errors.{MessageDict, message, add_message, is_error, messages_at}
use totem_backend.Service.Errors.Merged.{is_error-extend, messages_at-add_message}
use totem_backend.Service.GroupBy.{
  Declared, Request, Complaint, dimensions_key, measures_key, ordering_key, offset_key, complain,
  unknown, check_names, ordered_names, check_ordering, group_by_check,
}

-- Each name is one of a list.
abbrev pub all_among : List Text → List Text → Bool
all_among names declared = all (λ name. has text_eq name declared) names

-- At least one name, each of them declared, none twice.
abbrev pub names_pass : List Text → List Text → Bool
names_pass names declared =
    not (is_empty names) && (all_among names declared && distinct text_eq names)

-- Each name is asked, none is ordered on twice.
abbrev pub ordering_passes : Request → Bool
ordering_passes request =
    all_among (ordered_names request.ordering) (request.dimensions ++ request.measures)
    && distinct text_eq (ordered_names request.ordering)

abbrev pub offset_passes : Request → Bool
offset_passes request = not (ltb 0 request.offset) || not (is_none request.limit)

is_empty-unknown :
    (names declared : List Text) → is_empty (unknown names declared) ≡ all_among names declared
is_empty-unknown [] declared = refl
is_empty-unknown (name ∷ names) declared = ground (arith, is_empty-unknown names declared)

is_empty_messages-complain :
    (k : ℕ) (b : Bool) (complaint : Complaint) (key : ℕ) (error : MessageDict Complaint)
    → is_empty (messages_at k (complain b complaint key error))
      ≡ (is_empty (messages_at k error) && not (b && key == k))
is_empty_messages-complain k false complaint key error = ground arith
is_empty_messages-complain k true complaint key error = ground (
  arith,
  messages_at-add_message k (message complaint) (some key) error,
  is_empty-append (messages_at k error) (complaint ∷ []),
)

is_error-complain :
    (b : Bool) (complaint : Complaint) (key : ℕ) (error : MessageDict Complaint)
    → is_error (complain b complaint key error) ≡ (b || is_error error)
unfolding add_message
is_error-complain false complaint key error = refl
is_error-complain true complaint key error = is_error-extend key (complaint ∷ []) error

is_empty-repeated_names :
    (names : List Text) → is_empty (repeated text_eq names) ≡ distinct text_eq names
is_empty-repeated_names names = is_empty-repeated text_eq text_eq_refl eq_of_text_eq names

is_empty_messages-check_names :
    (k key : ℕ) (names declared : List Text) (error : MessageDict Complaint)
    → is_empty (messages_at k (check_names key names declared error))
      ≡ (is_empty (messages_at k error) && (not (key == k) || names_pass names declared))
is_empty_messages-check_names k key names declared error =
    rw (is_empty_messages-complain k, is_empty_messages-complain k, is_empty_messages-complain k)
      (ground (arith, is_empty-repeated_names names, is_empty-unknown names declared))

is_empty_messages-check_ordering :
    (k : ℕ) (ordered asked : List Text) (error : MessageDict Complaint)
    → is_empty (messages_at k (check_ordering ordered asked error)) ≡ (
        is_empty (messages_at k error)
        && (not (ordering_key == k) || (all_among ordered asked && distinct text_eq ordered)))
is_empty_messages-check_ordering k ordered asked error =
    rw (is_empty_messages-complain k, is_empty_messages-complain k)
      (ground (arith, is_empty-repeated_names ordered, is_empty-unknown ordered asked))

is_error-check_names :
    (key : ℕ) (names declared : List Text) (error : MessageDict Complaint)
    → is_error (check_names key names declared error)
      ≡ (not (names_pass names declared) || is_error error)
is_error-check_names key names declared error =
    rw (is_error-complain, is_error-complain, is_error-complain)
      (ground (arith, is_empty-repeated_names names, is_empty-unknown names declared))

is_error-check_ordering :
    (ordered asked : List Text) (error : MessageDict Complaint)
    → is_error (check_ordering ordered asked error)
      ≡ (not (all_among ordered asked && distinct text_eq ordered) || is_error error)
is_error-check_ordering ordered asked error =
    rw (is_error-complain, is_error-complain)
      (ground (arith, is_empty-repeated_names ordered, is_empty-unknown ordered asked))

-- A request is refused unless it has a dimension and a measure, each declared and none repeated, is
-- ordered on names that it asks, each once, and has a limit when it has an offset.
pub is_error-group_by_check :
    (declared : Declared) (request : Request)
    → is_error (group_by_check declared request)
      ≡ not (
          names_pass request.dimensions declared.dimensions
          && (names_pass request.measures declared.measures
              && (ordering_passes request && offset_passes request)))
unfolding group_by_check
is_error-group_by_check declared request =
    rw (is_error-complain, is_error-check_ordering, is_error-check_names, is_error-check_names)
      (ground arith)

messages_under :
    (declared : Declared) (request : Request) (k : ℕ)
    → is_empty (messages_at k (group_by_check declared request)) ≡ (
        (((not (dimensions_key == k) || names_pass request.dimensions declared.dimensions)
            && (not (measures_key == k) || names_pass request.measures declared.measures))
          && (not (ordering_key == k) || ordering_passes request))
        && not ((ltb 0 request.offset && is_none request.limit) && offset_key == k))
unfolding group_by_check
messages_under declared request k =
    rw
      (
        is_empty_messages-complain k,
        is_empty_messages-check_ordering k,
        is_empty_messages-check_names k,
        is_empty_messages-check_names k,
      )
      (ground arith)

-- What the refusal says under a key is about that part of the request only: there is a message under
-- a key exactly if that part does not pass, whatever the others are.
pub messages_at-group_by_check :
    (declared : Declared) (request : Request)
    → (is_empty (messages_at dimensions_key (group_by_check declared request))
        ≡ names_pass request.dimensions declared.dimensions)
      × (is_empty (messages_at measures_key (group_by_check declared request))
          ≡ names_pass request.measures declared.measures)
      × (is_empty (messages_at ordering_key (group_by_check declared request))
          ≡ ordering_passes request)
      × (is_empty (messages_at offset_key (group_by_check declared request))
          ≡ offset_passes request)
messages_at-group_by_check declared request =
    let at = messages_under declared request in
    (
      at dimensions_key ∙ ground arith,
      at measures_key ∙ ground arith,
      at ordering_key ∙ ground arith,
      at offset_key ∙ ground arith,
    )
