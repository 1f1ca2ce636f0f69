-- ===== src/Ingest/Parse/Errors.antt =====
-- Which exception `to_model` of ingest/parse.py raises for which events.
use bluesky_trends.Prelude.{
  ◌≡◌, refl, Bool, true, false, not, ◌&&◌, ◌||◌, Option, none, some, arith, ◌⊎◌, inl, inr,
  Option-cases,
}
use bluesky_trends.Json.{Value, null, obj, Fields, find, get, as_dict, is_text}
use bluesky_trends.Exceptions.{Result, raised, value_error, buffer_error, postgres_error}
use bluesky_trends.Schemas.{Pydantic}
use bluesky_trends.Ingest.Parse.{item, to_post, to_like, to_follow, by_collection, to_model}

-- The collections that the program ingests.
abbrev pub known_collection : Value → Bool
known_collection v =
    is_text "app.bsky.feed.post" v
    || is_text "app.bsky.feed.like" v
    || is_text "app.bsky.graph.follow" v

abbrev pub is_dict : Value → Bool
is_dict (obj _) = true
is_dict _ = false

abbrev pub create_of : Value → Bool
create_of (obj commit) = is_text "create" (get "operation" commit) && is_dict (get "record" commit)
create_of _ = false

abbrev pub known_in : Value → Bool
known_in (obj commit) = known_collection (get "collection" commit)
known_in _ = false

-- The event is a commit that creates a record.
unfoldable pub creates_record : Fields → Bool
creates_record event = is_text "commit" (get "kind" event) && create_of (get "commit" event)

abbrev pub is_there : Option Value → Bool
is_there none = false
is_there (some _) = true

-- The exception is none of the loop's `ValueError`s, or is one.
abbrev pub is_skip : {A : Type 0} → Result A → Bool
is_skip (raised (value_error _)) = true
is_skip _ = false

-- The exception is one of Kafka or of Postgres.
abbrev pub is_io_error : {A : Type 0} → Result A → Bool
is_io_error (raised buffer_error) = true
is_io_error (raised postgres_error) = true
is_io_error _ = false

module _ (py : Pydantic) (did : Value) (commit record_ : Fields) where
  to_post_errors :
      (is_skip (to_post py did commit record_) ≡ false)
      × (is_io_error (to_post py did commit record_) ≡ false)
  unfolding to_post
  to_post_errors = ground arith

  to_like_errors :
      (is_skip (to_like py did commit record_) ≡ false)
      × (is_io_error (to_like py did commit record_) ≡ false)
  unfolding to_like item
  to_like_errors = ground arith

  to_follow_errors :
      (is_skip (to_follow py did commit record_) ≡ false)
      × (is_io_error (to_follow py did commit record_) ≡ false)
  unfolding to_follow
  to_follow_errors = ground arith

  by_collection_errors :
      (v : Value)
      → (is_skip (by_collection py v did commit record_) ≡ not (known_collection v))
        × (is_io_error (by_collection py v did commit record_) ≡ false)
  unfolding by_collection
  by_collection_errors v = ground (arith, to_post_errors, to_like_errors, to_follow_errors)

-- A dictionary, or not one.
pub dict-cases :
    (v : Value) → ((is_dict v ≡ false) × (as_dict v ≡ none)) ⊎ ((d : Fields) × (v ≡ obj d))
dict-cases (obj d) = inr (d, refl)
dict-cases null = inl (refl, refl)
dict-cases _ = inl (refl, refl)

module _ (py : Pydantic) (event : Fields) where
  -- `to_model` raises its own `ValueError` exactly for the events that create no record, and for
  -- those that create one in an unknown collection, if they have a `did`.
  pub to_model-skips_iff :
      is_skip (to_model py event)
      ≡ not (
          creates_record event
          && (known_in (get "commit" event) || not (is_there (find "did" event))))
  unfolding to_model creates_record item
  to_model-skips_iff = elim (dict-cases (get "commit" event)) [
    | inl nothing ↦ ground arith
    | inr (commit, c) ↦ elim (dict-cases (get "record" commit)) [
      | inl nothing ↦ rw (c) (ground arith)
      | inr (record_, r) ↦ elim (Option-cases (find "did" event)) [
        | inl no_did ↦ rw c (rw r (rw no_did (ground arith)))
        | inr (did, d) ↦ rw c (
            rw (r) (
              rw d (
                ground
                  (arith, by_collection_errors py did commit record_ (get "collection" commit)))))
      ]
    ]
  ]

  -- `to_model` raises nothing but the exceptions that the loop and the docstrings name.
  pub to_model-is_io_error : is_io_error (to_model py event) ≡ false
  unfolding to_model item
  to_model-is_io_error = elim (Option-cases (find "did" event)) [
    | inl nothing ↦ ground arith
    | inr (did, d) ↦ elim (dict-cases (get "commit" event)) [
      | inl nothing ↦ ground arith
      | inr (commit, c) ↦ elim (dict-cases (get "record" commit)) [
        | inl nothing ↦ rw c (ground arith)
        | inr (record_, r) ↦ rw c (
            rw r (
              rw d (
                ground
                  (arith, by_collection_errors py did commit record_ (get "collection" commit)))))
      ]
    ]
  ]
