-- ===== src/Schemas.antt =====
-- schemas/models.py: the typed events. pydantic is a parameter: how it reads one field of each
-- type that the models use. A `datetime` is its microseconds since 1970.
pub mod Dump
use bluesky_trends.Prelude.{
  ℕ, String, ◌≡◌, Bool, true, false, ◌&&◌, ◌||◌, Option, none, some, List, [], ◌∷◌, str_eq,
}
use bluesky_trends.Json.{
  Value, null, str, datetime, arr, Items, nil, cons, Fields, end, field, find,
}
use bluesky_trends.Exceptions.{Result, ok, raised, validation_error, ◌>>=◌, ◌>>◌, raise_if}

abbrev pub str_items : List String → Items
str_items [] = nil
str_items (s ∷ ss) = cons (str s) (str_items ss)

-- What the models rely on: how pydantic reads a value as `str`, `datetime`, `str | None` and
-- `list[str] | None`; `none` is a validation error.
pub record Pydantic : Type 0 where
  pub read_str : Value → Option String
  pub read_datetime : Value → Option ℕ
  pub read_opt_str : Value → Option (Option String)
  pub read_opt_strs : Value → Option (Option (List String))
  pub str_str : (s : String) → read_str (str s) ≡ some s
  pub datetime_datetime : (t : ℕ) → read_datetime (datetime t) ≡ some t
  pub opt_str_null : read_opt_str null ≡ some none
  pub opt_str_str : (s : String) → read_opt_str (str s) ≡ some (some s)
  pub opt_strs_null : read_opt_strs null ≡ some none
  pub opt_strs_strs : (ss : List String) → read_opt_strs (arr (str_items ss)) ≡ some (some ss)

pub record BskyPost : Type 0 where
  pub did : String
  pub rkey : String
  pub cid : String
  pub created_at : ℕ
  pub text : String
  pub langs : Option (List String)
  pub reply_parent : Option String
  pub reply_root : Option String

pub record BskyLike : Type 0 where
  pub did : String
  pub rkey : String
  pub cid : String
  pub created_at : ℕ
  pub subject_uri : String
  pub subject_cid : String

pub record BskyFollow : Type 0 where
  pub did : String
  pub rkey : String
  pub cid : String
  pub created_at : ℕ
  pub subject_did : String

pub record DlqEnvelope : Type 0 where
  pub raw_payload : String
  pub error : String
  pub intended_topic : String
  pub received_at : ℕ

-- A field that pydantic could not read.
abbrev pub valid {ℓ} : {A : Type ℓ} → Option A → Result A
valid none = raised validation_error
valid (some a) = ok a

-- A field with no default must be there.
abbrev pub required {ℓ} : {A : Type ℓ} → (Value → Option A) → Option Value → Result A
required read none = raised validation_error
required read (some v) = valid (read v)

-- A field with the default `None`.
abbrev pub defaulted {ℓ} :
    {A : Type ℓ} → (Value → Option (Option A)) → Option Value → Result (Option A)
defaulted read none = ok none
defaulted read (some v) = valid (read v)

unfoldable pub one_of : String → List String → Bool
one_of k [] = false
one_of k (j ∷ js) = str_eq k j || one_of k js

-- `extra="forbid"`: every key is a field of the model.
unfoldable pub only : List String → Fields → Bool
unfolding one_of
only names end = true
only names (field k v d) = one_of k names && only names d

abbrev pub post_fields : List String
post_fields =
    "did" ∷ "rkey" ∷ "cid" ∷ "created_at" ∷ "text" ∷ "langs" ∷ "reply_parent" ∷ "reply_root" ∷ []

abbrev pub like_fields : List String
like_fields = "did" ∷ "rkey" ∷ "cid" ∷ "created_at" ∷ "subject_uri" ∷ "subject_cid" ∷ []

abbrev pub follow_fields : List String
follow_fields = "did" ∷ "rkey" ∷ "cid" ∷ "created_at" ∷ "subject_did" ∷ []

abbrev pub forbid_extra : List String → Fields → Result (Unit {0})
forbid_extra names d = elim (only names d) [ true ↦ ok tt | false ↦ raised validation_error ]

module _ (py : Pydantic) where
  open py use {read_str, read_datetime, read_opt_str, read_opt_strs}

  -- `BskyPost.model_validate(d)`, and `BskyPost(**d)`.
  unfoldable pub validate_post : Fields → Result BskyPost
  unfolding find only
  validate_post d = do
    forbid_extra post_fields d
    did ← required read_str (find "did" d)
    rkey ← required read_str (find "rkey" d)
    cid ← required read_str (find "cid" d)
    created_at ← required read_datetime (find "created_at" d)
    text ← required read_str (find "text" d)
    langs ← defaulted read_opt_strs (find "langs" d)
    reply_parent ← defaulted read_opt_str (find "reply_parent" d)
    reply_root ← defaulted read_opt_str (find "reply_root" d)
    ok (record {
      did = did;
      rkey = rkey;
      cid = cid;
      created_at = created_at;
      text = text;
      langs = langs;
      reply_parent = reply_parent;
      reply_root = reply_root;
    })

  unfoldable pub validate_like : Fields → Result BskyLike
  unfolding find only
  validate_like d = do
    forbid_extra like_fields d
    did ← required read_str (find "did" d)
    rkey ← required read_str (find "rkey" d)
    cid ← required read_str (find "cid" d)
    created_at ← required read_datetime (find "created_at" d)
    subject_uri ← required read_str (find "subject_uri" d)
    subject_cid ← required read_str (find "subject_cid" d)
    ok (record {
      did = did;
      rkey = rkey;
      cid = cid;
      created_at = created_at;
      subject_uri = subject_uri;
      subject_cid = subject_cid;
    })

  unfoldable pub validate_follow : Fields → Result BskyFollow
  unfolding find only
  validate_follow d = do
    forbid_extra follow_fields d
    did ← required read_str (find "did" d)
    rkey ← required read_str (find "rkey" d)
    cid ← required read_str (find "cid" d)
    created_at ← required read_datetime (find "created_at" d)
    subject_did ← required read_str (find "subject_did" d)
    ok (record {
      did = did;
      rkey = rkey;
      cid = cid;
      created_at = created_at;
      subject_did = subject_did;
    })
