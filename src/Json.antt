-- ===== src/Json.antt =====
-- The Python values that cross the program's boundaries: what `json.loads` gives for a Jetstream
-- message and what the Avro deserializer gives for a Kafka message. The integers of both are
-- never negative (time stamps, sizes), and a float is kept as its text.
use bluesky_trends.Prelude.{ℕ, String, Bool, true, false, Option, none, some, str_eq, if◌then◌else◌}

mutual
  pub data Value : Type 0 where
    obj : Fields → Value
    arr : Items → Value
    str : String → Value
    datetime : ℕ → Value
    float : String → Value
    int : ℕ → Value
    bool : Bool → Value
    null : Value

  -- A `dict` with text keys.
  pub data Fields : Type 0 where
    field : String → Value → Fields → Fields
    end : Fields

  pub data Items : Type 0 where
    cons : Value → Items → Items
    nil : Items

-- The entry of a key, if there is one.
unfoldable pub find : String → Fields → Option Value
find k end = none
find k (field j v d) = if str_eq k j then some v else find k d

abbrev pub or_null : Option Value → Value
or_null none = null
or_null (some v) = v

-- `d.get(k)`: `None` stands for a missing key.
unfoldable pub get : String → Fields → Value
unfolding find
get k d = or_null (find k d)

-- `isinstance(v, dict)`, with the dictionary.
abbrev pub as_dict : Value → Option Fields
as_dict (obj d) = some d
as_dict _ = none

-- `isinstance(v, int)`, with the number: a `bool` is an `int`.
abbrev pub as_int : Value → Option ℕ
as_int (int n) = some n
as_int (bool true) = some 1
as_int (bool false) = some 0
as_int _ = none

-- `isinstance(v, str)`, with the text.
abbrev pub as_str : Value → Option String
as_str (str s) = some s
as_str _ = none

-- `v == s` for a text `s`.
abbrev pub is_text : String → Value → Bool
is_text s (str t) = str_eq t s
is_text s _ = false
