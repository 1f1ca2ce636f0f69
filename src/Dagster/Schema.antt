-- ===== src/Dagster/Schema.antt =====
-- dagster/bsky_dagster/transforms/bronze_schema.py, bronze_schema_likes.py and
-- bronze_schema_follows.py: the columns, the Iceberg and the Arrow schemas and the partitions.
pub mod Mirror
pub mod Table
use bluesky_trends.Prelude.{ℕ, String, Bool, true, false, not, List, [], ◌∷◌}

-- The types of pyiceberg; `string_list` has `StringType` elements that may be null.
pub data FieldType : Type 0 where
  integer long string timestamptz string_list : FieldType

pub record NestedField : Type 0 where
  pub field_id : ℕ
  pub name : String
  pub field_type : FieldType
  pub required : Bool

pub data ArrowType : Type 0 where
  int32 int64 utf8 timestamp_us_utc utf8_list : ArrowType

pub record ArrowField : Type 0 where
  pub name : String
  pub arrow_type : ArrowType
  pub nullable : Bool

-- `PartitionField`, whose transform is the day.
pub record PartitionField : Type 0 where
  pub source_id : ℕ
  pub field_id : ℕ
  pub name : String

abbrev pub nested : ℕ → String → FieldType → Bool → NestedField
nested i n t r = record { field_id = i; name = n; field_type = t; required = r }

abbrev pub arrow : String → ArrowType → Bool → ArrowField
arrow n t b = record { name = n; arrow_type = t; nullable = b }

-- `_CREATED_AT_FIELD_ID`
abbrev pub created_at_field_id : ℕ
created_at_field_id = 4

-- The partition spec of the three tables.
abbrev pub partition_spec : PartitionField
partition_spec = record {
  source_id = created_at_field_id;
  field_id = 1000;
  name = "created_at_day";
}

abbrev pub bronze_columns : List String
bronze_columns =
    "did" ∷ "rkey" ∷ "cid" ∷ "created_at" ∷ "text" ∷ "langs" ∷ "reply_parent" ∷ "reply_root"
    ∷ "kafka_partition" ∷ "kafka_offset" ∷ "ingest_ts" ∷ []

unfoldable pub posts_iceberg_schema : List NestedField
posts_iceberg_schema =
    nested 1 "did" string true
    ∷ nested 2 "rkey" string true
    ∷ nested 3 "cid" string true
    ∷ nested created_at_field_id "created_at" timestamptz true
    ∷ nested 5 "text" string true
    ∷ nested 6 "langs" string_list true
    ∷ nested 7 "reply_parent" string false
    ∷ nested 8 "reply_root" string false
    ∷ nested 9 "kafka_partition" integer true
    ∷ nested 10 "kafka_offset" long true
    ∷ nested 11 "ingest_ts" timestamptz true
    ∷ []

unfoldable pub posts_arrow_schema : List ArrowField
posts_arrow_schema =
    arrow "did" utf8 false
    ∷ arrow "rkey" utf8 false
    ∷ arrow "cid" utf8 false
    ∷ arrow "created_at" timestamp_us_utc false
    ∷ arrow "text" utf8 false
    ∷ arrow "langs" utf8_list false
    ∷ arrow "reply_parent" utf8 true
    ∷ arrow "reply_root" utf8 true
    ∷ arrow "kafka_partition" int32 false
    ∷ arrow "kafka_offset" int64 false
    ∷ arrow "ingest_ts" timestamp_us_utc false
    ∷ []

abbrev pub bronze_columns_likes : List String
bronze_columns_likes =
    "did" ∷ "rkey" ∷ "cid" ∷ "created_at" ∷ "subject_uri" ∷ "subject_cid" ∷ "kafka_partition"
    ∷ "kafka_offset" ∷ "ingest_ts" ∷ []

unfoldable pub likes_iceberg_schema : List NestedField
likes_iceberg_schema =
    nested 1 "did" string true
    ∷ nested 2 "rkey" string true
    ∷ nested 3 "cid" string true
    ∷ nested created_at_field_id "created_at" timestamptz true
    ∷ nested 5 "subject_uri" string true
    ∷ nested 6 "subject_cid" string true
    ∷ nested 7 "kafka_partition" integer true
    ∷ nested 8 "kafka_offset" long true
    ∷ nested 9 "ingest_ts" timestamptz true
    ∷ []

unfoldable pub likes_arrow_schema : List ArrowField
likes_arrow_schema =
    arrow "did" utf8 false
    ∷ arrow "rkey" utf8 false
    ∷ arrow "cid" utf8 false
    ∷ arrow "created_at" timestamp_us_utc false
    ∷ arrow "subject_uri" utf8 false
    ∷ arrow "subject_cid" utf8 false
    ∷ arrow "kafka_partition" int32 false
    ∷ arrow "kafka_offset" int64 false
    ∷ arrow "ingest_ts" timestamp_us_utc false
    ∷ []

abbrev pub bronze_columns_follows : List String
bronze_columns_follows =
    "did" ∷ "rkey" ∷ "cid" ∷ "created_at" ∷ "subject_did" ∷ "kafka_partition" ∷ "kafka_offset"
    ∷ "ingest_ts" ∷ []

unfoldable pub follows_iceberg_schema : List NestedField
follows_iceberg_schema =
    nested 1 "did" string true
    ∷ nested 2 "rkey" string true
    ∷ nested 3 "cid" string true
    ∷ nested created_at_field_id "created_at" timestamptz true
    ∷ nested 5 "subject_did" string true
    ∷ nested 6 "kafka_partition" integer true
    ∷ nested 7 "kafka_offset" long true
    ∷ nested 8 "ingest_ts" timestamptz true
    ∷ []

unfoldable pub follows_arrow_schema : List ArrowField
follows_arrow_schema =
    arrow "did" utf8 false
    ∷ arrow "rkey" utf8 false
    ∷ arrow "cid" utf8 false
    ∷ arrow "created_at" timestamp_us_utc false
    ∷ arrow "subject_did" utf8 false
    ∷ arrow "kafka_partition" int32 false
    ∷ arrow "kafka_offset" int64 false
    ∷ arrow "ingest_ts" timestamp_us_utc false
    ∷ []
