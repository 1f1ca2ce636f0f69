-- ===== src/Dagster/Schema/Mirror.antt =====
-- The Arrow schemas of bronze_schema.py and its copies against the Iceberg schemas.
use bluesky_trends.Prelude.{
  ℕ, String, ◌≡◌, refl, not, Option, none, some, List, [], ◌∷◌, map, ◌==◌, if◌then◌else◌,
}
use bluesky_trends.Dagster.Schema.{
  FieldType, integer, long, string, timestamptz, string_list, NestedField, ArrowType, int32, int64,
  utf8, timestamp_us_utc, utf8_list, ArrowField, partition_spec, bronze_columns,
  bronze_columns_likes, bronze_columns_follows, posts_iceberg_schema, posts_arrow_schema,
  likes_iceberg_schema, likes_arrow_schema, follows_iceberg_schema, follows_arrow_schema,
}

-- The Arrow type that pyiceberg writes to a field of the type.
abbrev pub arrow_type_of : FieldType → ArrowType
arrow_type_of integer = int32
arrow_type_of long = int64
arrow_type_of string = utf8
arrow_type_of timestamptz = timestamp_us_utc
arrow_type_of string_list = utf8_list

abbrev pub mirrored : NestedField → ArrowField
mirrored f = record {
  name = f.name;
  arrow_type = arrow_type_of f.field_type;
  nullable = not f.required;
}

-- The type of the field with this id.
unfoldable pub type_of_field : ℕ → List NestedField → Option (String × FieldType)
type_of_field i [] = none
type_of_field i (f ∷ fs) =
    if i == f.field_id then some (f.name, f.field_type) else type_of_field i fs

-- The Arrow schema has the Iceberg schema's names, types and nullability, field for field, the
-- names are the columns, and the partition is by a time stamp with a zone, `created_at`.
abbrev pub Mirrors : List String → List NestedField → List ArrowField → Type 0
Mirrors columns iceberg arrow =
    (map mirrored iceberg ≡ arrow)
    × (map (λ (f : NestedField). f.name) iceberg ≡ columns)
    × (type_of_field partition_spec.source_id iceberg ≡ some ("created_at", timestamptz))

-- The Arrow schemas of the posts, likes and follows tables mirror their Iceberg schemas field for
-- field in name, type and nullability; the names are the columns of the decoders and the landing
-- tables; and each table is partitioned by its time stamp `created_at`.
pub arrow_schemas_mirror :
    Mirrors bronze_columns posts_iceberg_schema posts_arrow_schema
    × Mirrors bronze_columns_likes likes_iceberg_schema likes_arrow_schema
    × Mirrors bronze_columns_follows follows_iceberg_schema follows_arrow_schema
unfolding posts_iceberg_schema posts_arrow_schema likes_iceberg_schema likes_arrow_schema
    follows_iceberg_schema follows_arrow_schema type_of_field
arrow_schemas_mirror = ((refl, refl, refl), (refl, refl, refl), (refl, refl, refl))
