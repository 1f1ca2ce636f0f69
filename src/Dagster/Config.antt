-- ===== src/Dagster/Config.antt =====
-- dagster/bsky_dagster/config.py: the settings; a duration is in milliseconds.
use bluesky_trends.Prelude.{ℕ, String}

pub record Settings : Type 0 where
  pub kafka_bootstrap : String
  pub schema_registry_url : String
  pub topic_posts : String
  pub topic_likes : String
  pub topic_follows : String
  pub topic_dlq : String
  pub bronze_consumer_group : String
  pub bronze_consumer_group_likes : String
  pub bronze_consumer_group_follows : String
  pub bronze_batch_max_rows : ℕ
  pub bronze_batch_max_seconds : ℕ
  pub bronze_max_rows_per_run : ℕ
  pub iceberg_rest_uri : String
  pub iceberg_warehouse : String
  pub s3_endpoint : String
  pub s3_access_key_id : String
  pub s3_secret_access_key : String
  pub s3_region : String
  pub iceberg_namespace : String
  pub bronze_table : String
  pub bronze_table_likes : String
  pub bronze_table_follows : String
  pub clickhouse_host : String
  pub clickhouse_port : ℕ
  pub clickhouse_user : String
  pub clickhouse_password : String
  pub clickhouse_database : String
  pub landing_table : String
  pub landing_table_likes : String
  pub landing_table_follows : String
  pub landing_batch_rows : ℕ

-- The defaults of the class.
abbrev pub default_settings : Settings
default_settings = record {
  kafka_bootstrap = "localhost:19092";
  schema_registry_url = "http://localhost:8081";
  topic_posts = "bsky.posts.v1";
  topic_likes = "bsky.likes.v1";
  topic_follows = "bsky.follows.v1";
  topic_dlq = "bsky.dlq.v1";
  bronze_consumer_group = "dagster-bronze-posts";
  bronze_consumer_group_likes = "dagster-bronze-likes";
  bronze_consumer_group_follows = "dagster-bronze-follows";
  bronze_batch_max_rows = 10_000;
  bronze_batch_max_seconds = 5000;
  bronze_max_rows_per_run = 500_000;
  iceberg_rest_uri = "http://localhost:8181";
  iceberg_warehouse = "s3://iceberg/";
  s3_endpoint = "http://localhost:9100";
  s3_access_key_id = "minio";
  s3_secret_access_key = "minio12345";
  s3_region = "us-east-1";
  iceberg_namespace = "bronze";
  bronze_table = "bronze.posts";
  bronze_table_likes = "bronze.likes";
  bronze_table_follows = "bronze.follows";
  clickhouse_host = "localhost";
  clickhouse_port = 8123;
  clickhouse_user = "default";
  clickhouse_password = "";
  clickhouse_database = "bsky";
  landing_table = "posts_bronze_raw";
  landing_table_likes = "likes_bronze_raw";
  landing_table_follows = "follows_bronze_raw";
  landing_batch_rows = 50_000;
}
