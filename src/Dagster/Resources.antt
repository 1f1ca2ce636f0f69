-- ===== src/Dagster/Resources.antt =====
-- dagster/bsky_dagster/resources: the clients of Kafka, of Iceberg and of ClickHouse as the settings
-- with which they are constructed. The clients themselves are the libraries'.
use bluesky_trends.Prelude.{ℕ, String, Bool, true, false, Option, List, [], ◌∷◌}
use bluesky_trends.Prelude.StrDict.{StrDict}
use bluesky_trends.Json.{Fields}
use bluesky_trends.Dagster.Config.{Settings}

-- A consumer of confluent-kafka, and the topics that it subscribes to.
pub record Consumer : Type 0 where
  pub bootstrap_servers : String
  pub group_id : String
  pub enable_auto_commit : Bool
  pub auto_offset_reset : String
  pub enable_partition_eof : Bool
  pub topics : List String

-- A deserializer of the schema registry, with its reader schema and its `from_dict`.
pub record AvroDeserializer : Type 0 where
  pub registry_url : String
  pub schema_file : String
  pub from_dict : Option Fields → Option Fields

-- A catalog of pyiceberg.
pub record RestCatalog : Type 0 where
  pub name : String
  pub properties : StrDict String

-- A client of clickhouse-connect.
pub record Client : Type 0 where
  pub host : String
  pub port : ℕ
  pub username : String
  pub password : String
  pub database : String

-- `_from_avro_dict`
abbrev pub from_avro_dict : Option Fields → Option Fields
from_avro_dict d = d

module _ (settings : Settings) where
  abbrev pub build_deserializer : String → AvroDeserializer
  build_deserializer avsc_filename = record {
    registry_url = settings.schema_registry_url;
    schema_file = avsc_filename;
    from_dict = from_avro_dict;
  }

  abbrev pub build_consumer : String → String → Consumer
  build_consumer topic group = record {
    bootstrap_servers = settings.kafka_bootstrap;
    group_id = group;
    enable_auto_commit = false;
    auto_offset_reset = "earliest";
    enable_partition_eof = true;
    topics = topic ∷ [];
  }

  abbrev pub load_catalog : RestCatalog
  load_catalog = record {
    name = "bsky";
    properties =
        ("uri", settings.iceberg_rest_uri)
        ∷ ("warehouse", settings.iceberg_warehouse)
        ∷ ("s3.endpoint", settings.s3_endpoint)
        ∷ ("s3.access-key-id", settings.s3_access_key_id)
        ∷ ("s3.secret-access-key", settings.s3_secret_access_key)
        ∷ ("s3.path-style-access", "true")
        ∷ ("s3.region", settings.s3_region)
        ∷ [];
  }

  abbrev pub client : Client
  client = record {
    host = settings.clickhouse_host;
    port = settings.clickhouse_port;
    username = settings.clickhouse_user;
    password = settings.clickhouse_password;
    database = settings.clickhouse_database;
  }
