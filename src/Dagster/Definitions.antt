-- ===== src/Dagster/Definitions.antt =====
-- dagster/bsky_dagster/definitions.py with the decorators of the assets and the checks, and the
-- translator of assets/dbt.py: the code location as data. What the dbt manifest holds is a parameter.
use bluesky_trends.Prelude.{
  String, Bool, true, false, Option, none, some, List, [], ◌∷◌, ◌++◌, str_eq, if◌then◌else◌,
}
use bluesky_trends.Prelude.StrDict
use bluesky_trends.Prelude.StrDict.{StrDict}
use bluesky_trends.Exceptions.{Result, ok, raised, key_error}

-- An asset: its key, the keys of those before it, and its group.
pub record AssetSpec : Type 0 where
  pub key : String
  pub deps : List String
  pub group_name : Option String

-- `@asset_check`
pub record CheckSpec : Type 0 where
  pub name : String
  pub asset : String
  pub blocking : Bool

abbrev pub bronze_spec : String → AssetSpec
bronze_spec key = record { key = key; deps = []; group_name = some "bronze" }

abbrev pub landing_spec : String → String → AssetSpec
landing_spec key bronze = record { key = key; deps = bronze ∷ []; group_name = some "landing" }

-- The assets of `defs` but those of dbt, in their order.
abbrev pub own_assets : List AssetSpec
own_assets =
    bronze_spec "posts_bronze"
    ∷ landing_spec "posts_landing" "posts_bronze"
    ∷ bronze_spec "likes_bronze"
    ∷ landing_spec "likes_landing" "likes_bronze"
    ∷ bronze_spec "follows_bronze"
    ∷ landing_spec "follows_landing" "follows_bronze"
    ∷ []

abbrev pub check : String → String → Bool → CheckSpec
check name asset blocking = record { name = name; asset = asset; blocking = blocking }

abbrev pub asset_checks : List CheckSpec
asset_checks =
    check "check_bronze_freshness" "posts_bronze" false
    ∷ check "check_mart_volume" "mart_posts_by_lang_daily" false
    ∷ check "check_stg_null_rate" "stg_posts" true
    ∷ check "check_likes_bronze_freshness" "likes_bronze" false
    ∷ check "check_likes_mart_volume" "mart_likes_by_subject_daily" false
    ∷ check "check_likes_stg_null_rate" "stg_likes" true
    ∷ check "check_follows_bronze_freshness" "follows_bronze" false
    ∷ check "check_follows_mart_volume" "mart_follows_by_subject_daily" false
    ∷ check "check_follows_stg_null_rate" "stg_follows" true
    ∷ []

-- `_SOURCE_TO_LANDING`
abbrev pub source_to_landing : StrDict String
source_to_landing =
    ("posts_bronze_raw", "posts_landing")
    ∷ ("likes_bronze_raw", "likes_landing")
    ∷ ("follows_bronze_raw", "follows_landing")
    ∷ []

-- What the translator reads of a dbt node.
pub record DbtProps : Type 0 where
  pub resource_type : String
  pub name : String

abbrev pub or_key_error : String → Option String → Result String
or_key_error name none = raised (key_error name)
or_key_error name (some landing) = ok landing

-- `get_asset_key`, where `default_key` is that of dagster-dbt.
unfoldable pub get_asset_key : (DbtProps → String) → DbtProps → Result String
get_asset_key default_key props =
    if str_eq props.resource_type "source"
    then or_key_error props.name (StrDict.lookup props.name source_to_landing)
    else ok (default_key props)

-- A node of the manifest, and the nodes that it depends on.
pub record DbtModel : Type 0 where
  pub props : DbtProps
  pub parents : List DbtProps

module _ (default_key : DbtProps → String) where
  abbrev pub and_key : Result String → Result (List String) → Result (List String)
  and_key (ok k) (ok ks) = ok (k ∷ ks)
  and_key (ok k) (raised e) = raised e
  and_key (raised e) ks = raised e

  unfoldable pub keys_of : List DbtProps → Result (List String)
  unfolding get_asset_key StrDict.lookup
  keys_of [] = ok []
  keys_of (p ∷ ps) = and_key (get_asset_key default_key p) (keys_of ps)

  abbrev pub dbt_spec : Result String → Result (List String) → Result AssetSpec
  dbt_spec (ok k) (ok ks) = ok (record { key = k; deps = ks; group_name = none })
  dbt_spec (ok k) (raised e) = raised e
  dbt_spec (raised e) ks = raised e

  abbrev pub and_spec : Result AssetSpec → Result (List AssetSpec) → Result (List AssetSpec)
  and_spec (ok a) (ok l) = ok (a ∷ l)
  and_spec (ok a) (raised e) = raised e
  and_spec (raised e) l = raised e

  -- `@dbt_assets`: an asset for each model, with the keys that the translator gives.
  unfoldable pub dbt_assets : List DbtModel → Result (List AssetSpec)
  unfolding keys_of get_asset_key StrDict.lookup
  dbt_assets [] = ok []
  dbt_assets (m ∷ ms) =
      and_spec (dbt_spec (get_asset_key default_key m.props) (keys_of m.parents)) (dbt_assets ms)

  -- `build_dbt_assets`, where `none` is that there is no manifest.
  unfoldable pub build_dbt_assets : Option (List DbtModel) → Result (List AssetSpec)
  unfolding dbt_assets
  build_dbt_assets none = ok []
  build_dbt_assets (some models) = dbt_assets models

  abbrev pub with_own : Result (List AssetSpec) → Result (List AssetSpec)
  with_own (ok l) = ok (own_assets ++ l)
  with_own (raised e) = raised e

  -- The assets of `defs`.
  unfoldable pub all_assets : Option (List DbtModel) → Result (List AssetSpec)
  all_assets manifest = with_own (build_dbt_assets manifest)
