-- ===== src/Config.antt =====
-- internal/config/config.go: the settings, and their reading from the environment, which holds what
-- godotenv adds to it.
pub mod Getters
pub mod Units
pub mod Sizes
use s3nitor.Prelude.{
  ℕ, ◌+◌, ◌-◌, ◌*◌, ◌^◌, String, str_append, str_eq, Bool, true, false, ◌&&◌, ◌||◌, Option, none,
  some, List, [], ◌∷◌, map, leb, ltb, ◌==◌, if◌then◌else◌,
}
use s3nitor.Prelude.Int.{ℤ, pos, negsuc}
use s3nitor.Scanner.{Duration, Float64, GoError, failure}
use s3nitor.Fallible.{Try, ok, err}
use s3nitor.Bytes.{codes, trim_space, upper, before_suffix, split}
use Getters.{
  mb, gb, Environment, Parsers, getenv, get_or_default, get_unless_set, get_list, get_int,
  get_duration, get_float, get_bytes,
}

pub record Config : Type 0 where
  pub db_driver : String
  pub db_dsn : String
  pub enable_otx : Bool
  pub enable_ioc : Bool
  pub enable_yara : Bool
  pub ioc_path : String
  pub yara_path : String
  pub yara_cmd : String
  pub otx_api_key : String
  pub s3_bucket : String
  pub s3_prefix : String
  pub s3_access_key : String
  pub s3_secret_key : String
  pub s3_endpoint : String
  pub s3_region : String
  pub reporter_type : String
  pub reporter_path : String
  pub es_url : String
  pub es_index : String
  pub es_username : String
  pub es_password : String
  pub es_api_key : String
  pub es_ca_cert : String
  pub es_insecure_skip_verify : Bool
  pub loki_url : String
  pub prometheus_url : String
  pub fetch_byte_budget : ℤ
  pub fetch_max_conns : ℤ
  pub max_object_size : ℤ
  pub analyze_cpu_limit : ℤ
  pub publish_batch_size : ℤ
  pub publish_flush_interval : Duration
  pub publish_max_bytes : ℤ
  pub stage_queue_size : ℤ
  pub spill_scanners : List String
  pub scanner_rate_per_min : List (String × Float64)
  pub pending_retry_base : Duration
  pub enable_sandbox : Bool
  pub sandbox_kind : String
  pub sandbox_url : String
  pub sandbox_api_key : String
  pub sandbox_http_timeout : Duration
  pub sandbox_max_object_size : ℤ
  pub sandbox_severity_medium : Float64
  pub sandbox_severity_high : Float64
  pub sandbox_severity_critical : Float64
  pub scan_timeout : Duration
  pub async_topic : String
  pub async_group_id : String
  pub async_poll_interval : Duration
  pub async_sweep_interval : Duration
  pub async_max_age : Duration
  pub pending_max_attempts : ℤ
  pub source_mode : String
  pub event_transport : String
  pub event_format : String
  pub redis_addr : String
  pub redis_password : String
  pub redis_key : String
  pub redis_db : ℤ
  pub kafka_brokers : List String
  pub kafka_topic : String
  pub kafka_group_id : String
  pub enable_vt : Bool
  pub vt_api_key : String
  pub vt_severity_medium : ℤ
  pub vt_severity_high : ℤ
  pub vt_daily_quota : ℤ
  pub intel_cache_ttl : Duration
  pub metrics_addr : String

unfoldable pub load : Environment → Parsers → Config
unfolding getenv get_or_default get_unless_set get_list get_int get_duration get_float get_bytes
load env p = record {
  db_driver = getenv env "DB_DRIVER";
  db_dsn = getenv env "DB_DSN";
  enable_otx = str_eq (getenv env "ENABLE_OTX") "true";
  enable_ioc = str_eq (getenv env "ENABLE_IOC") "true";
  enable_yara = str_eq (getenv env "ENABLE_YARA") "true";
  ioc_path = get_or_default env "IOC_PATH" "rules/ioc/";
  yara_path = get_or_default env "YARA_PATH" "rules/yara/";
  yara_cmd = get_or_default env "YARA_CMD" "yara";
  otx_api_key = getenv env "OTX_API_KEY";
  s3_bucket = getenv env "S3_BUCKET";
  s3_prefix = getenv env "S3_PREFIX";
  s3_access_key = getenv env "S3_ACCESS_KEY";
  s3_secret_key = getenv env "S3_SECRET_KEY";
  s3_endpoint = getenv env "S3_ENDPOINT";
  s3_region = getenv env "S3_REGION";
  reporter_type = getenv env "REPORTER_TYPE";
  reporter_path = getenv env "REPORTER_PATH";
  es_url = getenv env "ES_URL";
  es_index = getenv env "ES_INDEX";
  es_username = getenv env "ES_USERNAME";
  es_password = getenv env "ES_PASSWORD";
  es_api_key = getenv env "ES_API_KEY";
  es_ca_cert = getenv env "ES_CA_CERT";
  es_insecure_skip_verify = str_eq (getenv env "ES_INSECURE_SKIP_VERIFY") "true";
  loki_url = getenv env "LOKI_URL";
  prometheus_url = getenv env "PROMETHEUS_URL";
  fetch_byte_budget = get_bytes env p "FETCH_BYTE_BUDGET" (pos (512 * mb));
  fetch_max_conns = get_int env "FETCH_MAX_CONNS" (pos 16);
  max_object_size = get_bytes env p "MAX_OBJECT_SIZE" (pos (1 * gb));
  analyze_cpu_limit = get_int env "ANALYZE_CPU_LIMIT" (pos 0);
  publish_batch_size = get_int env "PUBLISH_BATCH_SIZE" (pos 100);
  publish_flush_interval = get_duration env p "PUBLISH_FLUSH_INTERVAL" (pos 2_000_000_000);
  publish_max_bytes = get_bytes env p "PUBLISH_MAX_BYTES" (pos (5 * mb));
  stage_queue_size = get_int env "STAGE_QUEUE_SIZE" (pos 1000);
  spill_scanners = get_list env p "SPILL_SCANNERS" ("otx" ∷ "virustotal" ∷ "sandbox" ∷ []);
  scanner_rate_per_min =
      ("otx", p.of_int (get_int env "OTX_RATE_PER_MIN" (pos 600)))
      ∷ ("virustotal", p.of_int (get_int env "VT_RATE_PER_MIN" (pos 4)))
      ∷ [];
  pending_retry_base = get_duration env p "PENDING_RETRY_BASE" (pos 30_000_000_000);
  enable_sandbox = str_eq (getenv env "ENABLE_SANDBOX") "true";
  sandbox_kind = get_or_default env "SANDBOX_KIND" "cape";
  sandbox_url = getenv env "SANDBOX_URL";
  sandbox_api_key = getenv env "SANDBOX_API_KEY";
  sandbox_http_timeout = get_duration env p "SANDBOX_HTTP_TIMEOUT" (pos 120_000_000_000);
  sandbox_max_object_size = get_bytes env p "SANDBOX_MAX_OBJECT_SIZE" (pos (100 * mb));
  sandbox_severity_medium = get_float env p "SANDBOX_SEVERITY_MEDIUM" (p.of_int (pos 3));
  sandbox_severity_high = get_float env p "SANDBOX_SEVERITY_HIGH" (p.of_int (pos 6));
  sandbox_severity_critical = get_float env p "SANDBOX_SEVERITY_CRITICAL" (p.of_int (pos 8));
  scan_timeout = get_duration env p "SCAN_TIMEOUT" (pos 120_000_000_000);
  async_topic = get_or_default env "ASYNC_TOPIC" "s3nitor-scan-async";
  async_group_id = get_or_default env "ASYNC_GROUP_ID" "s3nitor-async";
  async_poll_interval = get_duration env p "ASYNC_POLL_INTERVAL" (pos 30_000_000_000);
  async_sweep_interval = get_duration env p "ASYNC_SWEEP_INTERVAL" (pos 60_000_000_000);
  async_max_age = get_duration env p "ASYNC_MAX_AGE" (pos 21_600_000_000_000);
  pending_max_attempts = get_int env "PENDING_MAX_ATTEMPTS" (pos 5);
  source_mode = get_or_default env "SOURCE_MODE" "lister";
  event_transport = get_or_default env "EVENT_TRANSPORT" "redis";
  event_format = get_or_default env "EVENT_FORMAT" "minio";
  redis_addr = get_or_default env "REDIS_ADDR" "localhost:6379";
  redis_password = getenv env "REDIS_PASSWORD";
  redis_key = get_or_default env "REDIS_KEY" "s3nitor-events";
  redis_db = get_int env "REDIS_DB" (pos 0);
  kafka_brokers = get_list env p "KAFKA_BROKERS" ("localhost:9092" ∷ []);
  kafka_topic = get_or_default env "KAFKA_TOPIC" "s3nitor-events";
  kafka_group_id = get_or_default env "KAFKA_GROUP_ID" "s3nitor";
  enable_vt = str_eq (getenv env "ENABLE_VT") "true";
  vt_api_key = getenv env "VT_API_KEY";
  vt_severity_medium = get_int env "VT_SEVERITY_MEDIUM" (pos 3);
  vt_severity_high = get_int env "VT_SEVERITY_HIGH" (pos 10);
  vt_daily_quota = get_int env "VT_DAILY_QUOTA" (pos 500);
  intel_cache_ttl = get_duration env p "INTEL_CACHE_TTL" (pos 604_800_000_000_000);
  metrics_addr = get_unless_set env "METRICS_ADDR" ":8080";
}
