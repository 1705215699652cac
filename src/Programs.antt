-- ===== src/Programs.antt =====
-- cmd/s3scanner/main.go, cmd/s3nitor-async/main.go, cmd/s3nitor-dashboard/main.go: what the programs
-- choose by the configuration. What they start is not modelled.
pub mod Memory
pub mod Sizes
use s3nitor.Prelude.{
  String, str_append, str_eq, Bool, Option, some, none, true, false, not, ◌&&◌, ◌||◌, List, [], ◌∷◌,
  if◌then◌else◌,
}
use s3nitor.Prelude.Int.{ℤ}
use s3nitor.Scanner.{GoError, failure}
use s3nitor.Fallible.{Try, ok, err, ◌>>=◌}
use s3nitor.Config.{Config}
use s3nitor.Async.Worker.{Collector}
use s3nitor.Dashboard.Client.{Es, new_es}

-- Where work comes from, with the arguments of the constructors that are called.
data Origin : Type 0 where
  lister : Origin
  redis : String → String → String → ℤ → Origin
  kafka : List String → String → String → Origin

data Format : Type 0 where
  minio : Format

-- `%q` of a text is the parameter `quoted`.
module _ (quoted : String → String) where
  unfoldable build_decoder : Config → Try Format
  build_decoder cfg =
      if str_eq cfg.event_format "" || str_eq cfg.event_format "minio"
      then ok minio
      else err (
          failure (
            str_append "EVENT_FORMAT="
              (str_append (quoted cfg.event_format) " is not implemented yet; only minio is")))

  transport_of : Config → Try Origin
  transport_of cfg =
      if str_eq cfg.event_transport "redis"
      then ok (redis cfg.redis_addr cfg.redis_password cfg.redis_key cfg.redis_db)
      else (if str_eq cfg.event_transport "kafka"
          then ok (kafka cfg.kafka_brokers cfg.kafka_topic cfg.kafka_group_id)
          else err (
              failure (
                str_append "EVENT_TRANSPORT=" (
                  str_append (quoted cfg.event_transport)
                    " is not supported; use redis or kafka"))))

  unfoldable build_source : Config → Try Origin
  unfolding build_decoder transport_of
  build_source cfg =
      if str_eq cfg.source_mode "" || str_eq cfg.source_mode "lister"
      then ok lister
      else (if str_eq cfg.source_mode "event"
          then (build_decoder cfg >>= λ format. transport_of cfg)
          else err (
              failure (
                str_append "SOURCE_MODE="
                  (str_append (quoted cfg.source_mode) " is not supported; use lister or event"))))

-- Whether the scanner publishes its continuations to a topic.
unfoldable is_publishing : Config → Bool
is_publishing cfg =
    str_eq cfg.event_transport "kafka" && elim cfg.kafka_brokers [ [] ↦ false | b ∷ bs ↦ true ]

-- Whether the async worker consumes that topic.
unfoldable is_consuming : Config → Bool
is_consuming cfg = str_eq cfg.source_mode "event" && str_eq cfg.event_transport "kafka"

-- The collectors of the async worker, for a sandbox that is enabled or not.
unfoldable collectors : GoError → Bool → Collector → Try (List Collector)
collectors no_collectors enabled c = if enabled then ok (c ∷ []) else err no_collectors

unfoldable dashboard_addr : String → String
dashboard_addr addr = if str_eq addr "" then ":8081" else addr

unfoldable dashboard_client : Config → Try Es
unfolding new_es
dashboard_client cfg =
    if str_eq cfg.es_url "" || str_eq cfg.es_index ""
    then err (
        failure "ES_URL and ES_INDEX are required: the dashboard reads findings from Elasticsearch")
    else ok (new_es cfg.es_url cfg.es_index cfg.es_username cfg.es_password cfg.es_api_key)

-- `opened` is what NewDB answers; without a database the queue's panel stays empty.
unfoldable ledger_of {ℓ} : {D : Type ℓ} → Config → Try D → Option D
ledger_of cfg (err e) = none
ledger_of cfg (ok d) =
    if not (str_eq cfg.db_dsn "") && not (str_eq cfg.db_driver "") then some d else none
