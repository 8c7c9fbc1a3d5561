-- ===== src/Ops/Config/Data.antt =====
-- What the schemas of src/ops/config.ts read, and what its loaders return.
use ezra.Common.{String, Option, List}
use ezra.Agent.Route.{Tier}
use ezra.Transport.WaVersion.{WaVersion}
use ezra.Ops.Config.{TurnRouting, ReasoningEffort, ServiceAccount}

-- `envSchema`, in four parts, in its order.
pub record SpineEnv : Type 0 where
  pub database_url : String
  pub anthropic_api_key : String
  pub voyage_api_key : String
  pub cheap_model_id : String
  pub reasoning_model_id : String
  pub reasoning_effort : Option ReasoningEffort

pub record RoutingEnv : Type 0 where
  pub turn_routing : TurnRouting
  pub typesafe_api_key : Option String
  pub jev_model : String
  pub fast_model_id : String
  pub deep_model_id : String
  pub fast_effort : Option ReasoningEffort
  pub deep_effort : Option ReasoningEffort
  pub turn_routing_tiers : List Tier

pub record TelemetryEnv : Type 0 where
  pub langfuse_public_key : String
  pub langfuse_secret_key : String
  pub langfuse_base_url : String
  pub alert_channel_token : String
  pub alert_channel_chat_id : String
  pub deadman_ping_url : String

pub record HouseholdEnv (N : Type 0) : Type 0 where
  pub wa_session_dir : String
  pub wa_client_version : WaVersion
  pub approval_ttl_hours : N
  pub google_sa_key_b64 : ServiceAccount
  pub calendar_id_husband : String
  pub calendar_id_wife : String

pub record EnvData (N : Type 0) : Type 0 where
  pub spine : SpineEnv
  pub routing : RoutingEnv
  pub telemetry : TelemetryEnv
  pub household : HouseholdEnv N

pub record BackofficeEnv (N : Type 0) : Type 0 where
  pub backoffice_token : String
  pub backoffice_port : N
  pub backoffice_dist_dir : String
  pub backoffice_database_url : String
  pub backoffice_monthly_budget_usd : N

pub record ProductionData (N : Type 0) : Type 0 where
  pub shared : EnvData N
  pub wa_jid_husband : List String
  pub wa_jid_wife : List String
  pub wa_household_conversations : List String

pub record TurnRoutingConfig : Type 0 where
  pub mode : TurnRouting
  pub typesafe_api_key : Option String
  pub jev_model : String
  pub fast_model_id : String
  pub deep_model_id : String
  pub fast_effort : Option ReasoningEffort
  pub deep_effort : Option ReasoningEffort
  pub enabled_tiers : List Tier

pub record CalendarIds : Type 0 where
  pub husband : String
  pub wife : String

pub record Config (N : Type 0) : Type 0 where
  pub database_url : String
  pub anthropic_api_key : String
  pub voyage_api_key : String
  pub cheap_model_id : String
  pub reasoning_model_id : String
  pub reasoning_effort : Option ReasoningEffort
  pub langfuse_public_key : String
  pub langfuse_secret_key : String
  pub langfuse_base_url : String
  pub alert_channel_token : String
  pub alert_channel_chat_id : String
  pub deadman_ping_url : String
  pub wa_session_dir : String
  pub wa_client_version : WaVersion
  pub approval_ttl_hours : N
  pub google_service_account : ServiceAccount
  pub calendar_ids : CalendarIds
  pub turn_routing : TurnRoutingConfig

pub record TransportOpsConfig : Type 0 where
  pub wa_session_dir : String
  pub wa_client_version : WaVersion
  pub alert_channel_token : String
  pub alert_channel_chat_id : String
  pub deadman_ping_url : String

pub record ProductionConfig (N : Type 0) : Type 0 where
  pub config : Config N
  pub husband_jids : List String
  pub wife_jids : List String
  pub household_conversations : List String

-- What the console reads with the spine's schema.
pub record SharedKeys : Type 0 where
  pub langfuse_public_key : String
  pub langfuse_secret_key : String
  pub langfuse_base_url : String
  pub anthropic_api_key : String
  pub voyage_api_key : String
  pub google_service_account : ServiceAccount
  pub calendar_ids : CalendarIds

pub record BackofficeConfig (N : Type 0) : Type 0 where
  pub token : String
  pub port : N
  pub dist_dir : String
  pub database_url : String
  pub monthly_budget_usd : N
  pub shared : SharedKeys
