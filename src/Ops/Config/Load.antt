-- ===== src/Ops/Config/Load.antt =====
-- The loaders of src/ops/config.ts. What a loader throws is its message.
use ezra.Common.{
  String, Bool, true, false, Option, none, some, List, [], ◌∷◌, map, concat, join, Attempt,
  returned, threw,
}
use ezra.Tools.{Issue}
use ezra.Ops.Config.{Env, EnvText, Read, valid, invalid, ◌<*>◌, TurnRouting, off, shadow, on}
use ezra.Ops.Config.Data.{
  EnvData, BackofficeEnv, ProductionData, Config, TransportOpsConfig, ProductionConfig, SharedKeys,
  BackofficeConfig,
}
use ezra.Ops.Config.Variables.{
  read_wa_session_dir, read_wa_client_version, read_alert_channel_token, read_alert_channel_chat_id,
  read_deadman_ping_url, read_database_url, read_langfuse_public_key, read_langfuse_secret_key,
  read_langfuse_base_url, read_anthropic_api_key, read_voyage_api_key, read_google_sa_key_b64,
  read_calendar_id_husband, read_calendar_id_wife,
}
use ezra.Ops.Config.Schema.{read_env, read_production, read_backoffice}

abbrev pub issue_line : Issue → String
issue_line i = concat ("  " ∷ join "." i.path ∷ ": " ∷ i.message ∷ [])

unfoldable pub format_issues : List Issue → String
format_issues is = join "\n" (map issue_line is)

abbrev pub invalid_configuration : String → String
invalid_configuration issues = concat ("Invalid environment configuration:\n" ∷ issues ∷ [])

abbrev pub or_throw : {A : Type 0} → Read A → Attempt A
or_throw (valid a) = returned a
or_throw (invalid is) = threw (invalid_configuration (format_issues is))

-- The narrow loaders have a message of their own.
abbrev pub or_message : {A : Type 0} → String → Read A → Attempt A
or_message message (valid a) = returned a
or_message message (invalid is) = threw (invalid_configuration message)

abbrev pub routing_needs_key : TurnRouting → Option String → Bool
routing_needs_key off key = false
routing_needs_key shadow none = true
routing_needs_key on none = true
routing_needs_key shadow (some key) = false
routing_needs_key on (some key) = false

module _ {N : Type 0} where
  abbrev pub config_of : EnvData N → Config N
  config_of d = record {
    database_url = d.spine.database_url;
    anthropic_api_key = d.spine.anthropic_api_key;
    voyage_api_key = d.spine.voyage_api_key;
    cheap_model_id = d.spine.cheap_model_id;
    reasoning_model_id = d.spine.reasoning_model_id;
    reasoning_effort = d.spine.reasoning_effort;
    langfuse_public_key = d.telemetry.langfuse_public_key;
    langfuse_secret_key = d.telemetry.langfuse_secret_key;
    langfuse_base_url = d.telemetry.langfuse_base_url;
    alert_channel_token = d.telemetry.alert_channel_token;
    alert_channel_chat_id = d.telemetry.alert_channel_chat_id;
    deadman_ping_url = d.telemetry.deadman_ping_url;
    wa_session_dir = d.household.wa_session_dir;
    wa_client_version = d.household.wa_client_version;
    approval_ttl_hours = d.household.approval_ttl_hours;
    google_service_account = d.household.google_sa_key_b64;
    calendar_ids = record {
      husband = d.household.calendar_id_husband;
      wife = d.household.calendar_id_wife;
    };
    turn_routing = record {
      mode = d.routing.turn_routing;
      typesafe_api_key = d.routing.typesafe_api_key;
      jev_model = d.routing.jev_model;
      fast_model_id = d.routing.fast_model_id;
      deep_model_id = d.routing.deep_model_id;
      fast_effort = d.routing.fast_effort;
      deep_effort = d.routing.deep_effort;
      enabled_tiers = d.routing.turn_routing_tiers;
    };
  }

  -- The rule over two fields.
  abbrev pub under_rule : Bool → EnvData N → Attempt (Config N)
  under_rule true d =
      threw (invalid_configuration "  TYPESAFE_API_KEY: required when TURN_ROUTING is shadow or on")
  under_rule false d = returned (config_of d)

  abbrev pub take_data : Read (EnvData N) → Attempt (Config N)
  take_data (invalid is) = threw (invalid_configuration (format_issues is))
  take_data (valid d) =
      under_rule (routing_needs_key d.routing.turn_routing d.routing.typesafe_api_key) d

  abbrev pub with_config : ProductionData N → Attempt (Config N) → Attempt (ProductionConfig N)
  with_config d (threw e) = threw e
  with_config d (returned c) = returned (record {
    config = c;
    husband_jids = d.wa_jid_husband;
    wife_jids = d.wa_jid_wife;
    household_conversations = d.wa_household_conversations;
  })

  abbrev pub take_production :
      Attempt (Config N) → Read (ProductionData N) → Attempt (ProductionConfig N)
  take_production config (invalid is) = threw (invalid_configuration (format_issues is))
  take_production config (valid d) = with_config d config

  abbrev pub backoffice_config : BackofficeEnv N → SharedKeys → BackofficeConfig N
  backoffice_config d keys = record {
    token = d.backoffice_token;
    port = d.backoffice_port;
    dist_dir = d.backoffice_dist_dir;
    database_url = d.backoffice_database_url;
    monthly_budget_usd = d.backoffice_monthly_budget_usd;
    shared = keys;
  }

  -- The schema of the console is read first.
  abbrev pub take_backoffice :
      Read (BackofficeEnv N) → Read SharedKeys → Attempt (BackofficeConfig N)
  take_backoffice (invalid is) keys = threw (invalid_configuration (format_issues is))
  take_backoffice (valid d) (invalid is) = threw (invalid_configuration (format_issues is))
  take_backoffice (valid d) (valid keys) = returned (backoffice_config d keys)

module _ {N : Type 0} (o : EnvText N) (env : Env) where
  unfoldable pub load_config : Attempt (Config N)
  load_config = take_data (read_env o env)

  unfoldable pub load_production_config : Attempt (ProductionConfig N)
  load_production_config = take_production load_config (read_production o env)

  unfoldable pub load_transport_ops_config : Attempt TransportOpsConfig
  load_transport_ops_config = or_throw (
      valid (λ dir version token chat url. record {
        wa_session_dir = dir;
        wa_client_version = version;
        alert_channel_token = token;
        alert_channel_chat_id = chat;
        deadman_ping_url = url;
      })
      <*> read_wa_session_dir o env
      <*> read_wa_client_version o env
      <*> read_alert_channel_token o env
      <*> read_alert_channel_chat_id o env
      <*> read_deadman_ping_url o env)

  unfoldable pub load_wa_session_dir : Attempt String
  load_wa_session_dir =
      or_message "  WA_SESSION_DIR: must be a non-empty path" (read_wa_session_dir o env)

  unfoldable pub load_database_url : Attempt String
  load_database_url = or_message "  DATABASE_URL: required" (read_database_url o env)

  unfoldable pub read_shared : Read SharedKeys
  read_shared =
      valid (λ public secret base anthropic voyage account husband wife. record {
        langfuse_public_key = public;
        langfuse_secret_key = secret;
        langfuse_base_url = base;
        anthropic_api_key = anthropic;
        voyage_api_key = voyage;
        google_service_account = account;
        calendar_ids = record { husband = husband; wife = wife };
      })
      <*> read_langfuse_public_key o env
      <*> read_langfuse_secret_key o env
      <*> read_langfuse_base_url o env
      <*> read_anthropic_api_key o env
      <*> read_voyage_api_key o env
      <*> read_google_sa_key_b64 o env
      <*> read_calendar_id_husband o env
      <*> read_calendar_id_wife o env

  unfoldable pub load_backoffice_config : Attempt (BackofficeConfig N)
  load_backoffice_config = take_backoffice (read_backoffice o env) read_shared
