-- ===== src/Ops/Config/Schema.antt =====
-- The objects of src/ops/config.ts that the variables make up.
use Prim.Native.String.{len}
use ezra.Common.{ltb, String, List, if◌then◌else◌, returned, threw}
use ezra.Ops.Config.Data.{
  SpineEnv, RoutingEnv, TelemetryEnv, HouseholdEnv, EnvData, BackofficeEnv, ProductionData,
}
use ezra.Ops.Config.Variables.{
  need, given, read_database_url, read_anthropic_api_key, read_voyage_api_key, read_cheap_model_id,
  read_reasoning_model_id, read_reasoning_effort, read_turn_routing, read_typesafe_api_key,
  read_jev_model, read_fast_model_id, read_deep_model_id, read_fast_effort, read_deep_effort,
  read_turn_routing_tiers, read_langfuse_public_key, read_langfuse_secret_key,
  read_langfuse_base_url, read_alert_channel_token, read_alert_channel_chat_id,
  read_deadman_ping_url, read_wa_session_dir, read_wa_client_version, read_approval_ttl_hours,
  read_google_sa_key_b64, read_calendar_id_husband, read_calendar_id_wife,
}
use ezra.Ops.Config.{
  Env, EnvText, Read, valid, ◌<*>◌, member, with_default, text, or_issue, check_jids,
}

abbrev token_message : String
token_message =
    "required — long random bearer token (>= 32 chars), defence-in-depth behind the tailnet"

module _ {N : Type 0} (o : EnvText N) (env : Env) where
  unfoldable pub read_spine : Read SpineEnv
  read_spine =
      valid
        (λ database_url anthropic_api_key voyage_api_key cheap_model_id reasoning_model_id
            reasoning_effort.
          record {
            database_url = database_url;
            anthropic_api_key = anthropic_api_key;
            voyage_api_key = voyage_api_key;
            cheap_model_id = cheap_model_id;
            reasoning_model_id = reasoning_model_id;
            reasoning_effort = reasoning_effort;
          })
      <*> read_database_url o env
      <*> read_anthropic_api_key o env
      <*> read_voyage_api_key o env
      <*> read_cheap_model_id o env
      <*> read_reasoning_model_id o env
      <*> read_reasoning_effort o env

  unfoldable pub read_routing : Read RoutingEnv
  read_routing =
      valid
        (λ turn_routing typesafe_api_key jev_model fast_model_id deep_model_id fast_effort
            deep_effort turn_routing_tiers.
          record {
            turn_routing = turn_routing;
            typesafe_api_key = typesafe_api_key;
            jev_model = jev_model;
            fast_model_id = fast_model_id;
            deep_model_id = deep_model_id;
            fast_effort = fast_effort;
            deep_effort = deep_effort;
            turn_routing_tiers = turn_routing_tiers;
          })
      <*> read_turn_routing o env
      <*> read_typesafe_api_key o env
      <*> read_jev_model o env
      <*> read_fast_model_id o env
      <*> read_deep_model_id o env
      <*> read_fast_effort o env
      <*> read_deep_effort o env
      <*> read_turn_routing_tiers o env

  unfoldable pub read_telemetry : Read TelemetryEnv
  read_telemetry =
      valid
        (λ langfuse_public_key langfuse_secret_key langfuse_base_url alert_channel_token
            alert_channel_chat_id deadman_ping_url.
          record {
            langfuse_public_key = langfuse_public_key;
            langfuse_secret_key = langfuse_secret_key;
            langfuse_base_url = langfuse_base_url;
            alert_channel_token = alert_channel_token;
            alert_channel_chat_id = alert_channel_chat_id;
            deadman_ping_url = deadman_ping_url;
          })
      <*> read_langfuse_public_key o env
      <*> read_langfuse_secret_key o env
      <*> read_langfuse_base_url o env
      <*> read_alert_channel_token o env
      <*> read_alert_channel_chat_id o env
      <*> read_deadman_ping_url o env

  unfoldable pub read_household : Read (HouseholdEnv N)
  read_household =
      valid
        (λ wa_session_dir wa_client_version approval_ttl_hours google_sa_key_b64 calendar_id_husband
            calendar_id_wife.
          record {
            wa_session_dir = wa_session_dir;
            wa_client_version = wa_client_version;
            approval_ttl_hours = approval_ttl_hours;
            google_sa_key_b64 = google_sa_key_b64;
            calendar_id_husband = calendar_id_husband;
            calendar_id_wife = calendar_id_wife;
          })
      <*> read_wa_session_dir o env
      <*> read_wa_client_version o env
      <*> read_approval_ttl_hours o env
      <*> read_google_sa_key_b64 o env
      <*> read_calendar_id_husband o env
      <*> read_calendar_id_wife o env

  -- `envSchema.safeParse(env)`
  unfoldable pub read_env : Read (EnvData N)
  read_env =
      valid (λ spine routing telemetry household. record {
        spine = spine;
        routing = routing;
        telemetry = telemetry;
        household = household;
      })
      <*> read_spine
      <*> read_routing
      <*> read_telemetry
      <*> read_household

  abbrev pub jid_list : String → String → Read (List String)
  jid_list name message = member env name (text message (check_jids o.trim message))

  -- `productionEnvSchema.safeParse(env)`
  unfoldable pub read_production : Read (ProductionData N)
  read_production =
      valid (λ shared husband wife conversations. record {
        shared = shared;
        wa_jid_husband = husband;
        wa_jid_wife = wife;
        wa_household_conversations = conversations;
      })
      <*> read_env
      <*> jid_list "WA_JID_HUSBAND" "required — comma-separated sender JIDs that are the husband"
      <*> jid_list "WA_JID_WIFE" "required — comma-separated sender JIDs that are the wife"
      <*> jid_list "WA_HOUSEHOLD_CONVERSATIONS"
          "required — comma-separated chat JIDs the bot serves (the household group; optionally the two DMs)"

  -- `backofficeEnvSchema.safeParse(env)`
  unfoldable pub read_backoffice : Read (BackofficeEnv N)
  read_backoffice =
      valid (λ token port dir database budget. record {
        backoffice_token = token;
        backoffice_port = port;
        backoffice_dist_dir = dir;
        backoffice_database_url = database;
        backoffice_monthly_budget_usd = budget;
      })
      <*> member env "BACKOFFICE_TOKEN"
          (text o.no_string (λ s. if ltb (len s) 32 then threw token_message else returned s))
      <*> member env "BACKOFFICE_PORT"
          (with_default o.default_port (λ s. or_issue o.no_number (o.positive_int s)))
      <*> member env "BACKOFFICE_DIST_DIR" (given o "backoffice/dist")
      <*> member env "BACKOFFICE_DATABASE_URL"
          (need o "required — SELECT-only postgres connection string for the read-only console")
      <*> member env "BACKOFFICE_MONTHLY_BUDGET_USD"
          (with_default o.fifty (λ s. or_issue o.no_number (o.positive s)))
