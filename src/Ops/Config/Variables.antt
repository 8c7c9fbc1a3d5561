-- ===== src/Ops/Config/Variables.antt =====
-- The variables of the environment that src/ops/config.ts reads, one check for each.
use ezra.Common.{String, Option, none, some, List, str_eq, if◌then◌else◌, Attempt, returned, threw}
use ezra.Agent.Route.{Tier}
use ezra.Transport.WaVersion.{WaVersion}
use ezra.Ops.Config.{
  Env, EnvText, Read, member, with_default, defaulted, text, min_one, or_issue, option_of,
  TurnRouting, off, routing_modes, ReasoningEffort, low, medium, efforts, check_tiers,
  parse_wa_version, ServiceAccount, key_of,
}

abbrev deadman_message : String
deadman_message = "must be a URL — external dead-man check endpoint"

abbrev version_message : String
version_message = "must be a dotted triple, e.g. 2.3000.1043857760"

abbrev key_message : String
key_message = "must be base64 of the service-account key JSON (with client_email and private_key)"

module _ {N : Type 0} (o : EnvText N) where
  abbrev pub need : String → Option String → Attempt String
  need message = text o.no_string (min_one message)

  abbrev pub given : String → Option String → Attempt String
  given value = with_default value (min_one o.too_short)

  abbrev pub optional : Option String → Attempt (Option String)
  optional none = returned none
  optional (some s) = if str_eq s "" then threw o.too_short else returned (some s)

  abbrev pub one_of : {A : Type 0} → List (String × A) → A → Option String → Attempt A
  one_of options value = with_default value (λ s. or_issue o.no_option (option_of options s))

  abbrev pub url : String → String → Attempt String
  url message s = if o.is_url s then returned s else threw message

  abbrev pub check_key : String → Attempt ServiceAccount
  check_key s =
      if str_eq s ""
      then threw "required — base64 of the service-account key JSON (ADR-0004)"
      else or_issue key_message (key_of (o.json_of_base64 s))

  module _ (env : Env) where
    unfoldable pub read_database_url : Read String
    read_database_url =
        member env "DATABASE_URL" (need "required — postgres connection string, see .env.example")

    unfoldable pub read_anthropic_api_key : Read String
    read_anthropic_api_key =
        member env "ANTHROPIC_API_KEY" (need "required — Claude Console API key")

    unfoldable pub read_voyage_api_key : Read String
    read_voyage_api_key =
        member env "VOYAGE_API_KEY"
          (need "required — Voyage AI embeddings key (semantic recall, T28)")

    unfoldable pub read_cheap_model_id : Read String
    read_cheap_model_id = member env "CHEAP_MODEL_ID" (given "claude-haiku-4-5-20251001")

    unfoldable pub read_reasoning_model_id : Read String
    read_reasoning_model_id = member env "REASONING_MODEL_ID" (given "claude-sonnet-5-5")

    unfoldable pub read_reasoning_effort : Read (Option ReasoningEffort)
    read_reasoning_effort = member env "REASONING_EFFORT" (one_of efforts (some low))

    unfoldable pub read_turn_routing : Read TurnRouting
    read_turn_routing = member env "TURN_ROUTING" (one_of routing_modes off)

    unfoldable pub read_typesafe_api_key : Read (Option String)
    read_typesafe_api_key = member env "TYPESAFE_API_KEY" (optional)

    unfoldable pub read_jev_model : Read String
    read_jev_model = member env "JEV_MODEL" (given "jev-1.14.0")

    unfoldable pub read_fast_model_id : Read String
    read_fast_model_id = member env "FAST_MODEL_ID" (given "claude-haiku-5-5")

    unfoldable pub read_deep_model_id : Read String
    read_deep_model_id = member env "DEEP_MODEL_ID" (given "claude-opus-5-5")

    unfoldable pub read_fast_effort : Read (Option ReasoningEffort)
    read_fast_effort = member env "FAST_EFFORT" (one_of efforts (some low))

    unfoldable pub read_deep_effort : Read (Option ReasoningEffort)
    read_deep_effort = member env "DEEP_EFFORT" (one_of efforts (some medium))

    unfoldable pub read_turn_routing_tiers : Read (List Tier)
    read_turn_routing_tiers =
        member env "TURN_ROUTING_TIERS" (defaulted "standard,deep" (check_tiers o.trim))

    unfoldable pub read_langfuse_public_key : Read String
    read_langfuse_public_key =
        member env "LANGFUSE_PUBLIC_KEY" (need "required — Langfuse project public key")

    unfoldable pub read_langfuse_secret_key : Read String
    read_langfuse_secret_key =
        member env "LANGFUSE_SECRET_KEY" (need "required — Langfuse project secret key")

    unfoldable pub read_langfuse_base_url : Read String
    read_langfuse_base_url =
        member env "LANGFUSE_BASE_URL"
          (with_default "https://cloud.langfuse.com" (url "must be a URL"))

    unfoldable pub read_alert_channel_token : Read String
    read_alert_channel_token =
        member env "ALERT_CHANNEL_TOKEN" (need "required — independent alert channel bot token")

    unfoldable pub read_alert_channel_chat_id : Read String
    read_alert_channel_chat_id =
        member env "ALERT_CHANNEL_CHAT_ID" (need "required — Telegram chat id the alerts go to")

    unfoldable pub read_deadman_ping_url : Read String
    read_deadman_ping_url =
        member env "DEADMAN_PING_URL" (text deadman_message (url deadman_message))

    unfoldable pub read_wa_session_dir : Read String
    read_wa_session_dir = member env "WA_SESSION_DIR" (given ".wa-session")

    unfoldable pub read_wa_client_version : Read WaVersion
    read_wa_client_version =
        member env "WA_CLIENT_VERSION" (
          defaulted "2.3000.1043857760" (λ s. or_issue version_message (parse_wa_version o.trim s)))

    unfoldable pub read_approval_ttl_hours : Read N
    read_approval_ttl_hours =
        member env "APPROVAL_TTL_HOURS"
          (with_default o.twelve (λ s. or_issue o.no_number (o.positive s)))

    unfoldable pub read_google_sa_key_b64 : Read ServiceAccount
    read_google_sa_key_b64 = member env "GOOGLE_SA_KEY_B64" (text o.no_string check_key)

    unfoldable pub read_calendar_id_husband : Read String
    read_calendar_id_husband =
        member env "CALENDAR_ID_HUSBAND" (need "required — calendar id the husband-owner maps to")

    unfoldable pub read_calendar_id_wife : Read String
    read_calendar_id_wife =
        member env "CALENDAR_ID_WIFE" (need "required — calendar id the wife-owner maps to")
