-- ===== src/Tests/Settings.antt =====
-- The settings, the costs and the tools over lists and reminders on concrete inputs.
use ezra.Common.{
  take, select, not, ℕ, ◌+◌, ◌*◌, ◌-◌, String, true, none, some, List, [], ◌∷◌, if◌then◌else◌,
  str_eq, any, returned, ◌≡◌, refl,
}
use ezra.Hitl.Value.{Value, obj, field, end, str, get, non_empty}
use ezra.Agent.Route.{standard, deep}
use ezra.Ops.Config.{
  Env, EnvText, ◌<*>◌, off, low, medium, option_of, check_tiers, comma_list, tiers_of,
  parse_wa_version, number_of, number_from, check_jids,
}
use ezra.Ops.Config.Data.{Config, ProductionConfig}
use ezra.Ops.Config.Variables.{
  read_database_url, read_anthropic_api_key, read_voyage_api_key, read_cheap_model_id,
  read_reasoning_model_id, read_reasoning_effort, read_turn_routing, read_typesafe_api_key,
  read_jev_model, read_fast_model_id, read_deep_model_id, read_fast_effort, read_deep_effort,
  read_turn_routing_tiers, read_langfuse_public_key, read_langfuse_secret_key,
  read_langfuse_base_url, read_alert_channel_token, read_alert_channel_chat_id,
  read_deadman_ping_url, read_wa_session_dir, read_wa_client_version, read_approval_ttl_hours,
  read_google_sa_key_b64, read_calendar_id_husband, read_calendar_id_wife,
}
use ezra.Ops.Config.Schema.{
  read_spine, read_routing, read_telemetry, read_household, read_env, read_production,
}
use ezra.Ops.Config.Load.{load_config, load_production_config}
use ezra.Ops.Config.Agree.{Agrees, load_config-Agrees}
use ezra.Ops.Config.Sound.{IsSound, load_config-IsSound}
use ezra.Ops.Config.Production.{IsReady, load_production_config-IsReady}
use ezra.Ops.Costs.{Observation, CostClock, cost_of, tokens_of}
use ezra.Ops.RouterPanel.{is_pre_rule, RouteLogRow, RouterHealth, count_of, derive_router_health}
use mathlib.Core.List.{reverse}
use ezra.Ops.RouterPanel.Charged
use ezra.Ops.RouterPanel.Charged.{derive_router_health-Charged}
use ezra.Ops.Costs.Response.{get_costs, cents}
use ezra.Ops.Costs.Folded.{sum_where, this_month, last_month, get_costs-sums}
use ezra.Tools.Lists.Shown.{adds, marks, call_all-shows}
use ezra.Tools.Lists.Shown
use ezra.Tools.Reminders.{ReminderText}
use ezra.Tools.Reminders.Due.{creates, cancels, call_all-due}
use ezra.Tools.Reminders.Due
use ezra.Orchestration.TimeZone.{WallTime}

-- What is left to its default.
abbrev unset : List String
unset =
    "REASONING_EFFORT" ∷ "TURN_ROUTING" ∷ "TYPESAFE_API_KEY" ∷ "FAST_EFFORT" ∷ "DEEP_EFFORT"
    ∷ "TURN_ROUTING_TIERS" ∷ "WA_CLIENT_VERSION" ∷ "APPROVAL_TTL_HOURS" ∷ []

abbrev test_env : Env
test_env name = if any (str_eq name) unset then none else some "x"

abbrev key_file : Value
key_file = obj (field "client_email" (str "e") (field "private_key" (str "k") end))

abbrev plain : EnvText ℕ
plain = record {
  trim = λ s. s;
  is_url = λ s. true;
  positive = λ s. none;
  positive_int = λ s. none;
  twelve = 12;
  default_port = 8_787;
  fifty = 50;
  json_of_base64 = λ s. returned key_file;
  no_string = "no string";
  too_short = "too short";
  no_option = "no option";
  no_number = "no number";
}

abbrev test_config : Config ℕ
test_config = record {
  database_url = "x";
  anthropic_api_key = "x";
  voyage_api_key = "x";
  cheap_model_id = "x";
  reasoning_model_id = "x";
  reasoning_effort = some low;
  langfuse_public_key = "x";
  langfuse_secret_key = "x";
  langfuse_base_url = "x";
  alert_channel_token = "x";
  alert_channel_chat_id = "x";
  deadman_ping_url = "x";
  wa_session_dir = "x";
  wa_client_version = record { major = 2; minor = 3_000; patch = 1_043_857_760 };
  approval_ttl_hours = 12;
  google_service_account = record { client_email = "e"; private_key = "k" };
  calendar_ids = record { husband = "x"; wife = "x" };
  turn_routing = record {
    mode = off;
    typesafe_api_key = none;
    jev_model = "x";
    fast_model_id = "x";
    deep_model_id = "x";
    fast_effort = some low;
    deep_effort = some medium;
    enabled_tiers = standard ∷ deep ∷ [];
  };
}

abbrev test_production : ProductionConfig ℕ
test_production = record {
  config = test_config;
  husband_jids = "x" ∷ [];
  wife_jids = "x" ∷ [];
  household_conversations = "x" ∷ [];
}

loads : load_config plain test_env ≡ returned test_config
unfolding load_config read_env read_spine read_routing read_telemetry read_household ◌<*>◌
    read_database_url read_anthropic_api_key read_voyage_api_key read_cheap_model_id
    read_reasoning_model_id read_reasoning_effort read_turn_routing read_typesafe_api_key
    read_jev_model read_fast_model_id read_deep_model_id read_fast_effort read_deep_effort
    read_turn_routing_tiers read_langfuse_public_key read_langfuse_secret_key read_langfuse_base_url
    read_alert_channel_token read_alert_channel_chat_id read_deadman_ping_url read_wa_session_dir
    read_wa_client_version read_approval_ttl_hours read_google_sa_key_b64 read_calendar_id_husband
    read_calendar_id_wife check_tiers comma_list tiers_of option_of parse_wa_version number_of
    number_from get non_empty
loads = refl

load_config-Agrees_example : Agrees plain test_env test_config
load_config-Agrees_example = load_config-Agrees plain test_env test_config loads

load_config-IsSound_example : IsSound test_config
load_config-IsSound_example = load_config-IsSound plain test_env test_config loads

reads_production : load_production_config plain test_env ≡ returned test_production
unfolding load_production_config load_config read_production read_env read_spine read_routing
    read_telemetry read_household ◌<*>◌ read_database_url read_anthropic_api_key read_voyage_api_key
    read_cheap_model_id read_reasoning_model_id read_reasoning_effort read_turn_routing
    read_typesafe_api_key read_jev_model read_fast_model_id read_deep_model_id read_fast_effort
    read_deep_effort read_turn_routing_tiers read_langfuse_public_key read_langfuse_secret_key
    read_langfuse_base_url read_alert_channel_token read_alert_channel_chat_id read_deadman_ping_url
    read_wa_session_dir read_wa_client_version read_approval_ttl_hours read_google_sa_key_b64
    read_calendar_id_husband read_calendar_id_wife check_tiers comma_list tiers_of option_of
    parse_wa_version number_of number_from get non_empty check_jids
reads_production = refl

load_production_config-IsReady_example : IsReady plain test_env test_production
load_production_config-IsReady_example =
    load_production_config-IsReady plain test_env test_production reads_production

-- Days are the texts of one digit.
abbrev cost_clock : CostClock
cost_clock = record {
  start_of = λ day. if str_eq day "2" then 20 else 10;
  month_start = λ now. 20;
  prev_month_start = λ now. 10;
  days_ago = λ now i. "2";
}

abbrev observed : String → Observation
observed day = record {
  usage = some (record { input = 100; output = 10; cache_read = 50; cache_write = 0 });
  start_day = some day;
}

abbrev seen : List Observation
seen = observed "1" ∷ observed "2" ∷ observed "2" ∷ []

get_costs-sums_example :
    ((get_costs cost_clock 50 25 seen).month_cost
      ≡ cents (cost_of (sum_where (this_month cost_clock 25) seen)))
    × ((get_costs cost_clock 50 25 seen).last_month_cost
        ≡ cents (cost_of (sum_where (last_month cost_clock 25) seen)))
    × ((get_costs cost_clock 50 25 seen).tokens_month
        ≡ tokens_of (sum_where (this_month cost_clock 25) seen))
get_costs-sums_example = get_costs-sums cost_clock 25 50 seen

abbrev shopping : List Shown.ListCall
shopping =
    adds "i1" 1 "groceries" "milk" "Ann" ∷ adds "i2" 2 "groceries" "tea" "Ben" ∷ marks "i1" 3 ∷ []

call_all-shows_example :
    Shown.is_shown "groceries" "i2" (Shown.call_all shopping [])
    ≡ Shown.expected "groceries" "i2" (Shown.is_shown "groceries" "i2" []) shopping
call_all-shows_example = call_all-shows "groceries" "i2" shopping []

abbrev reminder_text : ReminderText
reminder_text = record {
  text_of = λ n. "n";
  instant_label = λ i. "then";
  utc = λ w. w.hour * 60 + w.minute;
  digits = λ i. i - 300;
}

abbrev noon : WallTime
noon = record { year = 2_026; month = 5; day = 1; hour = 12; minute = 0 }

abbrev reminding : List Due.ReminderCall
reminding =
    creates "r1" 1 "family" "call" noon "Ann"
    ∷ creates "r2" 2 "family" "post" noon "Ben"
    ∷ cancels "r2"
    ∷ []

call_all-due_example :
    Due.is_due 1_020 "r1" (Due.call_all reminder_text reminding [])
    ≡ Due.expected reminder_text 1_020 "r1" (Due.is_due 1_020 "r1" []) reminding
call_all-due_example = call_all-due reminder_text 1_020 "r1" reminding []

abbrev logged : String → ℕ → String → RouteLogRow
logged source at tier = record {
  conversation_id = "family";
  created_at = at;
  tier = tier;
  proposed = tier;
  source = source;
  latency_ms = some 400;
  answers = some (record {
    asks_anything = 900_000;
    several_requests = 0;
    refers_back = 0;
    weighs_options = 0;
    schedule_reasoning = 0;
    corrects_previous = 800_000;
  });
}

abbrev route_log : List RouteLogRow
route_log =
    logged "jev" 1 "fast"
    ∷ logged "fallback-error:timeout" 2 "standard"
    ∷ logged "jev" 3 "standard"
    ∷ []

abbrev panel : RouterHealth
panel = derive_router_health 10 3 route_log

derive_router_health-Charged_example :
    Charged.IsStreak panel.streak
      (take 20 (select (λ r. not (is_pre_rule r)) (Charged.newest_first route_log)))
    × (count_of "standard" panel.charges.corrections
        ≡ Charged.charged "standard" (reverse (Charged.newest_first route_log)) [])
derive_router_health-Charged_example = derive_router_health-Charged 10 3 route_log "standard"
