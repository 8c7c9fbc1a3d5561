-- ===== src/Ops/Config/Fields.antt =====
-- What a configuration that has been loaded can be relied on for.
use ezra.Common.{◌≡◌, refl, subst}
use ezra.Ops.Config.{Env, EnvText, Read, valid, invalid, ◌<*>◌}
use ezra.Ops.Config.Data.{EnvData, SpineEnv, RoutingEnv, TelemetryEnv, HouseholdEnv}
use ezra.Ops.Config.Variables.{
  read_database_url, read_anthropic_api_key, read_voyage_api_key, read_cheap_model_id,
  read_reasoning_model_id, read_reasoning_effort, read_turn_routing, read_typesafe_api_key,
  read_jev_model, read_fast_model_id, read_deep_model_id, read_fast_effort, read_deep_effort,
  read_turn_routing_tiers, read_langfuse_public_key, read_langfuse_secret_key,
  read_langfuse_base_url, read_alert_channel_token, read_alert_channel_chat_id,
  read_deadman_ping_url, read_wa_session_dir, read_wa_client_version, read_approval_ttl_hours,
  read_google_sa_key_b64, read_calendar_id_husband, read_calendar_id_wife,
}
use ezra.Ops.Config.Schema.{read_env, read_spine, read_routing, read_telemetry, read_household}

-- Both sides of an application have been read.
pub peel :
    {A B : Type 0} (f : Read (A → B)) (a : Read A) (b : B)
    → (f <*> a) ≡ valid b
    → (P : B → Type 0) → ((g : A → B) (x : A) → f ≡ valid g → a ≡ valid x → P (g x))
    → P b
unfolding ◌<*>◌
peel (valid g) (valid x) b h P found = subst P (cc h) (found g x refl refl)
peel (valid g) (invalid is) b h P found = absurd (cc h)
peel (invalid is) (valid x) b h P found = absurd (cc h)
peel (invalid is) (invalid js) b h P found = absurd (cc h)

-- The last of them, applied to a function.
pub peel_first :
    {A B : Type 0} (g : A → B) (a : Read A) (b : B)
    → (valid g <*> a) ≡ valid b
    → (P : B → Type 0) → ((x : A) → a ≡ valid x → P (g x))
    → P b
unfolding ◌<*>◌
peel_first g (valid x) b h P found = subst P (cc h) (found x refl)
peel_first g (invalid is) b h P found = absurd (cc h)

module _ {N : Type 0} (o : EnvText N) (env : Env) where
  -- Each variable has been read, as what stands in the data.
  pub record IsSpine (d : SpineEnv) : Type 0 where
    pub database_url : read_database_url o env ≡ valid d.database_url
    pub anthropic_api_key : read_anthropic_api_key o env ≡ valid d.anthropic_api_key
    pub voyage_api_key : read_voyage_api_key o env ≡ valid d.voyage_api_key
    pub cheap_model_id : read_cheap_model_id o env ≡ valid d.cheap_model_id
    pub reasoning_model_id : read_reasoning_model_id o env ≡ valid d.reasoning_model_id
    pub reasoning_effort : read_reasoning_effort o env ≡ valid d.reasoning_effort

  pub read_spine-IsSpine : (d : SpineEnv) → read_spine o env ≡ valid d → IsSpine d
  unfolding read_spine
  read_spine-IsSpine d h = peel _ _ d h IsSpine (λ g6 x6 h6 e6.
      peel _ _ g6 h6 (λ g. IsSpine (g x6))
        (λ g5 x5 h5 e5.
          peel _ _ g5 h5 (λ g. IsSpine (g x5 x6))
            (λ g4 x4 h4 e4.
              peel _ _ g4 h4 (λ g. IsSpine (g x4 x5 x6))
                (λ g3 x3 h3 e3.
                  peel _ _ g3 h3 (λ g. IsSpine (g x3 x4 x5 x6))
                    (λ g2 x2 h2 e2.
                      peel_first _ _ g2 h2 (λ g. IsSpine (g x2 x3 x4 x5 x6))
                        (λ x1 e1. record {
                          database_url = e1;
                          anthropic_api_key = e2;
                          voyage_api_key = e3;
                          cheap_model_id = e4;
                          reasoning_model_id = e5;
                          reasoning_effort = e6;
                        }))))))

  -- Each variable has been read, as what stands in the data.
  pub record IsRouting (d : RoutingEnv) : Type 0 where
    pub turn_routing : read_turn_routing o env ≡ valid d.turn_routing
    pub typesafe_api_key : read_typesafe_api_key o env ≡ valid d.typesafe_api_key
    pub jev_model : read_jev_model o env ≡ valid d.jev_model
    pub fast_model_id : read_fast_model_id o env ≡ valid d.fast_model_id
    pub deep_model_id : read_deep_model_id o env ≡ valid d.deep_model_id
    pub fast_effort : read_fast_effort o env ≡ valid d.fast_effort
    pub deep_effort : read_deep_effort o env ≡ valid d.deep_effort
    pub turn_routing_tiers : read_turn_routing_tiers o env ≡ valid d.turn_routing_tiers

  pub read_routing-IsRouting : (d : RoutingEnv) → read_routing o env ≡ valid d → IsRouting d
  unfolding read_routing
  read_routing-IsRouting d h = peel _ _ d h IsRouting (λ g8 x8 h8 e8.
      peel _ _ g8 h8 (λ g. IsRouting (g x8))
        (λ g7 x7 h7 e7.
          peel _ _ g7 h7 (λ g. IsRouting (g x7 x8))
            (λ g6 x6 h6 e6.
              peel _ _ g6 h6 (λ g. IsRouting (g x6 x7 x8))
                (λ g5 x5 h5 e5.
                  peel _ _ g5 h5 (λ g. IsRouting (g x5 x6 x7 x8))
                    (λ g4 x4 h4 e4.
                      peel _ _ g4 h4 (λ g. IsRouting (g x4 x5 x6 x7 x8))
                        (λ g3 x3 h3 e3.
                          peel _ _ g3 h3 (λ g. IsRouting (g x3 x4 x5 x6 x7 x8))
                            (λ g2 x2 h2 e2.
                              peel_first _ _ g2 h2 (λ g. IsRouting (g x2 x3 x4 x5 x6 x7 x8))
                                (λ x1 e1. record {
                                  turn_routing = e1;
                                  typesafe_api_key = e2;
                                  jev_model = e3;
                                  fast_model_id = e4;
                                  deep_model_id = e5;
                                  fast_effort = e6;
                                  deep_effort = e7;
                                  turn_routing_tiers = e8;
                                }))))))))

  -- Each variable has been read, as what stands in the data.
  pub record IsTelemetry (d : TelemetryEnv) : Type 0 where
    pub langfuse_public_key : read_langfuse_public_key o env ≡ valid d.langfuse_public_key
    pub langfuse_secret_key : read_langfuse_secret_key o env ≡ valid d.langfuse_secret_key
    pub langfuse_base_url : read_langfuse_base_url o env ≡ valid d.langfuse_base_url
    pub alert_channel_token : read_alert_channel_token o env ≡ valid d.alert_channel_token
    pub alert_channel_chat_id : read_alert_channel_chat_id o env ≡ valid d.alert_channel_chat_id
    pub deadman_ping_url : read_deadman_ping_url o env ≡ valid d.deadman_ping_url

  pub read_telemetry-IsTelemetry :
      (d : TelemetryEnv) → read_telemetry o env ≡ valid d → IsTelemetry d
  unfolding read_telemetry
  read_telemetry-IsTelemetry d h = peel _ _ d h IsTelemetry (λ g6 x6 h6 e6.
      peel _ _ g6 h6 (λ g. IsTelemetry (g x6))
        (λ g5 x5 h5 e5.
          peel _ _ g5 h5 (λ g. IsTelemetry (g x5 x6))
            (λ g4 x4 h4 e4.
              peel _ _ g4 h4 (λ g. IsTelemetry (g x4 x5 x6))
                (λ g3 x3 h3 e3.
                  peel _ _ g3 h3 (λ g. IsTelemetry (g x3 x4 x5 x6))
                    (λ g2 x2 h2 e2.
                      peel_first _ _ g2 h2 (λ g. IsTelemetry (g x2 x3 x4 x5 x6))
                        (λ x1 e1. record {
                          langfuse_public_key = e1;
                          langfuse_secret_key = e2;
                          langfuse_base_url = e3;
                          alert_channel_token = e4;
                          alert_channel_chat_id = e5;
                          deadman_ping_url = e6;
                        }))))))

  -- Each variable has been read, as what stands in the data.
  pub record IsHousehold (d : HouseholdEnv N) : Type 0 where
    pub wa_session_dir : read_wa_session_dir o env ≡ valid d.wa_session_dir
    pub wa_client_version : read_wa_client_version o env ≡ valid d.wa_client_version
    pub approval_ttl_hours : read_approval_ttl_hours o env ≡ valid d.approval_ttl_hours
    pub google_sa_key_b64 : read_google_sa_key_b64 o env ≡ valid d.google_sa_key_b64
    pub calendar_id_husband : read_calendar_id_husband o env ≡ valid d.calendar_id_husband
    pub calendar_id_wife : read_calendar_id_wife o env ≡ valid d.calendar_id_wife

  pub read_household-IsHousehold :
      (d : HouseholdEnv N) → read_household o env ≡ valid d → IsHousehold d
  unfolding read_household
  read_household-IsHousehold d h = peel _ _ d h IsHousehold (λ g6 x6 h6 e6.
      peel _ _ g6 h6 (λ g. IsHousehold (g x6))
        (λ g5 x5 h5 e5.
          peel _ _ g5 h5 (λ g. IsHousehold (g x5 x6))
            (λ g4 x4 h4 e4.
              peel _ _ g4 h4 (λ g. IsHousehold (g x4 x5 x6))
                (λ g3 x3 h3 e3.
                  peel _ _ g3 h3 (λ g. IsHousehold (g x3 x4 x5 x6))
                    (λ g2 x2 h2 e2.
                      peel_first _ _ g2 h2 (λ g. IsHousehold (g x2 x3 x4 x5 x6))
                        (λ x1 e1. record {
                          wa_session_dir = e1;
                          wa_client_version = e2;
                          approval_ttl_hours = e3;
                          google_sa_key_b64 = e4;
                          calendar_id_husband = e5;
                          calendar_id_wife = e6;
                        }))))))

  pub record IsRead (d : EnvData N) : Type 0 where
    pub spine : read_spine o env ≡ valid d.spine
    pub routing : read_routing o env ≡ valid d.routing
    pub telemetry : read_telemetry o env ≡ valid d.telemetry
    pub household : read_household o env ≡ valid d.household

  pub read_env-IsRead : (d : EnvData N) → read_env o env ≡ valid d → IsRead d
  unfolding read_env
  read_env-IsRead d h = peel _ _ d h IsRead (λ g4 x4 h4 e4.
      peel _ _ g4 h4 (λ g. IsRead (g x4))
        (λ g3 x3 h3 e3.
          peel _ _ g3 h3 (λ g. IsRead (g x3 x4))
            (λ g2 x2 h2 e2.
              peel_first _ _ g2 h2 (λ g. IsRead (g x2 x3 x4))
                (λ x1 e1. record { spine = e1; routing = e2; telemetry = e3; household = e4 }))))
