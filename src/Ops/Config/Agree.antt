-- ===== src/Ops/Config/Agree.antt =====
-- The narrow loaders agree with the full one.
use ezra.Common.{Bool, true, false, returned, ◌≡◌, refl, subst}
use ezra.Ops.Config.{Env, EnvText, Read, valid, invalid, ◌<*>◌}
use ezra.Ops.Config.Data.{EnvData, Config}
use ezra.Ops.Config.Schema.{read_env}
use ezra.Ops.Config.Fields.{
  IsSpine, IsTelemetry, IsHousehold, read_env-IsRead, read_spine-IsSpine,
  read_telemetry-IsTelemetry, read_household-IsHousehold,
}
use ezra.Ops.Config.Load.{
  config_of, take_data, under_rule, routing_needs_key, load_config, load_transport_ops_config,
  load_wa_session_dir, load_database_url, read_shared,
}

module _ {N : Type 0} (o : EnvText N) (env : Env) where
  under_rule-returned :
      (b : Bool) (d : EnvData N) (c : Config N)
      → under_rule b d ≡ returned c
      → (config_of d ≡ c) × (b ≡ false)
  under_rule-returned true d c h = cc
  under_rule-returned false d c h = (cc h, refl)

  -- A configuration comes from data that keep the rule over two fields.
  pub take_data-returned :
      (r : Read (EnvData N)) (c : Config N)
      → take_data r ≡ returned c
      → (d : EnvData N) × (r ≡ valid d)
        × (config_of d ≡ c)
        × (routing_needs_key d.routing.turn_routing d.routing.typesafe_api_key ≡ false)
  take_data-returned (invalid is) c h = cc
  take_data-returned (valid d) c h =
      let (made, kept) =
        under_rule-returned (routing_needs_key d.routing.turn_routing d.routing.typesafe_api_key) d
          c h in
      (d, refl, made, kept)

  -- What the narrow loaders give where the full one gives `c`.
  pub record Agrees (c : Config N) : Type 0 where
    pub transport_ops :
        load_transport_ops_config o env
        ≡ returned (record {
          wa_session_dir = c.wa_session_dir;
          wa_client_version = c.wa_client_version;
          alert_channel_token = c.alert_channel_token;
          alert_channel_chat_id = c.alert_channel_chat_id;
          deadman_ping_url = c.deadman_ping_url;
        })
    pub wa_session_dir : load_wa_session_dir o env ≡ returned c.wa_session_dir
    pub database_url : load_database_url o env ≡ returned c.database_url
    pub shared :
        read_shared o env
        ≡ valid (record {
          langfuse_public_key = c.langfuse_public_key;
          langfuse_secret_key = c.langfuse_secret_key;
          langfuse_base_url = c.langfuse_base_url;
          anthropic_api_key = c.anthropic_api_key;
          voyage_api_key = c.voyage_api_key;
          google_service_account = c.google_service_account;
          calendar_ids = c.calendar_ids;
        })

  data-Agrees :
      (d : EnvData N)
      → IsSpine o env d.spine
      → IsTelemetry o env d.telemetry
      → IsHousehold o env d.household
      → Agrees (config_of d)
  unfolding load_transport_ops_config load_wa_session_dir load_database_url read_shared ◌<*>◌
  data-Agrees d s t h = record {
    transport_ops =
        rw
          (
            h.wa_session_dir, h.wa_client_version, t.alert_channel_token, t.alert_channel_chat_id,
            t.deadman_ping_url,
          )
          refl;
    wa_session_dir = rw h.wa_session_dir refl;
    database_url = rw s.database_url refl;
    shared =
        rw
          (
            t.langfuse_public_key, t.langfuse_secret_key, t.langfuse_base_url, s.anthropic_api_key,
            s.voyage_api_key, h.google_sa_key_b64, h.calendar_id_husband, h.calendar_id_wife,
          )
          refl;
  }

  -- Whenever the full loader gives a configuration, the loaders for the transport, the session's
  -- directory and the database give theirs, with the same values, and so do the keys that the console
  -- shares with the spine.
  pub load_config-Agrees : (c : Config N) → load_config o env ≡ returned c → Agrees c
  unfolding load_config
  load_config-Agrees c h =
      let (d, e, made, rule) = take_data-returned (read_env o env) c h in
      let r = read_env-IsRead o env d e in
      subst Agrees made (
        data-Agrees d (read_spine-IsSpine o env d.spine r.spine)
          (read_telemetry-IsTelemetry o env d.telemetry r.telemetry)
          (read_household-IsHousehold o env d.household r.household))
