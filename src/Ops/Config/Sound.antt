-- ===== src/Ops/Config/Sound.antt =====
-- What a configuration that has been loaded can be relied on for.
use ezra.Common.{
  String, Bool, true, false, Option, none, some, List, [], ◌∷◌, Attempt, returned, threw, ◌≡◌, refl,
  sym, subst, arith, str_eq, eq_iff, Bool-cases, inl, inr, ◌⊎◌, any, if◌then◌else◌,
}
use ezra.Agent.Route.{Tier, standard, tier_eq}
use ezra.Ops.Config.{
  Env, EnvText, valid, tagged, TurnRouting, off, shadow, on, option_of, route_tiers, defaulted,
  put_tier, tiers_of, check_tiers, comma_list, or_issue, tiers_message,
}
use ezra.Ops.Config.Data.{EnvData, Config}
use ezra.Ops.Config.Variables.{
  read_typesafe_api_key, read_turn_routing_tiers, read_database_url, optional, need,
  read_alert_channel_token,
}
use ezra.Ops.Config.Schema.{read_env}
use ezra.Ops.Config.Fields.{
  IsSpine, IsRouting, IsTelemetry, read_env-IsRead, read_spine-IsSpine, read_routing-IsRouting,
  read_telemetry-IsTelemetry,
}
use ezra.Ops.Config.Agree.{take_data-returned}
use ezra.Ops.Config.Load.{config_of, routing_needs_key, load_config}

-- A variable that has been read passed its check.
pub tagged-valid :
    {A : Type 0} (name : String) (r : Attempt A) (a : A) → tagged name r ≡ valid a → r ≡ returned a
tagged-valid name (returned b) a h = cc h
tagged-valid name (threw e) a h = cc

or_issue-returned :
    {A : Type 0} (message : String) (r : Option A) (a : A)
    → or_issue message r ≡ returned a
    → r ≡ some a
or_issue-returned message none a h = cc
or_issue-returned message (some b) a h = cc h

unless_threw :
    {A : Type 0} (b : Bool) (message : String) (r : Attempt A) (a : A)
    → (if b then threw message else r) ≡ returned a
    → (b ≡ false) × (r ≡ returned a)
unless_threw true message r a h = cc h
unless_threw false message r a h = (refl, h)

or_threw :
    {A : Type 0} (b : Bool) (message : String) (r : Attempt A) (a : A)
    → (if b then r else threw message) ≡ returned a
    → (b ≡ true) × (r ≡ returned a)
or_threw true message r a h = (refl, h)
or_threw false message r a h = cc h

put_tier-some :
    (t : Option Tier) (ts : Option (List Tier)) (us : List Tier)
    → put_tier t ts ≡ some us
    → (x : Tier) × (xs : List Tier) × (t ≡ some x) × (ts ≡ some xs) × (us ≡ x ∷ xs)
put_tier-some none none us h = cc h
put_tier-some none (some xs) us h = cc h
put_tier-some (some x) none us h = cc h
put_tier-some (some x) (some xs) us h = (x, xs, refl, refl, cc h)

named_standard :
    (name : String) (t : Tier)
    → str_eq "standard" name ≡ true
    → option_of route_tiers name ≡ some t
    → t ≡ standard
unfolding option_of
named_standard name t h e =
    let named : "standard" ≡ name = (eq_iff "standard" name).0 h in
    let is : option_of route_tiers "standard" ≡ some t =
      subst (λ n. option_of route_tiers n ≡ some t) (sym named) e in
    cc is

-- The tier 'standard' is among the tiers of names that have it.
tiers_of-standard :
    (names : List String) (ts : List Tier)
    → any (str_eq "standard") names ≡ true
    → tiers_of names ≡ some ts
    → any (tier_eq standard) ts ≡ true
unfolding tiers_of
tiers_of-standard [] ts h e = cc
tiers_of-standard (name ∷ names) ts h e =
    let (x, xs, first, rest, made) =
      put_tier-some (option_of route_tiers name) (tiers_of names) ts e in
    subst (λ us. any (tier_eq standard) us ≡ true) (sym made)
      (elim (Bool-cases (str_eq "standard" name)) [
        | inl f ↦ rw (named_standard name x f first) refl
        | inr f ↦ ground (arith, tiers_of-standard names xs (ground arith) rest)
      ])

check_tiers-standard :
    (trim : String → String) (s : String) (ts : List Tier)
    → check_tiers trim s ≡ returned ts
    → any (tier_eq standard) ts ≡ true
unfolding check_tiers
check_tiers-standard trim s ts h =
    let (has, made) = or_threw (any (str_eq "standard") (comma_list trim s)) tiers_message _ ts h in
    tiers_of-standard (comma_list trim s) ts has (or_issue-returned tiers_message _ ts made)

defaulted-standard :
    (trim : String → String) (value : String) (v : Option String) (ts : List Tier)
    → defaulted value (check_tiers trim) v ≡ returned ts
    → any (tier_eq standard) ts ≡ true
defaulted-standard trim value none ts h = check_tiers-standard trim value ts h
defaulted-standard trim value (some s) ts h = check_tiers-standard trim s ts h

-- A key that is there is not empty.
abbrev pub IsGiven : Option String → Type 0
IsGiven none = ⊥
IsGiven (some k) = str_eq k "" ≡ false

module _ {N : Type 0} (o : EnvText N) where
  optional-some : (v key : Option String) → optional o v ≡ returned key → (key ≡ none) ⊎ IsGiven key
  optional-some none key h = inl (cc h)
  optional-some (some s) key h =
      let (full, made) = unless_threw (str_eq s "") o.too_short (returned (some s)) key h in
      let e : some s ≡ key = cc made in inr (subst IsGiven e full)

  need-full :
      (message : String) (v : Option String) (s : String)
      → need o message v ≡ returned s
      → str_eq s "" ≡ false
  need-full message none s h = cc h
  need-full message (some t) s h =
      let (full, made) = unless_threw (str_eq t "") message (returned t) s h in
      let e : t ≡ s = cc made in subst (λ u. str_eq u "" ≡ false) e full

routed :
    (mode : TurnRouting) (key : Option String)
    → routing_needs_key mode key ≡ false
    → (key ≡ none) ⊎ IsGiven key
    → (mode ≡ off) ⊎ IsGiven key
routed off key h k = inl refl
routed shadow none h k = cc h
routed on none h k = cc h
routed shadow (some key) h (inl e) = cc e
routed shadow (some key) h (inr g) = inr g
routed on (some key) h (inl e) = cc e
routed on (some key) h (inr g) = inr g

pub record IsSound {N : Type 0} (c : Config N) : Type 0 where
  -- The router has its key unless it is off.
  pub routed : (c.turn_routing.mode ≡ off) ⊎ IsGiven c.turn_routing.typesafe_api_key
  -- The tier to fall back to may be used.
  pub falls_back : any (tier_eq standard) c.turn_routing.enabled_tiers ≡ true
  pub has_database : str_eq c.database_url "" ≡ false
  pub has_alerts : str_eq c.alert_channel_token "" ≡ false

module _ {N : Type 0} (o : EnvText N) (env : Env) where
  data-IsSound :
      (d : EnvData N)
      → IsSpine o env d.spine
      → IsRouting o env d.routing
      → IsTelemetry o env d.telemetry
      → routing_needs_key d.routing.turn_routing d.routing.typesafe_api_key ≡ false
      → IsSound (config_of d)
  unfolding read_typesafe_api_key read_turn_routing_tiers read_database_url read_alert_channel_token
  data-IsSound d s r t rule = record {
    routed = routed d.routing.turn_routing d.routing.typesafe_api_key rule (
        optional-some o (env "TYPESAFE_API_KEY") _
          (tagged-valid "TYPESAFE_API_KEY" _ _ r.typesafe_api_key));
    falls_back =
        defaulted-standard o.trim "standard,deep" _ _
          (tagged-valid "TURN_ROUTING_TIERS" _ _ r.turn_routing_tiers);
    has_database =
        need-full o "required — postgres connection string, see .env.example" (env "DATABASE_URL") _
          (tagged-valid "DATABASE_URL" _ _ s.database_url);
    has_alerts =
        need-full o "required — independent alert channel bot token" (env "ALERT_CHANNEL_TOKEN") _
          (tagged-valid "ALERT_CHANNEL_TOKEN" _ _ t.alert_channel_token);
  }

  -- A configuration that is loaded has a key for the router unless the router is off, the tier
  -- 'standard' among the enabled ones, and a database and a token for the alerts that are not empty.
  pub load_config-IsSound : (c : Config N) → load_config o env ≡ returned c → IsSound c
  unfolding load_config
  load_config-IsSound c h =
      let (d, e, made, rule) = take_data-returned o env (read_env o env) c h in
      let r = read_env-IsRead o env d e in
      subst IsSound made (
        data-IsSound d (read_spine-IsSpine o env d.spine r.spine)
          (read_routing-IsRouting o env d.routing r.routing)
          (read_telemetry-IsTelemetry o env d.telemetry r.telemetry) rule)
