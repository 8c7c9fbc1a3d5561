-- ===== src/Ops/Config/Production.antt =====
-- The configuration that the program runs with.
use ezra.Common.{
  ◌<◌, String, Option, none, some, List, [], ◌∷◌, length, Attempt, returned, threw, ◌≡◌, refl,
  arith, subst,
}
use ezra.Ops.Config.{Env, EnvText, Read, valid, invalid, some_jids, check_jids, comma_list, text}
use ezra.Ops.Config.Data.{ProductionData, Config, ProductionConfig}
use ezra.Ops.Config.Schema.{read_production, jid_list}
use ezra.Ops.Config.Load.{with_config, take_production, load_config, load_production_config}
use ezra.Ops.Config.Fields.{peel, peel_first}
use ezra.Ops.Config.Sound.{tagged-valid}

some_jids-returned :
    (message : String) (js ks : List String) → some_jids message js ≡ returned ks → 0 < length ks
some_jids-returned message [] ks h = cc
some_jids-returned message (j ∷ js) ks h =
    let e : j ∷ js ≡ ks = cc h in subst (λ l. 0 < length l) e (omega arith)

text-jids :
    (trim : String → String) (message : String) (v : Option String) (js : List String)
    → text message (check_jids trim message) v ≡ returned js
    → 0 < length js
unfolding check_jids
text-jids trim message none js h = cc
text-jids trim message (some s) js h = some_jids-returned message (comma_list trim s) js h

module _ {N : Type 0} (o : EnvText N) (env : Env) where
  jid_list-full :
      (name message : String) (js : List String)
      → jid_list o env name message ≡ valid js
      → 0 < length js
  jid_list-full name message js h =
      text-jids o.trim message (env name) js (tagged-valid name _ js h)

  record IsServed (d : ProductionData N) : Type 0 where
    husband : 0 < length d.wa_jid_husband
    wife : 0 < length d.wa_jid_wife
    conversations : 0 < length d.wa_household_conversations

  read_production-IsServed : (d : ProductionData N) → read_production o env ≡ valid d → IsServed d
  unfolding read_production
  read_production-IsServed d h = peel _ _ d h IsServed (λ g4 x4 h4 e4.
      peel _ _ g4 h4 (λ g. IsServed (g x4))
        (λ g3 x3 h3 e3.
          peel _ _ g3 h3 (λ g. IsServed (g x3 x4))
            (λ g2 x2 h2 e2.
              peel_first _ _ g2 h2 (λ g. IsServed (g x2 x3 x4))
                (λ x1 e1. record {
                  husband = jid_list-full _ _ x2 e2;
                  wife = jid_list-full _ _ x3 e3;
                  conversations = jid_list-full _ _ x4 e4;
                }))))

  -- What a loaded configuration for production is made of.
  pub record IsReady (p : ProductionConfig N) : Type 0 where
    pub loaded : load_config o env ≡ returned p.config
    pub has_husband : 0 < length p.husband_jids
    pub has_wife : 0 < length p.wife_jids
    pub has_conversations : 0 < length p.household_conversations

  with_config-IsReady :
      (d : ProductionData N) (c : Attempt (Config N)) (p : ProductionConfig N)
      → load_config o env ≡ c
      → IsServed d
      → with_config d c ≡ returned p
      → IsReady p
  with_config-IsReady d (threw e) p from s h = absurd (cc h)
  with_config-IsReady d (returned c) p from s h = subst IsReady (cc h) (record {
    loaded = from;
    has_husband = s.husband;
    has_wife = s.wife;
    has_conversations = s.conversations;
  })

  take_production-IsReady :
      (r : Read (ProductionData N)) (p : ProductionConfig N)
      → read_production o env ≡ r
      → take_production (load_config o env) r ≡ returned p
      → IsReady p
  take_production-IsReady (invalid is) p from h = absurd (cc h)
  take_production-IsReady (valid d) p from h =
      with_config-IsReady d (load_config o env) p refl (read_production-IsServed d from) h

  -- A configuration for production is what the full loader gives, with at least one sender for each
  -- of the two members and at least one chat that the bot serves.
  pub load_production_config-IsReady :
      (p : ProductionConfig N) → load_production_config o env ≡ returned p → IsReady p
  unfolding load_production_config
  load_production_config-IsReady p h = take_production-IsReady (read_production o env) p refl h
