-- ===== src/Ops/Console/Gate.antt =====
-- Who gets past the gate, and whose attempts count.
use ezra.Common.{
  ℕ, ◌==◌, ltb, leb, any, ◌⊎◌, ◌&&◌, String, Bool, true, false, ◌||◌, Option, none, some, ◌≡◌,
  if◌then◌else◌, Attempt, returned, threw, str_eq,
}
use ezra.Ops.Limiter.{RateLimitOptions, Limits, Entry, unless_spent}
use ezra.Ops.Console.{
  AuthText, Request, Response, locked_out, unauthorized, TokenSource, cookie, header, query,
  Candidate, ApiResponse, is_api,
}

-- The answers to a request without a good credential.
abbrev pub is_refusal : Response → Bool
is_refusal (unauthorized change) = true
is_refusal locked_out = true
is_refusal _ = false

-- A lock that has run out.
abbrev pub is_spent : ℕ → Option Entry → Bool
is_spent now none = false
is_spent now (some e) = ltb 0 e.locked_until && leb e.locked_until now

-- A failure at that time, or a lock beyond it.
abbrev pub has_failure : ℕ → Entry → Bool
has_failure now e = any (λ t. t == now) e.failures || ltb now e.locked_until

-- What of an entry stays when its address is looked up.
abbrev kept : ℕ → Option Entry → Option Entry
kept now none = none
kept now (some e) =
    if ltb now e.locked_until then some e else if e.locked_until == 0 then some e else none

abbrev IsKept : ℕ → Bool → Entry → Type 0
IsKept now spent new =
    (spent ≡ true)
    ⊎ ((e : Entry) × (kept now (unless_spent now (some new)) ≡ some e) × (has_failure now e ≡ true))

module _ (o : AuthText) (token : String) {W : Type 0} (options : RateLimitOptions) (now : ℕ)
    (api : Option (String → String → W → Attempt (Option ApiResponse) × W)) where
  -- The answer to a request without a good credential, which leaves the data alone.
  abbrev pub Refused : Request → W → Response × Limits × W → Type 0
  Refused r w (response, limits', w') = (is_refusal response ≡ is_api r.path) × (w' ≡ w)

  -- The attempt is on record at its address: the failure with its time, or a lock. Where a lock had run
  -- out, the record may be gone with it.
  abbrev pub Counts : Request → Limits → Limits → Type 0
  Counts r limits limits' =
      (is_spent now (limits r.addr) ≡ true)
      ⊎ ((e : Entry) × (limits' r.addr ≡ some e) × (has_failure now e ≡ true))

  -- By whether the token is the right one, and where it stood.
  abbrev pub Compared : Request → Limits → W → Bool → TokenSource → Response × Limits × W → Type 0
  Compared r limits w true source (response, limits', w') =
      (is_refusal response ≡ false)
      × ((k : String) → limits' k ≡ (if str_eq k r.addr then none else limits k))
  Compared r limits w false cookie (response, limits', w') =
      Refused r w (response, limits', w') × (limits' ≡ limits)
  Compared r limits w false header (response, limits', w') =
      Refused r w (response, limits', w') × Counts r limits limits'
  Compared r limits w false query (response, limits', w') =
      Refused r w (response, limits', w') × Counts r limits limits'

  -- By what the credential comes to.
  abbrev pub Gated :
      Request → Limits → W → Attempt (Option Candidate) → Response × Limits × W → Type 0
  Gated r limits w (threw e) (response, limits', w') =
      (is_refusal response ≡ false) × (limits' ≡ limits) × (w' ≡ w)
  Gated r limits w (returned none) (response, limits', w') =
      Refused r w (response, limits', w') × (limits' ≡ limits)
  Gated r limits w (returned (some c)) x =
      Compared r limits w (o.safe_equal c.token token) c.source x
