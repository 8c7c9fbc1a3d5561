-- ===== src/Ops/Console.antt =====
-- The gate of the read-only console: the credentials of src/backoffice/auth.ts and the request handler of
-- src/backoffice/server.ts. `W` is what the data endpoints read; the answers' JSON and headers are left
-- out but for the session cookie.
pub mod Gate
use text.Mathlib.Text.{starts_with}
use ezra.Common.{
  ℕ, zero, suc, String, Bool, true, false, not, ◌&&◌, ◌||◌, Option, none, some, List, [], ◌∷◌,
  str_eq, if◌then◌else◌, Attempt, returned, threw, split_on, cut_at, Halves,
}
use ezra.Hitl.Value.{Value}
use ezra.Ops.Limiter.{RateLimitOptions, Limits, is_locked, record_failure, reset}

pub data TokenSource : Type 0 where
  header cookie query : TokenSource

pub record Candidate : Type 0 where
  pub token : String
  pub source : TokenSource

-- `trim`, `decodeURIComponent`, `auth.slice('Bearer '.length)` and the comparison of two digests.
pub record AuthText : Type 0 where
  pub trim : String → String
  pub decode : String → Attempt String
  pub after_bearer : String → String
  pub safe_equal : String → String → Bool

pub record Credentials : Type 0 where
  pub authorization : Option String
  pub cookie : Option String
  pub query_token : Option String

abbrev pub with_session : Attempt String → Attempt (Option String) → Attempt (Option String)
with_session (threw e) rest = threw e
with_session (returned v) (threw e) = threw e
with_session (returned v) (returned none) = returned (some v)
with_session (returned v) (returned (some later)) = returned (some later)

abbrev pub keep_decoded : Attempt String → Attempt (Option String) → Attempt (Option String)
keep_decoded (threw e) rest = threw e
keep_decoded (returned v) rest = rest

module _ (o : AuthText) where
  -- One part of the header: a name that is empty is passed over, any other value is decoded.
  abbrev pub take_cookie : Option Halves → Attempt (Option String) → Attempt (Option String)
  take_cookie none rest = rest
  take_cookie (some h) rest =
      if str_eq (o.trim h.before) ""
      then rest
      else if str_eq (o.trim h.before) "bo_session"
      then with_session (o.decode (o.trim h.after)) rest
      else keep_decoded (o.decode (o.trim h.after)) rest

  abbrev pub session_in : List String → Attempt (Option String)
  session_in [] = returned none
  session_in (part ∷ parts) = take_cookie (cut_at 61 part) (session_in parts)

  -- `parseCookies(header)[SESSION_COOKIE]`
  unfoldable pub session_cookie : Option String → Attempt (Option String)
  session_cookie none = returned none
  session_cookie (some text) = session_in (split_on 59 text)

  abbrev pub from_cookie : Attempt (Option String) → Attempt (Option Candidate)
  from_cookie (threw e) = threw e
  from_cookie (returned none) = returned none
  from_cookie (returned (some token)) =
      if str_eq token ""
      then returned none
      else returned (some (record { token = token; source = cookie }))

  unfoldable pub from_query : Option String → Option String → Attempt (Option Candidate)
  unfolding session_cookie
  from_query none jar = from_cookie (session_cookie jar)
  from_query (some token) jar =
      if str_eq token ""
      then from_cookie (session_cookie jar)
      else returned (some (record { token = token; source = query }))

  unfoldable pub extract_token : Credentials → Attempt (Option Candidate)
  unfolding from_query
  extract_token c = elim c.authorization [
    | none ↦ from_query c.query_token c.cookie
    | some auth ↦
        if starts_with auth "Bearer "
        then returned (some (record { token = o.trim (o.after_bearer auth); source = header }))
        else from_query c.query_token c.cookie
  ]

-- What becomes of the session cookie.
pub data CookieChange : Type 0 where
  unchanged renewed cleared : CookieChange

pub data Response : Type 0 where
  method_not_allowed locked_out signed_out internal_error : Response
  unauthorized session health no_endpoint head_only : CookieChange → Response
  static : String → CookieChange → Response
  answered : ℕ → Value → CookieChange → Response

-- What the credential of a request proves to be.
pub data Verdict : Type 0 where
  anonymous authed stale_cookie wrong : Verdict

pub record ApiResponse : Type 0 where
  pub status : ℕ
  pub body : Value

pub record Request : Type 0 where
  pub method : String
  pub path : String
  pub addr : String
  pub credentials : Credentials

abbrev pub is_api : String → Bool
is_api path = str_eq path "/api" || starts_with path "/api/"

module _ (o : AuthText) (token : String) where
  abbrev pub presented : TokenSource → Verdict
  presented cookie = stale_cookie
  presented header = wrong
  presented query = wrong

  abbrev pub judge : Option Candidate → Verdict
  judge none = anonymous
  judge (some c) = if o.safe_equal c.token token then authed else presented c.source

  module _ {W : Type 0} (options : RateLimitOptions) (now : ℕ)
      (api : Option (String → String → W → Attempt (Option ApiResponse) × W)) where
    abbrev pub take_api : Attempt (Option ApiResponse) × W → Response × W
    take_api (threw e, w) = (internal_error, w)
    take_api (returned none, w) = (no_endpoint renewed, w)
    take_api (returned (some r), w) = (answered r.status r.body renewed, w)

    abbrev pub call_api :
        Option (String → String → W → Attempt (Option ApiResponse) × W) → Request → W → Response × W
    call_api none r w = (no_endpoint renewed, w)
    call_api (some handle) r w = take_api (handle r.method r.path w)

    -- The routes behind the gate.
    unfoldable pub route : Request → W → Response × W
    route r w =
        if str_eq r.path "/api/session"
        then (session renewed, w)
        else if str_eq r.path "/api/signout"
        then (signed_out, w)
        else if str_eq r.path "/api/health"
        then (health renewed, w)
        else call_api api r w

    -- The shell and its assets are public.
    abbrev pub shell : Request → CookieChange → Response
    shell r change = if str_eq r.method "HEAD" then head_only change else static r.path change

    -- A wrong token counts; the answer tells whether the address is locked by now.
    abbrev pub refuse : Request → Bool × Limits → Response × Limits
    refuse r (locked, limits) =
        if is_api r.path
        then (if locked then locked_out else unauthorized unchanged, limits)
        else (shell r unchanged, limits)

    abbrev pub with_limits : Response × W → Limits → Response × Limits × W
    with_limits (response, w) limits = (response, limits, w)

    abbrev pub with_world : Response × Limits → W → Response × Limits × W
    with_world (response, limits) w = (response, limits, w)

    unfoldable pub answer : Request → Limits → W → Verdict → Response × Limits × W
    unfolding route
    answer r limits w authed =
        with_limits (if is_api r.path then route r w else (shell r renewed, w))
          (reset r.addr limits)
    answer r limits w anonymous =
        (if is_api r.path then unauthorized unchanged else shell r unchanged, limits, w)
    answer r limits w stale_cookie =
        (if is_api r.path then unauthorized cleared else shell r cleared, limits, w)
    answer r limits w wrong =
        with_world (refuse r (is_locked r.addr now (record_failure options r.addr now limits))) w

    -- A throw of the credential's parse ends in the server's own answer.
    unfoldable pub take_candidate :
        Request → Limits → W → Attempt (Option Candidate) → Response × Limits × W
    unfolding answer
    take_candidate r limits w (threw e) = (internal_error, limits, w)
    take_candidate r limits w (returned c) = answer r limits w (judge c)

    -- `createRequestHandler` with the `catch` of `createBackofficeServer`.
    unfoldable pub handle : Request → Limits → W → Response × Limits × W
    unfolding take_candidate extract_token
    handle r limits w =
        if str_eq r.method "GET" || str_eq r.method "HEAD"
        then take_candidate r limits w (extract_token o r.credentials)
        else (method_not_allowed, limits, w)
