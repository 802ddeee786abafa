-- ===== src/App/Create.antt =====
-- src/app.ts: the handler of `POST /api/v1/links`, in the order of its guards.
pub mod Guards
pub mod Rounds
pub mod Outcome
use wrap_link.App.{
  CreateBody, CreateRequest, Response, failure, created_link, Limiter, Policy, Services, Attempt,
  Next, go, fail, valid_http_url, Exchange, Handler, resume, ◌>>=◌, ◌>>◌, refuse, send, with_header,
}
use wrap_link.Prelude.{
  ℕ, zero, suc, ◌+◌, ◌*◌, Bool, true, false, ◌&&◌, List, [], ◌∷◌, ◌++◌, Option, none, some, Text,
  codes, Result, ok, throw, JsNumber, JsValue, text, number, undefined, other_value,
  is_safe_integer, at_least, nat_value, leb, if◌then◌else◌,
}
use wrap_link.Prelude.Maps.{Map}
use wrap_link.Keys.{decimal}
use wrap_link.Links.{LinkStore, Link, CreateLinkInput, CodeSource, custom, generated}
use wrap_link.PendingLinks.{is_link_code}
use wrap_link.RateLimiter.{RateLimitResult}

abbrev url_of : Option CreateBody → JsValue
url_of none = undefined
url_of (some body) = body.url

abbrev pub source_of : Option Text → CodeSource
source_of none = generated
source_of (some _) = custom

-- The argument of `store.create`.
abbrev pub input_of : Option Text → Text → Option ℕ → Text → CreateLinkInput
input_of chosen target expires_at code = record {
  code = code;
  target_url = target;
  expires_at = expires_at;
  code_source = source_of chosen;
}

abbrev pub max_ttl_seconds : ℕ
max_ttl_seconds = 31536000

module _ (services : Services) where
  open services use {
    store, clock, rate_limiter, authenticate, url_policy, parse_url, code_generator, to_iso,
    base_url,
  }

  limit_headers : RateLimitResult → Exchange services → Exchange services
  limit_headers r w = with_header (codes "rate-limit-reset") (decimal r.retry_after_seconds) (
      with_header (codes "rate-limit-remaining") (decimal r.remaining)
        (with_header (codes "rate-limit-limit") (decimal r.limit) w))

  consumed : Result RateLimitResult → Handler services (Unit {0})
  unfolding limit_headers
  consumed (throw e) w = refuse 503 (failure "link creation is temporarily unavailable") w
  consumed (ok r) w =
      if r.allowed
      then (limit_headers r w, go tt)
      else refuse 429 (failure "link creation rate limit exceeded")
          (with_header (codes "retry-after") (decimal r.retry_after_seconds) (limit_headers r w))

  pub consume_quota : Option (Limiter (LinkStore.State store)) → Text → Handler services (Unit {0})
  unfolding consumed
  consume_quota none ip w = (w, go tt)
  consume_quota (some consume) ip w =
      let (s, result) = consume ip w.state in consumed result (record w { state = s })

  pub require_key : Option (JsValue → Bool) → JsValue → Handler services (Unit {0})
  require_key none key w = (w, go tt)
  require_key (some accepts) key w =
      if accepts key
      then (w, go tt)
      else refuse 401 (failure "valid API key required")
          (with_header (codes "www-authenticate") (codes "ApiKey realm=\"link-creation\"") w)

  validated : Result (Option Text) → Handler services (Option Text)
  validated (throw e) w = (w, fail e)
  validated (ok target) w = (w, go target)

  pub validate_url :
      Option (Policy (LinkStore.State store)) → JsValue → Handler services (Option Text)
  unfolding validated valid_http_url
  validate_url none url w = (w, go (valid_http_url parse_url url))
  validate_url (some validate) url w =
      let (s, result) = validate url w.state in validated result (record w { state = s })

  -- `if (!targetUrl)`: no URL, or an empty one.
  pub require_target : Option Text → Handler services Text
  require_target (some (c ∷ target)) w = (w, go (c ∷ target))
  require_target _ w =
      refuse 400 (failure "url must be a valid and publicly reachable http or https URL") w

  -- `request.body.customCode` throws where there is no body.
  pub require_body : Option CreateBody → Handler services CreateBody
  require_body none w = (w, fail "Cannot read properties of null")
  require_body (some body) w = (w, go body)

  refuse_code : Handler services (Option Text)
  refuse_code w = refuse 400 (failure "customCode must be 4-32 URL-safe characters") w

  pub custom_code : JsValue → Handler services (Option Text)
  unfolding refuse_code is_link_code
  custom_code undefined w = (w, go none)
  custom_code (text code) w = if is_link_code code then (w, go (some code)) else refuse_code w
  custom_code (number n) w = refuse_code w
  custom_code other_value w = refuse_code w

  refuse_ttl : Handler services (Option ℕ)
  refuse_ttl w = refuse 400 (failure "expiresInSeconds must be an integer from 1 to 31536000") w

  is_ttl : JsNumber → Bool
  is_ttl n = is_safe_integer n && at_least 1 n && leb (nat_value n) max_ttl_seconds

  -- `expiresInSeconds`, and the date that it makes.
  pub expires_at : JsValue → Handler services (Option ℕ)
  unfolding refuse_ttl is_ttl
  expires_at undefined w = (w, go none)
  expires_at (number n) w =
      if is_ttl n then (w, go (some (clock w.state + nat_value n * 1000))) else refuse_ttl w
  expires_at (text s) w = refuse_ttl w
  expires_at other_value w = refuse_ttl w

  generated_code : Result Text → Handler services Text
  generated_code (throw e) w = refuse 503 (failure "link creation is temporarily unavailable") w
  generated_code (ok code) w = (w, go code)

  pub code_for : Option Text → Handler services Text
  unfolding generated_code
  code_for (some code) w = (w, go code)
  code_for none w =
      let (s, result) = code_generator w.state in generated_code result (record w { state = s })

  abbrev pub iso_or_null : Option ℕ → Option Text
  iso_or_null none = none
  iso_or_null (some t) = some (to_iso t)

  abbrev pub created_response : Text → Text → Option ℕ → Map Text → Response
  created_response code target expiry headers = record {
    status_code = 201;
    headers = headers;
    body = created_link code (base_url ++ codes "/" ++ code) target (iso_or_null expiry);
  }

  -- What comes of `store.create`: `rest` is the next round of the loop.
  pub stored :
      Option Text
      → Text
      → Option ℕ
      → Text
      → Handler services Response
      → Result (Option Link)
      → Handler services Response
  stored chosen target expiry code rest (throw e) w = (w, fail e)
  stored chosen target expiry code rest (ok (some link)) w = (
    record w { counts = record w.counts { created = w.counts.created + 1 } },
    go (created_response code target expiry w.headers),
  )
  stored (some _) target expiry code rest (ok none) w =
      refuse 409 (failure "customCode is already in use") w
  stored none target expiry code rest (ok none) w = rest w

  pub try_code :
      Option Text → Text → Option ℕ → Handler services Response → Text → Handler services Response
  unfolding stored
  try_code chosen target expiry rest code w =
      let input = input_of chosen target expiry code in
      let (s, result) = LinkStore.create_link store input w.state in
      stored chosen target expiry code rest result (record w {
        state = s;
        attempts = w.attempts ++ record { input = input; result = result } ∷ [];
      })

  -- The loop, with the rounds that are left.
  pub attempt_rounds : ℕ → Option Text → Text → Option ℕ → Handler services Response
  unfolding code_for try_code
  attempt_rounds zero chosen target expiry w =
      send 503 (failure "could not allocate a unique code") w
  attempt_rounds (suc rounds) chosen target expiry w =
      resume (code_for chosen w)
        (try_code chosen target expiry (attempt_rounds rounds chosen target expiry))

  unfoldable pub create_link : CreateRequest → Handler services Response
  unfolding consume_quota require_key validate_url require_target require_body custom_code
      expires_at attempt_rounds
  create_link request = do
    consume_quota rate_limiter request.ip
    require_key authenticate request.api_key
    url ← validate_url url_policy (url_of request.body)
    target ← require_target url
    body ← require_body request.body
    chosen ← custom_code body.custom_code
    expiry ← expires_at body.expires_in_seconds
    attempt_rounds 5 chosen target expiry
