-- ===== src/App.antt =====
-- src/app.ts: `buildApp`. Fastify (routing, the parsing of bodies and the answer to a handler that
-- throws) and the URL parser are not the program's; the handlers are functions of a request and of
-- the exchange, which holds the state of all that they call. What other requests do while a promise
-- is awaited is part of that call's transition.
pub mod Create
pub mod Pages
pub mod Journey
mod Tests
use wrap_link.Prelude.{
  ℕ, ◌+◌, Bool, true, false, not, ◌&&◌, ◌||◌, List, [], ◌∷◌, ◌++◌, Option, none, some, Text, codes,
  length, all, Result, ok, throw, String, JsValue, text, number, undefined, other_value, text_eq,
  leb, ltb, ◌==◌, if◌then◌else◌,
}
use wrap_link.Prelude.Maps.{Map, set}
use wrap_link.Links.{LinkStore, Link, CreateLinkInput}
use wrap_link.RateLimiter.{RateLimitResult}
use wrap_link.UrlPolicy.{Url}

pub record CreateBody : Type 0 where
  pub url : JsValue
  pub custom_code : JsValue
  pub expires_in_seconds : JsValue

-- A `POST /api/v1/links`: the body is none when it is null or missing.
pub record CreateRequest : Type 0 where
  pub ip : Text
  pub api_key : JsValue
  pub body : Option CreateBody

pub data Body : Type 0 where
  failure : String → Body
  status : String → Body
  exposition : Text → Body
  created_link : Text → Text → Text → Option Text → Body
  inspected_link : Link → Text → Text → Option Text → Body
  empty : Body

pub record Response : Type 0 where
  pub status_code : ℕ
  pub headers : Map Text
  pub body : Body

-- A rate limiter, a URL policy and a source of texts, on a state that they share with the rest.
abbrev pub Limiter : Type 0 → Type 0
Limiter State = Text → State → State × Result RateLimitResult

abbrev pub Policy : Type 0 → Type 0
Policy State = JsValue → State → State × Result (Option Text)

abbrev pub Source : Type 0 → Type 0
Source State = State → State × Result Text

-- What the app is built of: `buildApp`'s arguments, the clock, the URL parser and the ISO dates.
-- An argument that is not given is none.
pub record Services : Type 1 where
  pub store : LinkStore
  pub clock : LinkStore.State store → ℕ
  pub rate_limiter : Option (Limiter (LinkStore.State store))
  pub authenticate : Option (JsValue → Bool)
  pub url_policy : Option (Policy (LinkStore.State store))
  pub parse_url : Text → Option Url
  pub code_generator : Source (LinkStore.State store)
  pub render_metrics : Source (LinkStore.State store)
  pub extra_metrics : Option (Source (LinkStore.State store))
  pub to_iso : ℕ → Text
  pub base_url : Text

-- A call of `store.create` and what came of it.
pub record Attempt : Type 0 where
  pub input : CreateLinkInput
  pub result : Result (Option Link)

-- How often the collector's methods were called.
pub record Counts : Type 0 where
  pub created : ℕ
  pub redirects : ℕ
  pub misses : ℕ

-- A handler goes on with a value, has answered, or has thrown.
pub data Next (A : Type 0) : Type 0 where
  go : A → Next A
  answer : Response → Next A
  fail : String → Next A

is_request_id_char : ℕ → Bool
is_request_id_char c =
    (leb b'A' c && leb c b'Z')
    || (leb b'a' c && leb c b'z')
    || (leb b'0' c && leb c b'9')
    || c == b'.'
    || c == b'_'
    || c == b':'
    || c == b'-'

-- `REQUEST_ID_PATTERN`
unfoldable pub is_request_id : Text → Bool
unfolding is_request_id_char
is_request_id id = leb 1 (length id) && leb (length id) 128 && all is_request_id_char id

-- `minted` is `randomUUID()`.
unfoldable pub request_id : JsValue → Text → Text
request_id (text supplied) minted = if is_request_id supplied then supplied else minted
request_id (number n) minted = minted
request_id undefined minted = minted
request_id other_value minted = minted

-- The hook `onSend`.
unfoldable pub on_send : Text → Response → Response
on_send id r = record r {
  headers = set (codes "x-frame-options") (codes "DENY") (
      set (codes "x-content-type-options") (codes "nosniff") (
        set (codes "referrer-policy") (codes "no-referrer") (
          set (codes "permissions-policy") (codes "camera=(), microphone=(), geolocation=()") (
            set (codes "content-security-policy") (codes "default-src 'none'")
              (set (codes "x-request-id") id r.headers)))));
}

href_if_http : Option Url → Option Text
href_if_http none = none
href_if_http (some url) =
    if text_eq url.protocol (codes "http:") || text_eq url.protocol (codes "https:")
    then some url.href
    else none

unfoldable pub valid_http_url : (Text → Option Url) → JsValue → Option Text
unfolding href_if_http
valid_http_url parse_url (text value) =
    if ltb 2048 (length value) then none else href_if_http (parse_url value)
valid_http_url parse_url (number n) = none
valid_http_url parse_url undefined = none
valid_http_url parse_url other_value = none

module _ (services : Services) where
  -- The state of what the handler calls, its calls, and the headers of the reply.
  pub record Exchange : Type 0 where
    pub state : LinkStore.State services.store
    pub counts : Counts
    pub attempts : List Attempt
    pub headers : Map Text

  abbrev pub Handler : Type 0 → Type 0
  Handler A = Exchange → Exchange × Next A

module _ {services : Services} where
  abbrev pub resume :
      {A B : Type 0}
      → Exchange services × Next A
      → (A → Handler services B)
      → Exchange services × Next B
  resume (w, go a) rest = rest a w
  resume (w, answer r) rest = (w, answer r)
  resume (w, fail e) rest = (w, fail e)

  infixl 5 ◌>>=◌ ◌>>◌
  abbrev pub ◌>>=◌ :
      {A B : Type 0} → Handler services A → (A → Handler services B) → Handler services B
  ◌>>=◌ first rest w = resume (first w) rest

  abbrev pub ◌>>◌ :
      {B : Type 0} → Handler services (Unit {0}) → Handler services B → Handler services B
  ◌>>◌ first rest w = resume (first w) (λ _. rest)

  -- `return reply.code(status).send(body)`, before the handler's end and at it.
  abbrev pub refuse : {A : Type 0} → ℕ → Body → Handler services A
  refuse code body w = (w, answer (record { status_code = code; headers = w.headers; body = body }))

  abbrev pub send : ℕ → Body → Handler services Response
  send code body w = (w, go (record { status_code = code; headers = w.headers; body = body }))

  -- `reply.header(name, value)`
  abbrev pub with_header : Text → Text → Exchange services → Exchange services
  with_header name value w = record w { headers = set name value w.headers }
