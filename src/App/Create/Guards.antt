-- ===== src/App/Create/Guards.antt =====
-- The guards of `POST /api/v1/links`: what holds once each is passed.
use wrap_link.App.{
  CreateBody, Response, Limiter, Policy, Services, Next, go, answer, fail, valid_http_url, Exchange,
  resume,
}
use wrap_link.App.Create.{
  max_ttl_seconds, limit_headers, consumed, consume_quota, require_key, validated, validate_url,
  require_target, require_body, refuse_code, custom_code, refuse_ttl, is_ttl, expires_at,
}
use wrap_link.Prelude.{
  ℕ, ◌+◌, ◌*◌, ◌≤◌, ◌≡◌, refl, ap, subst, ◌⊎◌, inl, inr, Bool, true, false, [], ◌∷◌, Option, none,
  some, Text, String, Result, ok, throw, JsNumber, integer, pos, negsuc, other, JsValue, text,
  number, undefined, other_value, is_safe_integer, at_least, nat_value, Bool-cases, arith,
}
use wrap_link.Links.{LinkStore}
use wrap_link.PendingLinks.{is_link_code}
use wrap_link.RateLimiter.{RateLimitResult}
use wrap_link.UrlPolicy.{Url}

-- The custom code that a body asks for, if it does.
abbrev pub Chosen : JsValue → Option Text → Type 0
Chosen value none = value ≡ undefined
Chosen value (some code) = (value ≡ text code) × (is_link_code code ≡ true)

number-Chosen : (n : JsNumber) (chosen : Option Text) → ¬ Chosen (number n) chosen
number-Chosen n none e = cc
number-Chosen n (some c) (e, fits) = cc

other-Chosen : (chosen : Option Text) → ¬ Chosen other_value chosen
other-Chosen none e = cc
other-Chosen (some c) (e, fits) = cc

text-Chosen :
    (code : Text) → is_link_code code ≡ false → (chosen : Option Text) → ¬ Chosen (text code) chosen
text-Chosen code bad none e = cc
text-Chosen code bad (some c) (e, fits) = cc

-- No target, or an empty one.
abbrev pub IsBlank : Option Text → Type 0
IsBlank found = (found ≡ none) ⊎ (found ≡ some [])

abbrev pub IsGiven : Text → Type 0
IsGiven target = (c : ℕ) × (rest : Text) × (target ≡ c ∷ rest)

-- The status of an answer.
abbrev pub status_of : Next Response → Option ℕ
status_of (go r) = some r.status_code
status_of (answer r) = some r.status_code
status_of (fail e) = none

module _ {State : Type 0} where
  -- The limiter has let the address pass, if there is one.
  abbrev pub Allowed : Option (Limiter State) → Text → State → Type 0
  Allowed none ip s = Unit
  Allowed (some consume) ip s =
      (r : RateLimitResult) × ((consume ip s).1 ≡ ok r) × (r.allowed ≡ true)

  abbrev pub Limited : Option (Limiter State) → Text → State → Type 0
  Limited none ip s = ⊥
  Limited (some consume) ip s =
      (r : RateLimitResult) × ((consume ip s).1 ≡ ok r) × (r.allowed ≡ false)

  abbrev pub LimiterFailed : Option (Limiter State) → Text → State → Type 0
  LimiterFailed none ip s = ⊥
  LimiterFailed (some consume) ip s = (e : String) × ((consume ip s).1 ≡ throw e)

  -- The state once the limiter has counted the request.
  abbrev pub spent : Option (Limiter State) → Text → State → State
  spent none ip s = s
  spent (some consume) ip s = (consume ip s).0

  -- What the URL policy has returned at some state, or the parser where there is no policy.
  abbrev pub Returned : Option (Policy State) → (Text → Option Url) → JsValue → Option Text → Type 0
  Returned none parse_url url found = valid_http_url parse_url url ≡ found
  Returned (some validate) parse_url url found = (s : State) × ((validate url s).1 ≡ ok found)

  -- The URL policy has thrown the error, and left the state so.
  abbrev pub PolicyThrew : Option (Policy State) → JsValue → String → State → Type 0
  PolicyThrew none url e s' = ⊥
  PolicyThrew (some validate) url e s' = (s : State) × (validate url s ≡ (s', throw e))

  -- The date that a body asks for: so many seconds after some time of the clock.
  abbrev pub Expiry : (State → ℕ) → JsValue → Option ℕ → Type 0
  Expiry clock value none = value ≡ undefined
  Expiry clock value (some t) =
      (s : State) × (n : ℕ) × (value ≡ number (integer (pos n)))
      × (1 ≤ n)
      × (n ≤ max_ttl_seconds)
      × (t ≡ clock s + n * 1000)

-- The key is accepted, or refused; with no authenticator every key is accepted.
abbrev pub KeyCheck : Option (JsValue → Bool) → JsValue → Bool → Type 0
KeyCheck none key b = b ≡ true
KeyCheck (some accepts) key b = accepts key ≡ b

module _ {services : Services} where
  -- Nothing was asked of the store, and nothing was counted.
  abbrev pub Untouched : Exchange services → Exchange services → Type 0
  Untouched w w' = (w'.attempts ≡ w.attempts) × (w'.counts ≡ w.counts)

  -- A condition on each of the three ways in which a stage ends.
  unfoldable pub Ends :
      {A : Type 0}
      → (A → Exchange services → Type 0)
      → (Response → Exchange services → Type 0)
      → (String → Exchange services → Type 0)
      → Exchange services × Next A
      → Type 0
  Ends passed answered thrown (w, go a) = passed a w
  Ends passed answered thrown (w, answer r) = answered r w
  Ends passed answered thrown (w, fail e) = thrown e w

  -- A stage before the rest: what holds of each of its three ends leads to the goal.
  pub resume-Ends :
      {A B : Type 0} (Goal : Exchange services × Next B → Type 0)
      {passed : A → Exchange services → Type 0} {answered : Response → Exchange services → Type 0}
      {thrown : String → Exchange services → Type 0} (out : Exchange services × Next A)
      (rest : A → Exchange services → Exchange services × Next B)
      → Ends passed answered thrown out
      → ((r : Response) (w : Exchange services) → answered r w → Goal (w, answer r))
      → ((e : String) (w : Exchange services) → thrown e w → Goal (w, fail e))
      → ((a : A) (w : Exchange services) → passed a w → Goal (rest a w))
      → Goal (resume out rest)
  unfolding Ends
  resume-Ends Goal (w, go a) rest h refused failed next = next a w h
  resume-Ends Goal (w, answer r) rest h refused failed next = refused r w h
  resume-Ends Goal (w, fail e) rest h refused failed next = failed e w h

module _ (services : Services) (w : Exchange services) where
  open services use {store, clock, rate_limiter, authenticate, url_policy, parse_url}

  -- A refusal with the status, after which nothing has been asked of the store.
  abbrev pub Refused : ℕ → Response → Exchange services → Type 0
  Refused status r w' = Untouched w w' × (r.status_code ≡ status)

  consumed-Ends :
      (consume : Limiter (LinkStore.State store)) (ip : Text) (result : Result RateLimitResult)
      → (consume ip w.state).1 ≡ result
      → Ends
          (λ _ w'.
            Untouched w w'
            × Allowed (some consume) ip w.state
            × (w'.state ≡ (consume ip w.state).0))
          (λ r w'.
            (Refused 429 r w' × Limited (some consume) ip w.state)
            ⊎ (Refused 503 r w' × LimiterFailed (some consume) ip w.state))
          (λ e w'. ⊥)
          (consumed services result (record w { state = (consume ip w.state).0 }))
  unfolding consumed limit_headers Ends
  consumed-Ends consume ip (throw e) h = inr (((refl, refl), refl), (e, h))
  consumed-Ends consume ip (ok r) h = elim (Bool-cases r.allowed) [
    | inl passed ↦ rw passed ((refl, refl), (r, h, passed), refl)
    | inr over ↦ rw over (inl (((refl, refl), refl), (r, h, over)))
  ]

  pub consume_quota-Ends :
      (limiter : Option (Limiter (LinkStore.State store))) (ip : Text)
      → Ends
          (λ _ w'.
            Untouched w w' × Allowed limiter ip w.state × (w'.state ≡ spent limiter ip w.state))
          (λ r w'.
            (Refused 429 r w' × Limited limiter ip w.state)
            ⊎ (Refused 503 r w' × LimiterFailed limiter ip w.state))
          (λ e w'. ⊥)
          (consume_quota services limiter ip w)
  unfolding consume_quota Ends
  consume_quota-Ends none ip = ((refl, refl), tt, refl)
  consume_quota-Ends (some consume) ip = consumed-Ends consume ip (consume ip w.state).1 refl

  pub require_key-Ends :
      (authenticator : Option (JsValue → Bool)) (key : JsValue)
      → Ends
          (λ _ w'. (w' ≡ w) × KeyCheck authenticator key true)
          (λ r w'. Refused 401 r w' × KeyCheck authenticator key false × (w'.state ≡ w.state))
          (λ e w'. ⊥)
          (require_key services authenticator key w)
  unfolding require_key Ends
  require_key-Ends none key = (refl, refl)
  require_key-Ends (some accepts) key = elim (Bool-cases (accepts key)) [
    | inl known ↦ rw known (refl, refl)
    | inr unknown ↦ rw unknown (((refl, refl), refl), refl, refl)
  ]

  validated-Ends :
      (validate : Policy (LinkStore.State store)) (url : JsValue) (result : Result (Option Text))
      → (validate url w.state).1 ≡ result
      → Ends
          (λ found w'. Untouched w w' × Returned (some validate) parse_url url found)
          (λ r w'. ⊥)
          (λ e w'. Untouched w w' × PolicyThrew (some validate) url e w'.state)
          (validated services result (record w { state = (validate url w.state).0 }))
  unfolding validated Ends
  validated-Ends validate url (throw e) h =
      ((refl, refl), (w.state, ap (λ r. ((validate url w.state).0, r)) h))
  validated-Ends validate url (ok found) h = ((refl, refl), (w.state, h))

  pub validate_url-Ends :
      (policy : Option (Policy (LinkStore.State store))) (url : JsValue)
      → Ends
          (λ found w'. Untouched w w' × Returned policy parse_url url found)
          (λ r w'. ⊥)
          (λ e w'. Untouched w w' × PolicyThrew policy url e w'.state)
          (validate_url services policy url w)
  unfolding validate_url Ends
  validate_url-Ends none url = ((refl, refl), refl)
  validate_url-Ends (some validate) url = validated-Ends validate url (validate url w.state).1 refl

  pub require_target-Ends :
      (found : Option Text)
      → Ends
          (λ target w'. (w' ≡ w) × (found ≡ some target) × IsGiven target)
          (λ r w'. Refused 400 r w' × IsBlank found)
          (λ e w'. ⊥)
          (require_target services found w)
  unfolding require_target Ends
  require_target-Ends (some (c ∷ target)) = (refl, refl, (c, target, refl))
  require_target-Ends (some []) = (((refl, refl), refl), inr refl)
  require_target-Ends none = (((refl, refl), refl), inl refl)

  pub require_body-Ends :
      (body : Option CreateBody)
      → Ends
          (λ b w'. (w' ≡ w) × (body ≡ some b))
          (λ r w'. ⊥)
          (λ e w'. (w' ≡ w) × (body ≡ none))
          (require_body services body w)
  unfolding require_body Ends
  require_body-Ends none = (refl, refl)
  require_body-Ends (some b) = (refl, refl)

  pub custom_code-Ends :
      (value : JsValue)
      → Ends
          (λ chosen w'. (w' ≡ w) × Chosen value chosen)
          (λ r w'. Refused 400 r w' × ((chosen : Option Text) → ¬ Chosen value chosen))
          (λ e w'. ⊥)
          (custom_code services value w)
  unfolding custom_code refuse_code Ends
  custom_code-Ends undefined = (refl, refl)
  custom_code-Ends (text code) = elim (Bool-cases (is_link_code code)) [
    | inl fits ↦ rw fits (refl, (refl, fits))
    | inr bad ↦ rw bad (((refl, refl), refl), text-Chosen code bad)
  ]
  custom_code-Ends (number n) = (((refl, refl), refl), number-Chosen n)
  custom_code-Ends other_value = (((refl, refl), refl), other-Chosen)

  is_ttl_in_range :
      (m : ℕ) → 1 ≤ m → m ≤ max_ttl_seconds → is_ttl services (integer (pos m)) ≡ false → ⊥
  unfolding is_ttl is_safe_integer at_least nat_value
  is_ttl_in_range m low high h = ground arith

  ttl-Expiry :
      (n : JsNumber)
      → is_ttl services n ≡ true
      → Expiry clock (number n) (some (clock w.state + nat_value n * 1000))
  unfolding is_ttl is_safe_integer at_least nat_value
  ttl-Expiry (integer (pos n)) h = (w.state, n, refl, ground arith, ground arith, refl)
  ttl-Expiry (integer (negsuc n)) h = absurd (ground arith)
  ttl-Expiry other h = absurd (ground arith)

  text-Expiry : (s : Text) (expiry : Option ℕ) → ¬ Expiry clock (text s) expiry
  text-Expiry s none e = cc
  text-Expiry s (some t) (a, n, e, low, high, at) = cc

  other-Expiry : (expiry : Option ℕ) → ¬ Expiry clock other_value expiry
  other-Expiry none e = cc
  other-Expiry (some t) (a, n, e, low, high, at) = cc

  abbrev value_number : JsValue → JsNumber
  value_number (number n) = n
  value_number _ = other

  number-Expiry :
      (n : JsNumber)
      → is_ttl services n ≡ false
      → (expiry : Option ℕ) → ¬ Expiry clock (number n) expiry
  number-Expiry n h none e = cc
  number-Expiry n h (some t) (s, m, e, low, high, at) =
      is_ttl_in_range m low high (subst (λ k. is_ttl services k ≡ false) (ap value_number e) h)

  pub expires_at-Ends :
      (value : JsValue)
      → Ends
          (λ expiry w'. (w' ≡ w) × Expiry clock value expiry)
          (λ r w'. Refused 400 r w' × ((expiry : Option ℕ) → ¬ Expiry clock value expiry))
          (λ e w'. ⊥)
          (expires_at services value w)
  unfolding expires_at refuse_ttl Ends
  expires_at-Ends undefined = (refl, refl)
  expires_at-Ends (text s) = (((refl, refl), refl), text-Expiry s)
  expires_at-Ends (number n) = elim (Bool-cases (is_ttl services n)) [
    | inl fits ↦ rw fits (refl, ttl-Expiry n fits)
    | inr bad ↦ rw bad (((refl, refl), refl), number-Expiry n bad)
  ]
  expires_at-Ends other_value = (((refl, refl), refl), other-Expiry)
