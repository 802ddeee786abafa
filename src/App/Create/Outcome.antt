-- ===== src/App/Create/Outcome.antt =====
-- What `POST /api/v1/links` comes to, on every path through its guards and its loop.
use wrap_link.App.{CreateBody, CreateRequest, Response, Services, Next, fail, Exchange, resume}
use wrap_link.App.Create.{
  url_of, consume_quota, require_key, validate_url, require_target, require_body, custom_code,
  expires_at, attempt_rounds, create_link,
}
use wrap_link.App.Create.Guards.{
  Chosen, IsBlank, status_of, Allowed, Limited, LimiterFailed, spent, Returned, Expiry, KeyCheck,
  Untouched, IsGiven, PolicyThrew, resume-Ends, consume_quota-Ends, require_key-Ends,
  validate_url-Ends, require_target-Ends, require_body-Ends, custom_code-Ends, expires_at-Ends,
}
use wrap_link.App.Create.Rounds.{Ended, attempt_rounds-Ended}
use wrap_link.Prelude.{
  ℕ, ◌≡◌, refl, ap, subst, ◌∙◌, inl, inr, true, false, ◌∷◌, Option, none, some, Text, String,
  undefined,
}

module _ (services : Services) (request : CreateRequest) (w : Exchange services) where
  open services use {clock, rate_limiter, authenticate, url_policy, parse_url}

  -- The two guards that every other path has passed.
  abbrev Admitted : Type 0
  Admitted = Allowed rate_limiter request.ip w.state × KeyCheck authenticate request.api_key true

  -- What the guards before the loop have found in the body.
  pub record IsProper (body : CreateBody) (chosen : Option Text) (target : Text) (expiry : Option ℕ)
      : Type 0 where
    pub given : request.body ≡ some body
    pub valid_url : Returned url_policy parse_url body.url (some target)
    pub valid_code : Chosen body.custom_code chosen
    pub valid_expiry : Expiry clock body.expires_in_seconds expiry

  pub data Explained (w' : Exchange services) (out : Next Response) : Type 0 where
    rate_limited :
        status_of out ≡ some 429
        → Untouched w w'
        → Limited rate_limiter request.ip w.state
        → Explained w' out
    limiter_down :
        status_of out ≡ some 503
        → Untouched w w'
        → LimiterFailed rate_limiter request.ip w.state
        → Explained w' out
    unauthorized :
        status_of out ≡ some 401
        → Untouched w w'
        → w'.state ≡ spent rate_limiter request.ip w.state
        → Allowed rate_limiter request.ip w.state
        → KeyCheck authenticate request.api_key false
        → Explained w' out
    bad_url :
        (found : Option Text)
        → status_of out ≡ some 400
        → Untouched w w'
        → Admitted
        → Returned url_policy parse_url (url_of request.body) found
        → IsBlank found
        → Explained w' out
    bad_code :
        (body : CreateBody)
        → status_of out ≡ some 400
        → Untouched w w'
        → Admitted
        → request.body ≡ some body
        → ((chosen : Option Text) → ¬ Chosen body.custom_code chosen)
        → Explained w' out
    bad_expiry :
        (body : CreateBody)
        → status_of out ≡ some 400
        → Untouched w w'
        → Admitted
        → request.body ≡ some body
        → ((expiry : Option ℕ) → ¬ Expiry clock body.expires_in_seconds expiry)
        → Explained w' out
    policy_threw :
        (e : String)
        → out ≡ fail e
        → Untouched w w'
        → Admitted
        → PolicyThrew url_policy (url_of request.body) e w'.state
        → Explained w' out
    no_body :
        (e : String) (c : ℕ) (target : Text)
        → out ≡ fail e
        → Untouched w w'
        → Admitted
        → request.body ≡ none
        → Returned url_policy parse_url undefined (some (c ∷ target))
        → Explained w' out
    asked :
        (body : CreateBody) (chosen : Option Text) (target : Text) (expiry : Option ℕ)
        (w1 : Exchange services)
        → Admitted
        → IsProper body chosen target expiry
        → Untouched w w1
        → Ended services chosen target expiry 5 w1 w' out
        → Explained w' out

  abbrev Goal : Exchange services × Next Response → Type 0
  Goal out = Explained out.0 out.1

  moved : {w1 w2 : Exchange services} → w2 ≡ w1 → Untouched w w1 → Untouched w w2
  moved e u = (ap (λ v. v.attempts) e ∙ u.0, ap (λ v. v.counts) e ∙ u.1)

  joined : (w1 w2 : Exchange services) → Untouched w1 w2 → Untouched w w1 → Untouched w w2
  joined w1 w2 b a = (b.0 ∙ a.0, b.1 ∙ a.1)

  module _ (admitted : Admitted) where
    module _ (body : CreateBody) (given : request.body ≡ some body) (target : Text)
        (valid_url : Returned url_policy parse_url body.url (some target)) where
      expiry_Explained :
          (chosen : Option Text) (w1 : Exchange services)
          → Chosen body.custom_code chosen
          → Untouched w w1
          → Goal (
              resume
                (expires_at services body.expires_in_seconds w1)
                (λ expiry. attempt_rounds services 5 chosen target expiry))
      expiry_Explained chosen w1 valid_code u =
          resume-Ends Goal (expires_at services body.expires_in_seconds w1) _
            (expires_at-Ends services w1 body.expires_in_seconds)
            (λ r w2 h. bad_expiry body (ap some h.0.1) (joined w1 w2 h.0.0 u) admitted given h.1)
            (λ e w2 h. absurd h)
            (λ expiry w2 h.
              asked body chosen target expiry w2 admitted
                (record {
                  given = given;
                  valid_url = valid_url;
                  valid_code = valid_code;
                  valid_expiry = h.1;
                })
                (moved h.0 u) (attempt_rounds-Ended services target expiry 4 chosen w2))

      code_Explained :
          (w1 : Exchange services)
          → Untouched w w1
          → Goal (
              resume (custom_code services body.custom_code w1) (λ chosen w2.
                resume
                  (expires_at services body.expires_in_seconds w2)
                  (λ expiry. attempt_rounds services 5 chosen target expiry)))
      code_Explained w1 u =
          resume-Ends Goal (custom_code services body.custom_code w1) _
            (custom_code-Ends services w1 body.custom_code)
            (λ r w2 h. bad_code body (ap some h.0.1) (joined w1 w2 h.0.0 u) admitted given h.1)
            (λ e w2 h. absurd h) (λ chosen w2 h. expiry_Explained chosen w2 h.1 (moved h.0 u))

    abbrev rest_of : Text → CreateBody → Exchange services → Exchange services × Next Response
    rest_of target body w1 = resume (custom_code services body.custom_code w1) (λ chosen w2.
        resume (expires_at services body.expires_in_seconds w2)
          (λ expiry. attempt_rounds services 5 chosen target expiry))

    body_Explained :
        (target : Text) (w1 : Exchange services)
        → Returned url_policy parse_url (url_of request.body) (some target)
        → IsGiven target
        → Untouched w w1
        → Goal (resume (require_body services request.body w1) (rest_of target))
    body_Explained target w1 valid given u =
        resume-Ends Goal (require_body services request.body w1) (rest_of target)
          (require_body-Ends services w1 request.body) (λ r w2 h. absurd h)
          (λ e w2 h.
            let (c, rest, full) = given in
            no_body e c rest refl (moved h.0 u) admitted h.1 (
              subst (λ t. Returned url_policy parse_url undefined (some t)) full
                (subst (λ b. Returned url_policy parse_url (url_of b) (some target)) h.1 valid)))
          (λ body w2 h.
            code_Explained body h.1 target
              (subst (λ b. Returned url_policy parse_url (url_of b) (some target)) h.1 valid) w2
              (moved h.0 u))

    abbrev after_url : Option Text → Exchange services → Exchange services × Next Response
    after_url found w1 =
        resume (require_target services found w1)
          (λ target w2. resume (require_body services request.body w2) (rest_of target))

    url_Explained :
        (w1 : Exchange services)
        → Untouched w w1
        → Goal (resume (validate_url services url_policy (url_of request.body) w1) after_url)
    url_Explained w1 u =
        resume-Ends Goal (validate_url services url_policy (url_of request.body) w1) after_url
          (validate_url-Ends services w1 url_policy (url_of request.body)) (λ r w2 h. absurd h)
          (λ e w2 h. policy_threw e refl (joined w1 w2 h.0 u) admitted h.1)
          (λ found w2 h.
            resume-Ends Goal (require_target services found w2) _
              (require_target-Ends services w2 found)
              (λ r w3 k.
                bad_url found (ap some k.0.1) (joined w2 w3 k.0.0 (joined w1 w2 h.0 u)) admitted h.1
                  k.1)
              (λ e w3 k. absurd k)
              (λ target w3 k.
                body_Explained target w3
                  (subst (Returned url_policy parse_url (url_of request.body)) k.1 h.1) k.2
                  (moved k.0 (joined w1 w2 h.0 u))))

  key_Explained :
      (w1 : Exchange services)
      → (allowed : Allowed rate_limiter request.ip w.state)
      → w1.state ≡ spent rate_limiter request.ip w.state
      → Untouched w w1
      → Goal (
          resume (require_key services authenticate request.api_key w1) (λ _ w2.
            resume (validate_url services url_policy (url_of request.body) w2) (λ found w3.
              resume (require_target services found w3) (λ target w4.
                resume (require_body services request.body w4) (λ body w5.
                  resume (custom_code services body.custom_code w5) (λ chosen w6.
                    resume
                      (expires_at services body.expires_in_seconds w6)
                      (λ expiry. attempt_rounds services 5 chosen target expiry)))))))
  key_Explained w1 allowed paid u =
      resume-Ends Goal (require_key services authenticate request.api_key w1) _
        (require_key-Ends services w1 authenticate request.api_key)
        (λ r w2 h. unauthorized (ap some h.0.1) (joined w1 w2 h.0.0 u) (h.2 ∙ paid) allowed h.1)
        (λ e w2 h. absurd h) (λ _ w2 h. url_Explained (allowed, h.1) w2 (moved h.0 u))

  -- `POST /api/v1/links` answers 429 for a refusal of the limiter and 503 for its failure; 401
  -- for a key that is not accepted, after the limiter has counted the request; 400 for a URL, a
  -- custom code or an expiry that is not valid; in each of these, and if the policy throws, whose
  -- error goes on, or the body is missing though the policy gave a URL, which throws too, the store is
  -- not asked and nothing is counted. Else the store is asked, with the valid
  -- target and expiry alone: once for a custom code, with 409 if it is taken; up to five times for
  -- generated codes, going on only after a code that was taken, with 503 after five or when no code
  -- can be generated because the generator threw; a link that the store returns ends it with 201, that code and target in the
  -- answer, and one creation counted; and an error of the store ends it.
  pub create_link-Explained : Goal (create_link services request w)
  unfolding create_link
  create_link-Explained =
      resume-Ends Goal (consume_quota services rate_limiter request.ip w) _
        (consume_quota-Ends services w rate_limiter request.ip)
        (λ r w1 h. elim h [
          | inl (refused, limited) ↦ rate_limited (ap some refused.1) refused.0 limited
          | inr (refused, failed) ↦ limiter_down (ap some refused.1) refused.0 failed
        ])
        (λ e w1 h. absurd h) (λ _ w1 h. key_Explained w1 h.1 h.2 h.0)
