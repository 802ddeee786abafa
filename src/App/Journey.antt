-- ===== src/App/Journey.antt =====
-- A link's way through the app over a store that keeps its laws: created by one request, followed
-- by another.
use wrap_link.App.{
  CreateRequest, created_link, empty, Response, Services, Body, Next, go, answer, fail, Exchange,
}
use wrap_link.App.Create.{create_link}
use wrap_link.App.Create.Guards.{status_of}
use wrap_link.App.Create.Rounds.{Ended, created, conflict, exhausted, no_code, store_failed}
use wrap_link.App.Create.Outcome.{
  Explained, create_link-Explained, rate_limited, limiter_down, unauthorized, bad_url, bad_expiry,
  policy_threw, no_body, asked,
}
use wrap_link.App.Pages.{redirect}
use wrap_link.App.Pages.Visits.{
  Visited, redirect-Visited, bad_code, no_link, found, find_failed, click_failed,
}
use wrap_link.Prelude.{
  ℕ, ◌+◌, ◌≡◌, ◌≢◌, refl, sym, ap, subst, ◌∙◌, true, Option, none, some, Text, codes, ok, throw,
  Result, [], arith,
}
use wrap_link.Prelude.Maps.{set}
use wrap_link.Links.{Link, LinkStore}
use wrap_link.Links.Contract.{IsLive, SameLink, LinkStoreLaws}
use wrap_link.PendingLinks.{is_link_code}

-- `302` to the target.
abbrev pub redirect_to : {services : Services} → Text → Exchange services → Next Response
redirect_to target v =
    go (record {
      status_code = 302;
      headers = set (codes "location") target v.headers;
      body = empty;
    })

abbrev body_of : Next Response → Body
body_of (go r) = r.body
body_of (answer r) = r.body
body_of (fail e) = empty

abbrev code_of : Body → Text
code_of (created_link code short target expiry) = code
code_of _ = []

abbrev target_of : Body → Text
target_of (created_link code short target expiry) = target
target_of _ = []

abbrev link_or : Link → Result (Option Link) → Link
link_or other (ok (some link)) = link
link_or other (ok none) = other
link_or other (throw e) = other

module _ (services : Services) (laws : LinkStoreLaws services.store) where
  open laws use {time, Holds, create-Holds, find-Holds, click-Holds}

  -- The created link, as the answer shows it.
  abbrev Made : Exchange services → Text → Text → Type 0
  Made w' code target =
      (link : Link) × Holds link w'.state × (link.code ≡ code) × (link.target_url ≡ target)

  module _ (request : CreateRequest) (w w' : Exchange services) (out : Next Response) (r : Response)
      (answered : out ≡ go r) (created_status : r.status_code ≡ 201) where
    not_created : {n : ℕ} → status_of out ≡ some n → n ≢ 201 → ⊥
    not_created e n = n (cc (sym e ∙ ap status_of answered, created_status))

    Ended-Made :
        (chosen : Option Text) (aim : Text) (expiry : Option ℕ) (w1 : Exchange services)
        (code short target : Text) (iso : Option Text)
        → r.body ≡ created_link code short target iso
        → Ended services chosen aim expiry 5 w1 w' out
        → Made w' code target
    Ended-Made chosen aim expiry w1 code short target iso b
          (created earlier c link s a p t n k q o) =
        let shown : Body.created_link c _ aim _ ≡ created_link code short target iso =
          sym (ap body_of (sym answered ∙ o)) ∙ b in
        let (held, same_code, same_target, same_expiry) = create-Holds _ link s w'.state p in
        (link, held, same_code ∙ ap code_of shown, same_target ∙ ap target_of shown)
    Ended-Made chosen aim expiry w1 code short target iso b (conflict c k a q e) =
        absurd (not_created e (omega arith))
    Ended-Made chosen aim expiry w1 code short target iso b (exhausted earlier k a t n q e) =
        absurd (not_created e (omega arith))
    Ended-Made chosen aim expiry w1 code short target iso b (no_code earlier m s g k a t n q e) =
        absurd (not_created e (omega arith))
    Ended-Made chosen aim expiry w1 code short target iso b (store_failed earlier c e a t n k q o) =
        cc

    Explained-Made :
        (code short target : Text) (iso : Option Text)
        → r.body ≡ created_link code short target iso
        → Explained services request w w' out
        → Made w' code target
    Explained-Made code short target iso b (rate_limited e u l) =
        absurd (not_created e (omega arith))
    Explained-Made code short target iso b (limiter_down e u l) =
        absurd (not_created e (omega arith))
    Explained-Made code short target iso b (unauthorized e u p a k) =
        absurd (not_created e (omega arith))
    Explained-Made code short target iso b (bad_url f e u a v n) =
        absurd (not_created e (omega arith))
    Explained-Made code short target iso b (Explained.bad_code g e u a v n) =
        absurd (not_created e (omega arith))
    Explained-Made code short target iso b (bad_expiry g e u a v n) =
        absurd (not_created e (omega arith))
    Explained-Made code short target iso b (policy_threw m e u a p) = cc
    Explained-Made code short target iso b (no_body m c t e u a g v) = cc
    Explained-Made code short target iso b (asked body chosen aim expiry w1 a p u e) =
        Ended-Made chosen aim expiry w1 code short target iso b e

  -- What `find` and `recordClick` come to where the link is held.
  met :
      (link l2 : Link) (s s2 : LinkStore.State services.store)
      → Holds link s
      → IsLive link.expires_at (time s)
      → LinkStore.find_link services.store link.code s ≡ (s2, ok (some l2))
      → SameLink l2 link × Holds link s2
  met link l2 s s2 held live f =
      let (l1, s1, e, same, held1) = find-Holds link s held live in
      let q : (s1, ok (some l1)) ≡ (s2, ok (some l2)) = sym e ∙ f in
      (
        subst (λ l. SameLink l link) (ap (λ p. link_or l1 p.1) q) same,
        subst (Holds link) (ap (λ p. p.0) q) held1,
      )

  clicked :
      (link l2 : Link) (s s2 : LinkStore.State services.store) (r : Result (Unit {0}))
      → Holds link s
      → l2.code ≡ link.code
      → LinkStore.click_link services.store l2.code s ≡ (s2, r)
      → (r ≡ ok tt) × Holds link s2
  clicked link l2 s s2 r held same c =
      let (s1, e, held1) = click-Holds link s held in
      let q : (s1, ok tt) ≡ (s2, r) =
        sym e ∙ ap (λ k. LinkStore.click_link services.store k s) (sym same) ∙ c in
      (sym (ap (λ p. p.1) q), subst (Holds link) (ap (λ p. p.0) q) held1)

  followed :
      (link : Link) (v v' : Exchange services) (out : Next Response)
      → Holds link v.state
      → IsLive link.expires_at (time v.state)
      → is_link_code link.code ≡ true
      → Visited services link.code v v' out
      → (out ≡ redirect_to link.target_url v)
        × (v'.counts ≡ record v.counts { redirects = v.counts.redirects + 1 })
        × Holds link v'.state
  followed link v v' out held live fits (bad_code no_fit st k o) = cc
  followed link v v' out held live fits (no_link fit f k o) =
      let (l, s1, e, same, held1) = find-Holds link v.state held live in
      cc (ap (λ p. p.1) (sym f ∙ e))
  followed link v v' out held live fits (found l2 s2 fit f c k o) =
      let (same, held1) = met link l2 v.state s2 held live f in
      (
        o ∙ ap (λ t. redirect_to t v) same.same_target,
        k,
        (clicked link l2 s2 v'.state (ok tt) held1 same.same_code c).1,
      )
  followed link v v' out held live fits (find_failed e fit f k o) =
      let (l, s1, e1, same, held1) = find-Holds link v.state held live in
      cc (ap (λ p. p.1) (sym f ∙ e1))
  followed link v v' out held live fits (click_failed l2 s2 e fit f c k o) =
      let (same, held1) = met link l2 v.state s2 held live f in
      cc ((clicked link l2 s2 v'.state (throw e) held1 same.same_code c).0)

  -- A request that was answered with 201 has left a link in the store, which has the code and the
  -- target of its answer.
  pub create_link-Holds :
      (request : CreateRequest) (w w' : Exchange services) (r : Response) (code short target : Text)
      (expiry : Option Text)
      → create_link services request w ≡ (w', go r)
      → r.status_code ≡ 201
      → r.body ≡ created_link code short target expiry
      → Made w' code target
  create_link-Holds request w w' r code short target expiry e n b =
      Explained-Made request w w' (go r) r refl n code short target expiry b (
        subst (λ o. Explained services request w o.0 o.1) e
          (create_link-Explained services request w))

  -- Over a store that keeps the contract: if a request to create a link was answered with 201, and
  -- the code of its answer is in the pattern of codes, then a later visit of that code answers 302 to
  -- the target of that answer and counts one redirect, provided that the store still holds the link
  -- at the visit and the link has not expired then.
  pub created_link_redirects :
      (request : CreateRequest) (w w' v : Exchange services) (r : Response)
      (code short target : Text) (expiry : Option Text)
      → create_link services request w ≡ (w', go r)
      → r.status_code ≡ 201
      → r.body ≡ created_link code short target expiry
      → is_link_code code ≡ true
      → ((link : Link)
          → Holds link w'.state
          → link.code ≡ code
          → Holds link v.state × IsLive link.expires_at (time v.state))
      → (let (v', out) = redirect services code v in
          (out ≡ redirect_to target v)
          × (v'.counts ≡ record v.counts { redirects = v.counts.redirects + 1 }))
  created_link_redirects request w w' v r code short target expiry e n b fits kept =
      let (link, held, same_code, same_target) =
        create_link-Holds request w w' r code short target expiry e n b in
      let (held_later, live) = kept link held same_code in
      let (o, k, after) =
        followed link v (redirect services link.code v).0 (redirect services link.code v).1
          held_later live (ap is_link_code same_code ∙ fits)
          (redirect-Visited services link.code v) in
      subst
        (λ c.
          ((redirect services c v).1 ≡ redirect_to target v)
          × ((redirect services c v).0.counts
              ≡ record v.counts { redirects = v.counts.redirects + 1 }))
        same_code (o ∙ ap (λ t. redirect_to t v) same_target, k)
