-- ===== src/App/Pages.antt =====
-- src/app.ts: the handlers of the GET routes.
pub mod Visits
use wrap_link.App.{
  Body, Response, failure, status, exposition, inspected_link, empty, Source, Services, Next, go,
  fail, Exchange, Handler, resume, ◌>>=◌, ◌>>◌, refuse, send, with_header,
}
use wrap_link.Prelude.{
  ℕ, ◌+◌, Bool, true, false, List, [], ◌∷◌, ◌++◌, Option, none, some, Text, codes, Result, ok,
  throw, if◌then◌else◌,
}
use wrap_link.Links.{LinkStore, Link}
use wrap_link.PendingLinks.{is_link_code}

module _ (services : Services) where
  open services use {store, render_metrics, extra_metrics, to_iso, base_url}

  -- `await` of a call on the state that the exchange shares.
  settled : {A : Type 0} → Result A → Handler services A
  settled (ok a) w = (w, go a)
  settled (throw e) w = (w, fail e)

  await :
      {A : Type 0} → (LinkStore.State store → LinkStore.State store × Result A) → Handler services A
  unfolding settled
  await call w = let (s, result) = call w.state in settled result (record w { state = s })

  -- `metrics.miss()` and `metrics.redirect()`
  count_miss : Exchange services → Exchange services
  count_miss w = record w { counts = record w.counts { misses = w.counts.misses + 1 } }

  count_redirect : Exchange services → Exchange services
  count_redirect w = record w { counts = record w.counts { redirects = w.counts.redirects + 1 } }

  not_found : {A : Type 0} → Handler services A
  not_found w = refuse 404 (failure "link not found") w

  missed : {A : Type 0} → Handler services A
  unfolding count_miss not_found
  missed w = not_found (count_miss w)

  -- `reply.redirect(link.targetUrl, 302)`
  send_redirect : Link → Handler services Response
  unfolding count_redirect
  send_redirect link w =
      send 302 empty (with_header (codes "location") link.target_url (count_redirect w))

  visit : Option Link → Handler services Response
  unfolding await send_redirect missed
  visit none = missed
  visit (some link) = do await (LinkStore.click_link store link.code); send_redirect link

  -- `GET /:code`
  unfoldable pub redirect : Text → Handler services Response
  unfolding await visit missed
  redirect code w =
      if is_link_code code
      then resume (await (LinkStore.find_link store code) w) visit
      else missed w

  iso_or_null : Option ℕ → Option Text
  iso_or_null none = none
  iso_or_null (some t) = some (to_iso t)

  show : Option Link → Handler services Response
  unfolding not_found iso_or_null
  show none = not_found
  show (some link) = send 200 (
      inspected_link link (base_url ++ codes "/" ++ link.code) (to_iso link.created_at)
        (iso_or_null link.expires_at))

  -- `GET /api/v1/links/:code`
  unfoldable pub inspect : Text → Handler services Response
  unfolding await show
  inspect code = do found ← await (LinkStore.find_link store code); show found

  -- `GET /health`
  unfoldable pub health : Handler services Response
  health = send 200 (status "ok")

  readiness : Bool → Handler services Response
  readiness true = send 200 (status "ready")
  readiness false = refuse 503 (status "not_ready")

  -- `GET /ready`
  unfoldable pub ready : Handler services Response
  unfolding await readiness
  ready = do healthy ← await (LinkStore.is_healthy store); readiness healthy

  -- An error of `extraMetrics` leaves the text as it is.
  with_extra : Text → Result Text → Text
  with_extra body (ok more) = body ++ more
  with_extra body (throw e) = body

  collect_extra : Option (Source (LinkStore.State store)) → Text → Handler services Text
  unfolding with_extra
  collect_extra none body w = (w, go body)
  collect_extra (some collect) body w =
      let (s, result) = collect w.state in (record w { state = s }, go (with_extra body result))

  -- `GET /metrics`
  unfoldable pub expose_metrics : Handler services Response
  unfolding await collect_extra
  expose_metrics = do
    body ← await render_metrics
    full ← collect_extra extra_metrics body
    λ w.
        send 200 (exposition full)
          (with_header (codes "content-type") (codes "text/plain; version=0.0.4") w)
