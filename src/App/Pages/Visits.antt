-- ===== src/App/Pages/Visits.antt =====
-- What a visit of a short link comes to: the calls of the store, the counters and the answer.
use wrap_link.App.{Services, Response, Next, go, fail, empty, Counts, Exchange, resume}
use wrap_link.App.Create.Guards.{status_of}
use wrap_link.App.Pages.{settled, await, count_redirect, visit, missed, redirect, send_redirect}
use wrap_link.Prelude.{
  ◌+◌, ◌≡◌, refl, ap, true, false, Option, none, some, Text, String, codes, Result, ok, throw, inl,
  inr, Bool-cases,
}
use wrap_link.Prelude.Maps.{set}
use wrap_link.Links.{LinkStore, Link}
use wrap_link.PendingLinks.{is_link_code}

module _ (services : Services) (code : Text) (w : Exchange services) where
  open services use {store}

  abbrev missed_once : Counts
  missed_once = record w.counts { misses = w.counts.misses + 1 }

  -- What the visitor gets, by what the store says.
  pub data Visited (w' : Exchange services) (out : Next Response) : Type 0 where
    bad_code :
        is_link_code code ≡ false
        → w'.state ≡ w.state
        → w'.counts ≡ missed_once
        → status_of out ≡ some 404
        → Visited w' out
    no_link :
        is_link_code code ≡ true
        → LinkStore.find_link store code w.state ≡ (w'.state, ok none)
        → w'.counts ≡ missed_once
        → status_of out ≡ some 404
        → Visited w' out
    found :
        (link : Link) (s : LinkStore.State store)
        → is_link_code code ≡ true
        → LinkStore.find_link store code w.state ≡ (s, ok (some link))
        → LinkStore.click_link store link.code s ≡ (w'.state, ok tt)
        → w'.counts ≡ record w.counts { redirects = w.counts.redirects + 1 }
        → out
          ≡ go (record {
            status_code = 302;
            headers = set (codes "location") link.target_url w.headers;
            body = empty;
          })
        → Visited w' out
    find_failed :
        (e : String)
        → is_link_code code ≡ true
        → LinkStore.find_link store code w.state ≡ (w'.state, throw e)
        → w'.counts ≡ w.counts
        → out ≡ fail e
        → Visited w' out
    click_failed :
        (link : Link) (s : LinkStore.State store) (e : String)
        → is_link_code code ≡ true
        → LinkStore.find_link store code w.state ≡ (s, ok (some link))
        → LinkStore.click_link store link.code s ≡ (w'.state, throw e)
        → w'.counts ≡ w.counts
        → out ≡ fail e
        → Visited w' out

  abbrev Goal : Exchange services × Next Response → Type 0
  Goal out = Visited out.0 out.1

  module _ (fits : is_link_code code ≡ true) where
    clicked :
        (link : Link) (s : LinkStore.State store) (r : Result (Unit {0})) (w1 : Exchange services)
        → LinkStore.find_link store code w.state ≡ (s, ok (some link))
        → LinkStore.click_link store link.code s ≡ (w1.state, r)
        → w1.counts ≡ w.counts
        → w1.headers ≡ w.headers
        → Goal (resume (settled services r w1) (λ _. send_redirect services link))
    unfolding settled send_redirect count_redirect
    clicked link s (throw e) w1 f c k h = click_failed link s e fits f c k refl
    clicked link s (ok tt) w1 f c k h =
        found link s fits f c (ap (λ (n : Counts). record n { redirects = n.redirects + 1 }) k) (
          ap
            (λ m. go (record {
              status_code = 302;
              headers = set (codes "location") link.target_url m;
              body = empty;
            }))
            h)

    answered :
        (r : Result (Option Link)) (w1 : Exchange services)
        → LinkStore.find_link store code w.state ≡ (w1.state, r)
        → w1.counts ≡ w.counts
        → w1.headers ≡ w.headers
        → Goal (resume (settled services r w1) (visit services))
    unfolding settled visit missed await
    answered (throw e) w1 f k h = find_failed e fits f k refl
    answered (ok none) w1 f k h =
        no_link fits f (ap (λ (n : Counts). record n { misses = n.misses + 1 }) k) refl
    answered (ok (some link)) w1 f k h =
        clicked link w1.state (LinkStore.click_link store link.code w1.state).1 _ f refl k h

  -- `GET /:code` answers a code out of the pattern with 404 and asks nothing of the store; a code that
  -- the store does not find with 404 too, one miss counted for either; a link that is found with 302
  -- to its target once `recordClick` of the link's code has returned, with one redirect counted. An
  -- error of either call ends the visit, and nothing is counted.
  pub redirect-Visited : Goal (redirect services code w)
  unfolding redirect await missed
  redirect-Visited = elim (Bool-cases (is_link_code code)) [
    | inl fits ↦
        rw (fits, redirect)
          (answered fits (LinkStore.find_link store code w.state).1 _ refl refl refl)
    | inr bad ↦ rw (bad, redirect) (bad_code bad refl refl refl)
  ]
