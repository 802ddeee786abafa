-- ===== src/App/Tests.antt =====
-- The app over the memory store, and the theorems at inputs that meet their hypotheses.
use wrap_link.App.{CreateRequest, Response, created_link, Services, go, Exchange}
use wrap_link.App.Create.{create_link}
use wrap_link.App.Create.Outcome.{Explained, create_link-Explained}
use wrap_link.App.Pages.{redirect}
use wrap_link.App.Pages.Visits.{Visited, redirect-Visited}
use wrap_link.App.Journey.{redirect_to, created_link_redirects}
use wrap_link.Prelude.{
  ℕ, ◌≡◌, refl, sym, ap, subst, ◌∙◌, true, [], ◌∷◌, Option, none, some, Text, codes, text,
  undefined, text_eq, ok,
}
use wrap_link.Prelude.Maps.{Map, get, set}
use wrap_link.Keys.{decimal}
use wrap_link.MemoryStore
use wrap_link.PendingLinks.{is_link_code}
use wrap_link.Links.{Link, custom}
use wrap_link.Links.Contract.{IsLive, LinkStoreLaws}
use wrap_link.MemoryStore.Timed.{Stored, memory_link_store, timed_laws, memory_Holds-Stored}
use wrap_link.UrlPolicy.{Url}

abbrev url : Url
url = record {
  protocol = codes "https:";
  username = [];
  password = [];
  hostname = codes "example.com";
  href = codes "https://example.com/";
}

abbrev site : Services
site = record {
  store = memory_link_store;
  clock = λ s. s.now;
  rate_limiter = some (λ ip s.
      (s, ok (record { allowed = true; limit = 5; remaining = 4; retry_after_seconds = 60 })));
  authenticate = none;
  url_policy = none;
  parse_url = λ t. some url;
  code_generator = λ s. (s, ok (codes "generate"));
  render_metrics = λ s. (s, ok []);
  extra_metrics = none;
  to_iso = λ t. t ∷ [];
  base_url = codes "https://w.l";
}

abbrev request : CreateRequest
request = record {
  ip = codes "10.0.0.1";
  api_key = undefined;
  body = some (record {
    url = text (codes "https://example.com/");
    custom_code = text (codes "docs");
    expires_in_seconds = undefined;
  });
}

abbrev start : Exchange site
start = record {
  state = record { store = record { links = []; max_links = 10 }; now = 7 };
  counts = record { created = 0; redirects = 0; misses = 0 };
  attempts = [];
  headers = [];
}

create_link-Explained_example :
    Explained site request start
      (create_link site request start).0
      (create_link site request start).1
create_link-Explained_example = create_link-Explained site request start

redirect-Visited_example :
    Visited site
      (codes "docs")
      start
      (redirect site (codes "docs") start).0
      (redirect site (codes "docs") start).1
redirect-Visited_example = redirect-Visited site (codes "docs") start

abbrev docs : Link
docs = record {
  code = codes "docs";
  target_url = codes "https://example.com/";
  created_at = 7;
  expires_at = none;
  clicks = 0;
}

abbrev limits : Map Text
limits =
    (codes "rate-limit-limit", codes "5")
    ∷ (codes "rate-limit-remaining", codes "4")
    ∷ (codes "rate-limit-reset", codes "60")
    ∷ []

abbrev finished : Exchange site
finished = record {
  state = record { store = record { links = (codes "docs", docs) ∷ []; max_links = 10 }; now = 7 };
  counts = record { created = 1; redirects = 0; misses = 0 };
  attempts =
      record {
        input = record {
          code = codes "docs";
          target_url = codes "https://example.com/";
          expires_at = none;
          code_source = custom;
        };
        result = ok (some docs);
      }
      ∷ [];
  headers = limits;
}

abbrev reply : Response
reply = record {
  status_code = 201;
  headers = limits;
  body = created_link (codes "docs") (codes "https://w.l/docs") (codes "https://example.com/") none;
}

created : create_link site request start ≡ (finished, go reply)
unfolding create_link text_eq MemoryStore.create get set decimal
created = refl

docs_fits : is_link_code (codes "docs") ≡ true
unfolding is_link_code
docs_fits = refl

abbrev expiry_of : Option Link → Option ℕ
expiry_of none = none
expiry_of (some l) = l.expires_at

abbrev lookup : Text → Option Link
lookup code = get code finished.state.store.links

never_expires :
    (link : Link) → Stored link finished.state → link.code ≡ docs.code → link.expires_at ≡ none
unfolding get text_eq
never_expires link (held, e, k) same =
    sym k.same_expiry ∙ sym (ap expiry_of (sym (ap lookup same) ∙ e))

kept :
    (link : Link)
    → LinkStoreLaws.Holds timed_laws link finished.state
    → link.code ≡ docs.code
    → LinkStoreLaws.Holds timed_laws link finished.state
      × IsLive link.expires_at (LinkStoreLaws.time timed_laws finished.state)
kept link held same = (
  held,
  subst (λ x. IsLive x (LinkStoreLaws.time timed_laws finished.state))
      (sym (never_expires link (memory_Holds-Stored link finished.state held) same)) tt,
)

created_link_redirects_example :
    (let (v', out) = redirect site (codes "docs") finished in
      (out ≡ redirect_to (codes "https://example.com/") finished)
      × (v'.counts ≡ record finished.counts { redirects = 1 }))
created_link_redirects_example =
    created_link_redirects site timed_laws request start finished finished reply (codes "docs")
      (codes "https://w.l/docs") (codes "https://example.com/") none created refl refl docs_fits
      kept
