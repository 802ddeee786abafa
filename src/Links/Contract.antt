-- ===== src/Links/Contract.antt =====
-- What the program relies on in a `LinkStore` (src/domain/link.ts): a link that was created is found,
-- with the target and the dates it was created with, until it expires. Counts of clicks may lag.
use wrap_link.Links.{Link, CreateLinkInput, LinkStore}
use wrap_link.Prelude.{ℕ, ◌<◌, ◌≡◌, Option, none, some, ok}

abbrev pub IsLive : Option ℕ → ℕ → Type 0
IsLive none now = Unit
IsLive (some t) now = now < t

-- Equal in all but the clicks.
pub record SameLink (a b : Link) : Type 0 where
  pub same_code : a.code ≡ b.code
  pub same_target : a.target_url ≡ b.target_url
  pub same_creation : a.created_at ≡ b.created_at
  pub same_expiry : a.expires_at ≡ b.expires_at

pub record LinkStoreLaws (store : LinkStore) : Type 1 where
  pub time : LinkStore.State store → ℕ
  -- the link is in the store, in a state in which its calls succeed
  pub Holds : Link → LinkStore.State store → Type 0
  pub create-Holds :
      (input : CreateLinkInput) (link : Link) (s s' : LinkStore.State store)
      → LinkStore.create_link store input s ≡ (s', ok (some link))
      → Holds link s'
        × (link.code ≡ input.code)
        × (link.target_url ≡ input.target_url)
        × (link.expires_at ≡ input.expires_at)
  pub find-Holds :
      (link : Link) (s : LinkStore.State store)
      → Holds link s
      → IsLive link.expires_at (time s)
      → (found : Link) × (s' : LinkStore.State store) × (LinkStore.find_link store link.code s
          ≡ (s', ok (some found)))
        × SameLink found link
        × Holds link s'
  pub click-Holds :
      (link : Link) (s : LinkStore.State store)
      → Holds link s
      → (s' : LinkStore.State store) × (LinkStore.click_link store link.code s ≡ (s', ok tt))
        × Holds link s'
