-- ===== src/Links/Durable.antt =====
-- What a cache relies on in the durable store behind it: at each time the store shows one link for a
-- code or none; a call that succeeds answers by what is shown; and no call takes back a link that has
-- not expired.
use wrap_link.Links.{Link, CreateLinkInput, LinkStore}
use wrap_link.Links.Contract.{IsLive, SameLink}
use wrap_link.Prelude.{ℕ, ◌≤◌, ◌≡◌, Option, none, some, Text, ok}

-- No link and no link, or two that are equal in all but the clicks.
abbrev pub SameAnswer : Option Link → Option Link → Type 0
SameAnswer none none = Unit
SameAnswer none (some b) = ⊥
SameAnswer (some a) none = ⊥
SameAnswer (some a) (some b) = SameLink a b

-- Time goes on, and every link that was shown and has not expired is shown still.
abbrev pub Keeps :
    {State : Type 0} → (State → ℕ) → (Text → State → Option Link) → State → State → Type 0
Keeps time shown s s' =
    (time s ≤ time s')
    × ((code : Text) (link : Link)
        → shown code s ≡ some link
        → IsLive link.expires_at (time s')
        → (link' : Link) × (shown code s' ≡ some link') × SameLink link link')

pub record DurableStore (store : LinkStore) : Type 0 where
  pub time : LinkStore.State store → ℕ
  pub shown : Text → LinkStore.State store → Option Link
  pub create-Keeps :
      (input : CreateLinkInput) (s : LinkStore.State store)
      → Keeps time shown s (LinkStore.create_link store input s).0
  pub find-Keeps :
      (code : Text) (s : LinkStore.State store)
      → Keeps time shown s (LinkStore.find_link store code s).0
  pub click-Keeps :
      (code : Text) (s : LinkStore.State store)
      → Keeps time shown s (LinkStore.click_link store code s).0
  pub create-shown :
      (input : CreateLinkInput) (link : Link) (s s' : LinkStore.State store)
      → LinkStore.create_link store input s ≡ (s', ok (some link))
      → IsLive link.expires_at (time s')
      → (link' : Link) × (shown link.code s' ≡ some link') × SameLink link link'
  pub create-new :
      (input : CreateLinkInput) (link : Link) (s s' : LinkStore.State store)
      → LinkStore.create_link store input s ≡ (s', ok (some link))
      → (shown link.code s ≡ none)
        × (link.code ≡ input.code)
        × (link.target_url ≡ input.target_url)
        × (link.expires_at ≡ input.expires_at)
  pub find-shown :
      (code : Text) (s s' : LinkStore.State store) (found : Option Link)
      → LinkStore.find_link store code s ≡ (s', ok found)
      → (shown code s ≡ found) × (shown code s' ≡ found)
  pub shown-code :
      (code : Text) (s : LinkStore.State store) (link : Link)
      → shown code s ≡ some link
      → link.code ≡ code
