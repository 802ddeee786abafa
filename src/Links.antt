-- ===== src/Links.antt =====
-- src/domain/link.ts: the records of the link stores, and the interface of a store. A date is its
-- time in milliseconds since 1970.
pub mod Contract
pub mod Durable
use wrap_link.Prelude.{ℕ, Bool, Option, Text, Result}

pub record Link : Type 0 where
  pub code : Text
  pub target_url : Text
  pub created_at : ℕ
  pub expires_at : Option ℕ
  pub clicks : ℕ

pub data CodeSource : Type 0 where
  custom generated : CodeSource

-- `code_source` has its default filled in.
pub record CreateLinkInput : Type 0 where
  pub code : Text
  pub target_url : Text
  pub expires_at : Option ℕ
  pub code_source : CodeSource

pub record PendingLink : Type 0 where
  pub code : Text
  pub target_url : Text
  pub created_at : ℕ
  pub expires_at : Option ℕ

-- A store: its state, and one function for each method. The state holds all that decides a call's
-- outcome, the clock and what other users of the store do meanwhile among it; a promise that rejects
-- is a `throw`.
pub record LinkStore : Type 1 where
  pub State : Type 0
  pub create_link : CreateLinkInput → State → State × Result (Option Link)
  pub find_link : Text → State → State × Result (Option Link)
  pub click_link : Text → State → State × Result (Unit {0})
  pub count_links : State → State × Result ℕ
  pub is_healthy : State → State × Result Bool
