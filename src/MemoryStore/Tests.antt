-- ===== src/MemoryStore/Tests.antt =====
-- The memory store on a small history, and the theorems at inputs that meet their hypotheses.
use wrap_link.Prelude.{List, [], ◌∷◌, some, codes, arith}
use wrap_link.Links.{CreateLinkInput, custom}
use wrap_link.MemoryStore.{MemoryLinkStore, Call, creates, finds, clicks, run}
use wrap_link.MemoryStore.Laws.{IsValid, run-IsValid}

abbrev one : MemoryLinkStore
one = record { links = []; max_links = 1 }

abbrev docs : CreateLinkInput
docs = record {
  code = codes "docs";
  target_url = codes "https://example.com/";
  expires_at = some 50;
  code_source = custom;
}

abbrev calls : List Call
calls = creates docs 10 ∷ clicks (codes "docs") ∷ finds (codes "docs") 60 ∷ []

one-IsValid : IsValid one
one-IsValid = record { positive = omega arith; bounded = omega arith; distinct = tt }

run-IsValid_example : IsValid (run one calls)
run-IsValid_example = run-IsValid one calls one-IsValid
