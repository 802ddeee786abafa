-- ===== src/App/Create/Rounds.antt =====
-- The loop of `POST /api/v1/links`: at most so many calls of `store.create`, and what ends it.
use wrap_link.App.{Response, Services, Attempt, Counts, Next, go, fail, Exchange, resume}
use wrap_link.App.Create.{
  input_of, code_for, generated_code, created_response, stored, try_code, attempt_rounds,
}
use wrap_link.App.Create.Guards.{status_of}
use wrap_link.Prelude.{
  ℕ, zero, suc, ◌+◌, ◌<◌, ◌≡◌, refl, sym, ap, ◌∙◌, List, [], ◌∷◌, ◌++◌, Option, none, some, Text,
  String, length, All, Result, ok, throw, arith,
}
use wrap_link.Links.{LinkStore, Link}
use mathlib.Core.List.{append_assoc, append-nil}

-- The attempt for a code, with its result.
abbrev pub attempt_of : Option Text → Text → Option ℕ → Text → Result (Option Link) → Attempt
attempt_of chosen target expiry code result = record {
  input = input_of chosen target expiry code;
  result = result;
}

-- An attempt for a generated code that was taken.
abbrev pub Taken : Text → Option ℕ → Attempt → Type 0
Taken target expiry a = a ≡ attempt_of none target expiry a.input.code (ok none)

-- The code that was asked for, on the first attempt; with none, the attempts may go on.
abbrev pub AsChosen : Option Text → List Attempt → Text → Type 0
AsChosen none earlier code = Unit
AsChosen (some asked) earlier code = (earlier ≡ []) × (code ≡ asked)

module _ (services : Services) (chosen : Option Text) (target : Text) (expiry : Option ℕ) where
  -- How the loop ends: the calls that it has made, in order, the counters and the answer.
  pub data Ended (rounds : ℕ) (w w' : Exchange services) (out : Next Response) : Type 0 where
    created :
        (earlier : List Attempt) (code : Text) (link : Link) (s : LinkStore.State services.store)
        → w'.attempts
          ≡ w.attempts ++ (earlier ++ attempt_of chosen target expiry code (ok (some link)) ∷ [])
        → LinkStore.create_link services.store (input_of chosen target expiry code) s
          ≡ (w'.state, ok (some link))
        → All (Taken target expiry) earlier
        → length earlier < rounds
        → AsChosen chosen earlier code
        → w'.counts ≡ record w.counts { created = w.counts.created + 1 }
        → out ≡ go (created_response services code target expiry w.headers)
        → Ended rounds w w' out
    conflict :
        (code : Text)
        → chosen ≡ some code
        → w'.attempts ≡ w.attempts ++ attempt_of chosen target expiry code (ok none) ∷ []
        → w'.counts ≡ w.counts
        → status_of out ≡ some 409
        → Ended rounds w w' out
    exhausted :
        (earlier : List Attempt)
        → chosen ≡ none
        → w'.attempts ≡ w.attempts ++ earlier
        → All (Taken target expiry) earlier
        → length earlier ≡ rounds
        → w'.counts ≡ w.counts
        → status_of out ≡ some 503
        → Ended rounds w w' out
    no_code :
        (earlier : List Attempt) (e : String) (s : LinkStore.State services.store)
        → services.code_generator s ≡ (w'.state, throw e)
        → chosen ≡ none
        → w'.attempts ≡ w.attempts ++ earlier
        → All (Taken target expiry) earlier
        → length earlier < rounds
        → w'.counts ≡ w.counts
        → status_of out ≡ some 503
        → Ended rounds w w' out
    store_failed :
        (earlier : List Attempt) (code : Text) (e : String)
        → w'.attempts
          ≡ w.attempts ++ (earlier ++ attempt_of chosen target expiry code (throw e) ∷ [])
        → All (Taken target expiry) earlier
        → length earlier < rounds
        → AsChosen chosen earlier code
        → w'.counts ≡ w.counts
        → out ≡ fail e
        → Ended rounds w w' out

-- One more attempt in front of those of the rest.
regroup :
    {all grown : List Attempt} (before rest : List Attempt) (a : Attempt)
    → all ≡ grown ++ rest
    → grown ≡ before ++ a ∷ []
    → all ≡ before ++ a ∷ rest
regroup before rest a h g = h ∙ ap (λ l. l ++ rest) g ∙ append_assoc before (a ∷ []) rest

-- A taken code before the rest of the loop.
module _ (services : Services) (target : Text) (expiry : Option ℕ) where
  later :
      (rounds : ℕ) (w w1 w' : Exchange services) (out : Next Response) (code : Text)
      → w1.attempts ≡ w.attempts ++ attempt_of none target expiry code (ok none) ∷ []
      → w1.counts ≡ w.counts
      → w1.headers ≡ w.headers
      → Ended services none target expiry rounds w1 w' out
      → Ended services none target expiry (suc rounds) w w' out
  later rounds w w1 w' out code grown counts headers (created earlier c link st a p t n s k o) =
      created (attempt_of none target expiry code (ok none) ∷ earlier) c link st
        (regroup w.attempts _ _ a grown) p (refl, t) (omega arith) tt
        (k ∙ ap (λ (c : Counts). record c { created = c.created + 1 }) counts)
        (o ∙ ap (λ h. go (created_response services c target expiry h)) headers)
  later rounds w w1 w' out code grown counts headers (conflict c e a k o) = cc
  later rounds w w1 w' out code grown counts headers (exhausted earlier e a t n k o) =
      exhausted (attempt_of none target expiry code (ok none) ∷ earlier) refl
        (regroup w.attempts _ _ a grown) (refl, t) (omega (arith, n)) (k ∙ counts) o
  later rounds w w1 w' out code grown counts headers (no_code earlier m s g e a t n k o) =
      no_code (attempt_of none target expiry code (ok none) ∷ earlier) m s g refl
        (regroup w.attempts _ _ a grown) (refl, t) (omega arith) (k ∙ counts) o
  later rounds w w1 w' out code grown counts headers (store_failed earlier c e a t n s k o) =
      store_failed (attempt_of none target expiry code (ok none) ∷ earlier) c e
        (regroup w.attempts _ _ a grown) (refl, t) (omega arith) tt (k ∙ counts) o

  -- The code of a round is there, and the rest of the loop is known to end.
  round_Ended :
      (rounds : ℕ) (w w1 : Exchange services) (code : Text) (result : Result (Option Link))
      (s : LinkStore.State services.store)
      → LinkStore.create_link services.store (input_of none target expiry code) s
        ≡ (w1.state, result)
      → w1.attempts ≡ w.attempts ++ attempt_of none target expiry code result ∷ []
      → w1.counts ≡ w.counts
      → w1.headers ≡ w.headers
      → (let out = attempt_rounds services rounds none target expiry w1 in
          Ended services none target expiry rounds w1 out.0 out.1)
      → (let out =
            stored services none target expiry code
              (attempt_rounds services rounds none target expiry)
              result
              w1 in
          Ended services none target expiry (suc rounds) w out.0 out.1)
  unfolding stored
  round_Ended rounds w w1 code (throw e) s p a k h rest =
      store_failed [] code e a tt (omega arith) tt k refl
  round_Ended rounds w w1 code (ok (some link)) s p a k h rest =
      created [] code link s a p tt (omega arith) tt
        (ap (λ (c : Counts). record c { created = c.created + 1 }) k)
        (ap (λ h'. go (created_response services code target expiry h')) h)
  round_Ended rounds w w1 code (ok none) s p a k h rest = later rounds w w1 _ _ code a k h rest

  abbrev reply : Text → Exchange services → Result (Option Link)
  reply code w = (LinkStore.create_link services.store (input_of none target expiry code) w.state).1

  coded :
      (rounds : ℕ) (w w1 : Exchange services) (code : Result Text)
      (s : LinkStore.State services.store)
      → services.code_generator s ≡ (w1.state, code)
      → w1.attempts ≡ w.attempts
      → w1.counts ≡ w.counts
      → w1.headers ≡ w.headers
      → ((w2 : Exchange services)
          → (let out = attempt_rounds services rounds none target expiry w2 in
              Ended services none target expiry rounds w2 out.0 out.1))
      → (let out = resume (generated_code services code w1) (
            try_code services none target expiry
              (attempt_rounds services rounds none target expiry)) in
          Ended services none target expiry (suc rounds) w out.0 out.1)
  unfolding generated_code try_code
  coded rounds w w1 (throw e) s g a k h rest =
      no_code [] e s g refl (a ∙ sym (append-nil w.attempts)) tt (omega arith) k refl
  coded rounds w w1 (ok code) s g a k h rest =
      round_Ended rounds w _ code _ w1.state refl
        (ap (λ l. l ++ attempt_of none target expiry code (reply code w1) ∷ []) a) k h (rest _)

  generated_Ended :
      (rounds : ℕ) (w : Exchange services)
      → (let out = attempt_rounds services rounds none target expiry w in
          Ended services none target expiry rounds w out.0 out.1)
  unfolding attempt_rounds code_for
  generated_Ended zero w = exhausted [] refl (sym (append-nil w.attempts)) tt refl refl refl
  generated_Ended (suc rounds) w =
      coded rounds w _ (services.code_generator w.state).1 w.state refl refl refl refl
        (λ w2. generated_Ended rounds w2)

  custom_Ended :
      (rounds : ℕ) (w : Exchange services) (code : Text) (result : Result (Option Link))
      (w1 : Exchange services) (s : LinkStore.State services.store)
      → LinkStore.create_link services.store (input_of (some code) target expiry code) s
        ≡ (w1.state, result)
      → w1.attempts ≡ w.attempts ++ attempt_of (some code) target expiry code result ∷ []
      → w1.counts ≡ w.counts
      → w1.headers ≡ w.headers
      → (let out =
            stored services
              (some code)
              target
              expiry
              code
              (attempt_rounds services rounds (some code) target expiry)
              result
              w1 in
          Ended services (some code) target expiry (suc rounds) w out.0 out.1)
  unfolding stored
  custom_Ended rounds w code (throw e) w1 s p a k h =
      store_failed [] code e a tt (omega arith) (refl, refl) k refl
  custom_Ended rounds w code (ok (some link)) w1 s p a k h =
      created [] code link s a p tt (omega arith) (refl, refl)
        (ap (λ (c : Counts). record c { created = c.created + 1 }) k)
        (ap (λ h'. go (created_response services code target expiry h')) h)
  custom_Ended rounds w code (ok none) w1 s p a k h = conflict code refl a k refl

  pub attempt_rounds-Ended :
      (rounds : ℕ) (chosen : Option Text) (w : Exchange services)
      → (let out = attempt_rounds services (suc rounds) chosen target expiry w in
          Ended services chosen target expiry (suc rounds) w out.0 out.1)
  unfolding attempt_rounds code_for try_code
  attempt_rounds-Ended rounds none w = generated_Ended (suc rounds) w
  attempt_rounds-Ended rounds (some code) w =
      custom_Ended rounds w code _ _ w.state refl refl refl refl
