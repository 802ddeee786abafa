-- ===== src/SyncWorker/Effects.antt =====
-- What the commands do to a shard's queue and lock, and lists that begin alike.
use wrap_link.Prelude.{
  ℕ, zero, suc, ◌≡◌, ◌≢◌, ◌⊎◌, refl, sym, ap, ◌∙◌, inl, inr, true, false, List, [], ◌∷◌, ◌++◌,
  Option, none, some, Text, length, take, drop, ==_iff, All, In, Bool-cases,
}
use wrap_link.SyncWorker.{
  Shard, SyncCompletion, owns, finish_batch, complete, release, acquire, acquire_if_free,
}

abbrev pub Prefix : List Text → List Text → Type 0
Prefix xs ys = (rest : List Text) × (xs ++ rest ≡ ys)

pub take-Prefix : (n : ℕ) (xs : List Text) → Prefix (take n xs) xs
take-Prefix zero xs = (xs, refl)
take-Prefix (suc n) [] = ([], refl)
take-Prefix (suc n) (x ∷ xs) = let (rest, e) = take-Prefix n xs in (rest, ap (◌∷◌ x) e)

pub drop-length-append : (xs ys : List Text) → drop (length xs) (xs ++ ys) ≡ ys
drop-length-append [] ys = refl
drop-length-append (x ∷ xs) ys = drop-length-append xs ys

pub Prefix-append : (xs ys more : List Text) → Prefix xs ys → Prefix xs (ys ++ more)
Prefix-append xs ys more (rest, e) =
    (rest ++ more, sym (append_assoc xs rest more) ∙ ap (λ zs. zs ++ more) e)
  where
    append_assoc : (xs ys zs : List Text) → (xs ++ ys) ++ zs ≡ xs ++ (ys ++ zs)
    append_assoc [] ys zs = refl
    append_assoc (x ∷ xs) ys zs = ap (◌∷◌ x) (append_assoc xs ys zs)

pub In-left : (x : Text) (xs ys : List Text) → In x xs → In x (xs ++ ys)
In-left x [] ys i = absurd i
In-left x (y ∷ xs) ys (inl e) = inl e
In-left x (y ∷ xs) ys (inr i) = inr (In-left x xs ys i)

pub In-right : (x : Text) (xs ys : List Text) → In x ys → In x (xs ++ ys)
In-right x [] ys i = i
In-right x (y ∷ xs) ys i = inr (In-right x xs ys i)

pub All-map :
    {P Q : Text → Type 0} (f : (x : Text) → P x → Q x) (xs : List Text) → All P xs → All Q xs
All-map f [] a = tt
All-map f (x ∷ xs) a = (f x a.0, All-map f xs a.1)

owner : (t : ℕ) (l : Option ℕ) → owns t l ≡ true → l ≡ some t
unfolding owns
owner t none h = cc
owner t (some u) h = ap some ((==_iff u t).0 h)

module _ (t : ℕ) (s : Shard) where
  free-queue : (l : Option ℕ) → (acquire_if_free l t s).0.queue ≡ s.queue
  unfolding acquire_if_free
  free-queue none = refl
  free-queue (some u) = refl

  free-lock :
      (l : Option ℕ) (u : ℕ) → u ≢ t → (acquire_if_free l t s).0.lock ≡ some u → s.lock ≡ some u
  unfolding acquire_if_free
  free-lock none u n e = absurd (n (sym (same e)))
    where
      same : {x y : ℕ} → ◌≡◌ {A = Option ℕ} (some x) (some y) → x ≡ y
      same e = cc
  free-lock (some v) u n e = e

  pub acquire-queue : (acquire t s).0.queue ≡ s.queue
  unfolding acquire
  acquire-queue = free-queue s.lock

  pub acquire-lock : (u : ℕ) → u ≢ t → (acquire t s).0.lock ≡ some u → s.lock ≡ some u
  unfolding acquire
  acquire-lock = free-lock s.lock

  pub release-queue : (release t s).queue ≡ s.queue
  unfolding release
  release-queue = elim (Bool-cases (owns t s.lock)) [ inl h ↦ rw h refl | inr h ↦ rw h refl ]

  pub release-lock : (u : ℕ) → (release t s).lock ≡ some u → s.lock ≡ some u
  unfolding release
  release-lock u = elim (Bool-cases (owns t s.lock)) [
    | inl h ↦ rw h (λ e. cc)
    | inr h ↦ rw h (λ e. e)
  ]

  -- `complete` without the lock does nothing; with it, it trims the queue and frees the lock.
  pub complete-cases :
      (c : SyncCompletion)
      → (complete t c s ≡ (s, false))
        ⊎ (s.lock ≡ some t)
          × ((s' : Shard) × (complete t c s ≡ (s', true))
              × (s'.queue ≡ drop c.consumed s.queue)
              × (s'.lock ≡ none))
  unfolding complete finish_batch
  complete-cases c = elim (Bool-cases (owns t s.lock)) [
    | inr h ↦ inl (rw h refl)
    | inl h ↦ inr (owner t s.lock h, (finish_batch c s, rw h refl, refl, refl))
  ]
