-- ===== src/Prelude/Maps.antt =====
-- JavaScript's `Map` with string keys: entries in the order of insertion, and a key that is set anew
-- keeps its place.
use Prim.Native.Nat.{◌+◌, ◌≤◌}
use mathlib.Core.Bool.{Bool, true, false, ◌||◌}
use mathlib.Core.List.{List, [], ◌∷◌}
use mathlib.Core.Logic.{◌⊎◌, inl, inr}
use mathlib.Core.Option.{Option, none, some}
use mathlib.Core.Path.{◌≡◌, refl, sym, ◌∙◌}
use native.Mathlib.Omega.{arith}
use wrap_link.Prelude.Tests.{if◌then◌else◌, Bool-cases}
use wrap_link.Prelude.Lists.{length, In, AllDistinct}
use wrap_link.Prelude.Strings.{Text, text_eq, text_eq_iff}

abbrev pub Map : Type 0 → Type 0
Map V = List (Text × V)

-- `set.has(k)`, for a set of strings
unfoldable pub has : Text → List Text → Bool
has k [] = false
has k (j ∷ js) = text_eq j k || has k js

false-true : false ≡ true → ⊥
false-true h = cc

module _ {V : Type 0} where
  abbrev pub keys : Map V → List Text
  keys [] = []
  keys ((k, v) ∷ m) = k ∷ keys m

  unfoldable pub get : Text → Map V → Option V
  get k [] = none
  get k ((j, v) ∷ m) = if text_eq j k then some v else get k m

  unfoldable pub set : Text → V → Map V → Map V
  set k v [] = (k, v) ∷ []
  set k v ((j, w) ∷ m) = if text_eq j k then (j, v) ∷ m else (j, w) ∷ set k v m

  unfoldable pub delete : Text → Map V → Map V
  delete k [] = []
  delete k ((j, w) ∷ m) = if text_eq j k then m else (j, w) ∷ delete k m

  pub get-set :
      (k j : Text) (v : V) (m : Map V)
      → get j (set k v m) ≡ (if text_eq k j then some v else get j m)
  unfolding get set
  get-set k j v [] = refl
  get-set k j v ((i, w) ∷ m) =
      ground (arith, text_eq_iff k j, text_eq_iff i k, text_eq_iff i j, get-set k j v m)

  pub get-delete_ne : (k j : Text) (m : Map V) → text_eq k j ≡ false → get j (delete k m) ≡ get j m
  unfolding get delete
  get-delete_ne k j [] h = refl
  get-delete_ne k j ((i, w) ∷ m) h =
      ground (arith, text_eq_iff k j, text_eq_iff i k, text_eq_iff i j, get-delete_ne k j m)

  pub In-keys-set :
      (k j : Text) (v : V) (m : Map V) → In j (keys (set k v m)) → (j ≡ k) ⊎ In j (keys m)
  unfolding set
  In-keys-set k j v [] (inl e) = inl e
  In-keys-set k j v [] (inr h) = absurd h
  In-keys-set k j v ((i, w) ∷ m) h = ground (arith, In-keys-set k j v m)

  pub In-keys-delete : (k j : Text) (m : Map V) → In j (keys (delete k m)) → In j (keys m)
  unfolding delete
  In-keys-delete k j [] h = absurd h
  In-keys-delete k j ((i, w) ∷ m) h = ground (arith, In-keys-delete k j m)

  pub set-AllDistinct :
      (k : Text) (v : V) (m : Map V) → AllDistinct (keys m) → AllDistinct (keys (set k v m))
  unfolding set
  set-AllDistinct k v [] d = (λ h. h, tt)
  set-AllDistinct k v ((i, w) ∷ m) d = elim (Bool-cases (text_eq i k)) [
    | inl same ↦ rw (same, set) d
    | inr other ↦
        rw (other, set)
          (
            λ h. elim (In-keys-set k i v m h) [
              | inl e ↦ false-true (sym other ∙ (text_eq_iff i k).1 e)
              | inr old ↦ d.0 old
            ],
            set-AllDistinct k v m d.1,
          )
  ]

  pub get_absent : (k : Text) (m : Map V) → ¬ In k (keys m) → get k m ≡ none
  unfolding get
  get_absent k [] h = refl
  get_absent k ((i, w) ∷ m) h = elim (Bool-cases (text_eq i k)) [
    | inl same ↦ absurd (h (inl (sym ((text_eq_iff i k).0 same))))
    | inr other ↦ rw (other, get) (get_absent k m (λ l. h (inr l)))
  ]

  pub delete-AllDistinct :
      (k : Text) (m : Map V) → AllDistinct (keys m) → AllDistinct (keys (delete k m))
  unfolding delete
  delete-AllDistinct k [] d = tt
  delete-AllDistinct k ((j, w) ∷ m) d = elim (Bool-cases (text_eq j k)) [
    | inl same ↦ rw (same, delete) d.1
    | inr other ↦ rw (other, delete) (λ h. d.0 (In-keys-delete k j m h), delete-AllDistinct k m d.1)
  ]

  -- A new key adds an entry, and an old one none.
  pub length-set_new :
      (k : Text) (v : V) (m : Map V) → get k m ≡ none → length (set k v m) ≡ length m + 1
  unfolding set get
  length-set_new k v [] h = omega arith
  length-set_new k v ((j, w) ∷ m) h = ground (arith, length-set_new k v m)

  pub length-set_old :
      (k : Text) (v w : V) (m : Map V) → get k m ≡ some w → length (set k v m) ≡ length m
  unfolding set get
  length-set_old k v w [] h = cc
  length-set_old k v w ((j, u) ∷ m) h = ground (arith, length-set_old k v w m)

  pub length-delete-le : (k : Text) (m : Map V) → length (delete k m) ≤ length m
  unfolding delete
  length-delete-le k [] = omega arith
  length-delete-le k ((j, w) ∷ m) = ground (arith, length-delete-le k m)

  pub get-none-delete : (k j : Text) (m : Map V) → get j m ≡ none → get j (delete k m) ≡ none
  unfolding get delete
  get-none-delete k j [] h = refl
  get-none-delete k j ((i, w) ∷ m) h = ground (arith, get-none-delete k j m)
