-- ===== src/Prelude/Dictionaries.antt =====
-- Python's `dict` with text keys: the items in insertion order, each key once.
use mathlib.Core.Path.{◌≡◌, refl}
use mathlib.Core.Bool.{Bool}
use mathlib.Core.Option.{Option, none, some}
use mathlib.Core.List.{List, [], ◌∷◌}
use native.Mathlib.Omega.{arith}
use seasonal_weather.Prelude.Tests.{if◌then◌else◌, is_some}
use seasonal_weather.Prelude.Strings.{Text, text_eq, text_eq_iff}

abbrev pub Dict {ℓ} : Type ℓ → Type ℓ
Dict V = List (Text × V)

module _ {ℓ} {V : Type ℓ} where
  unfoldable pub get : Text → Dict V → Option V
  unfolding text_eq
  get k [] = none
  get k ((j, v) ∷ m) = if text_eq j k then some v else get k m

  -- `d[k] = v`: an old key keeps its place
  unfoldable pub put : Text → V → Dict V → Dict V
  unfolding text_eq
  put k v [] = (k, v) ∷ []
  put k v ((j, w) ∷ m) = if text_eq j k then (k, v) ∷ m else (j, w) ∷ put k v m

  -- `d.pop(k, None)`
  unfoldable pub pop : Text → Dict V → Dict V
  unfolding text_eq
  pop k [] = []
  pop k ((j, w) ∷ m) = let rest = pop k m in if text_eq j k then rest else (j, w) ∷ rest

  -- `k in d`
  abbrev pub has : Text → Dict V → Bool
  has k m = is_some (get k m)

  abbrev pub values : Dict V → List V
  values [] = []
  values ((k, v) ∷ m) = v ∷ values m

  abbrev pub keys : Dict V → List Text
  keys [] = []
  keys ((k, v) ∷ m) = k ∷ keys m

  abbrev pub UniqueKeys : Dict V → Type ℓ
  UniqueKeys [] = Unit
  UniqueKeys ((k, v) ∷ m) = (get k m ≡ none) × UniqueKeys m

module _ {ℓ} {V : Type ℓ} where
  pub get-put :
      (j k : Text) (v : V) (m : Dict V)
      → get j (put k v m) ≡ (if text_eq k j then some v else get j m)
  unfolding get put
  get-put j k v [] = refl
  get-put j k v ((i, w) ∷ m) =
      ground (arith, text_eq_iff k j, text_eq_iff i k, text_eq_iff i j, get-put j k v m)

  pub get-pop :
      (j k : Text) (m : Dict V) → get j (pop k m) ≡ (if text_eq k j then none else get j m)
  unfolding get pop
  get-pop j k [] = ground arith
  get-pop j k ((i, w) ∷ m) =
      ground (arith, text_eq_iff k j, text_eq_iff i k, text_eq_iff i j, get-pop j k m)

  pub UniqueKeys-put : (k : Text) (v : V) (m : Dict V) → UniqueKeys m → UniqueKeys (put k v m)
  unfolding put
  UniqueKeys-put k v [] h = (unfold get in refl, tt)
  UniqueKeys-put k v ((i, w) ∷ m) h =
      ground (arith, text_eq_iff i k, text_eq_iff k i, get-put i k v m, UniqueKeys-put k v m h.1)

  pub UniqueKeys-pop : (k : Text) (m : Dict V) → UniqueKeys m → UniqueKeys (pop k m)
  unfolding pop
  UniqueKeys-pop k [] h = h
  UniqueKeys-pop k ((i, w) ∷ m) h = ground (arith, get-pop i k m, UniqueKeys-pop k m h.1)
