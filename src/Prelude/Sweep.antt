-- ===== src/Prelude/Sweep.antt =====
-- `for k, v in list(d.items()): if doomed(v): d.pop(k); n += 1`
use Prim.Native.Nat.{ℕ, suc}
use mathlib.Core.Path.{◌≡◌, refl, sym, ap, ◌∙◌, subst}
use mathlib.Core.Bool.{Bool, not}
use mathlib.Core.Option.{none, some}
use mathlib.Core.List.{List, [], ◌∷◌, ◌++◌, append_assoc, append-nil}
use mathlib.Core.Logic.{inl, inr}
use native.Mathlib.Omega.{arith}
use seasonal_weather.Prelude.Tests.{if◌then◌else◌, Bool-cases}
use seasonal_weather.Prelude.Lists.{All, length, keep}
use seasonal_weather.Prelude.Strings.{Text, text_eq, text_eq_iff, text_eq_refl}
use seasonal_weather.Prelude.Dictionaries.{Dict, get, put, pop, values, UniqueKeys}

module _ {ℓ} {V : Type ℓ} where
  unfoldable pub sweep : (V → Bool) → Dict V → Dict V → Dict V × ℕ
  sweep doomed [] d = (d, 0)
  sweep doomed ((k, v) ∷ items) d =
      let (d', n) = sweep doomed items (if doomed v then pop k d else d) in
      (d', if doomed v then suc n else n)

  -- the items whose value passes a test
  abbrev pub keep_items : (V → Bool) → Dict V → Dict V
  keep_items p = keep (λ (item : Text × V). p item.1)

  pop_absent : (k : Text) (d : Dict V) → get k d ≡ none → pop k d ≡ d
  unfolding get pop
  pop_absent k [] h = refl
  pop_absent k ((j, v) ∷ d) h = ground (arith, pop_absent k d)

  pop-append : (k : Text) (a b : Dict V) → pop k (a ++ b) ≡ pop k a ++ pop k b
  unfolding pop
  pop-append k [] b = refl
  pop-append k ((j, v) ∷ a) b = ground (arith, pop-append k a b)

  get-append_absent : (k : Text) (a b : Dict V) → get k a ≡ none → get k (a ++ b) ≡ get k b
  unfolding get
  get-append_absent k [] b h = refl
  get-append_absent k ((j, v) ∷ a) b h = ground (arith, get-append_absent k a b)

  -- no key of `items` is in `d`
  abbrev pub Absent : Dict V → Dict V → Type ℓ
  Absent [] d = Unit
  Absent ((k, v) ∷ items) d = (get k d ≡ none) × Absent items d

  pub Absent-snoc :
      (items d : Dict V) (k : Text) (v : V)
      → Absent items d
      → get k items ≡ none
      → Absent items (d ++ (k, v) ∷ [])
  unfolding get
  Absent-snoc [] d k v h fresh = tt
  Absent-snoc ((j, w) ∷ items) d k v (hj, h) fresh = (
    ground (arith, get-append_absent j d ((k, v) ∷ []) hj, text_eq_iff j k, text_eq_iff k j),
    Absent-snoc items d k v h (ground arith),
  )

  pub Absent-nil : (items : Dict V) → Absent items []
  unfolding get
  Absent-nil [] = tt
  Absent-nil ((k, v) ∷ items) = (refl, Absent-nil items)

  pop_middle :
      (k : Text) (v : V) (a b : Dict V)
      → get k a ≡ none
      → get k b ≡ none
      → pop k (a ++ (k, v) ∷ b) ≡ a ++ b
  unfolding pop
  pop_middle k v a b ha hb =
      pop-append k a ((k, v) ∷ b) ∙ rw (text_eq_refl k, pop_absent k a ha, pop_absent k b hb) refl

  sweep-append :
      (doomed : V → Bool) (items d : Dict V)
      → UniqueKeys items
      → Absent items d
      → (sweep doomed items (d ++ items)).0 ≡ d ++ keep_items (λ v. not (doomed v)) items
  unfolding sweep
  sweep-append doomed [] d u h = refl
  sweep-append doomed ((k, v) ∷ items) d (fresh, u) (hk, h) = elim (Bool-cases (doomed v)) [
    | inl yes' ↦ rw (yes', pop_middle k v d items hk fresh) (sweep-append doomed items d u h)
    | inr no' ↦
        rw (no', ← append_assoc d ((k, v) ∷ []) items)
          (sweep-append doomed items (d ++ (k, v) ∷ []) u (Absent-snoc items d k v h fresh)
            ∙ append_assoc d ((k, v) ∷ []) (keep_items (λ v. not (doomed v)) items))
  ]

  -- A sweep over all items leaves the items that are not doomed, in their order.
  pub sweep-keep_items :
      (doomed : V → Bool) (d : Dict V)
      → UniqueKeys d
      → (sweep doomed d d).0 ≡ keep_items (λ v. not (doomed v)) d
  sweep-keep_items doomed d u = sweep-append doomed d [] u (Absent-nil d)

  pub sweep-count :
      (doomed : V → Bool) (items d : Dict V)
      → (sweep doomed items d).1 ≡ length (keep_items doomed items)
  unfolding sweep
  sweep-count doomed [] d = refl
  sweep-count doomed ((k, v) ∷ items) d =
      ground (arith, sweep-count doomed items (if doomed v then pop k d else d))

  get-keep_items_absent :
      (p : V → Bool) (k : Text) (d : Dict V) → get k d ≡ none → get k (keep_items p d) ≡ none
  unfolding get
  get-keep_items_absent p k [] h = refl
  get-keep_items_absent p k ((j, v) ∷ d) h = ground (arith, get-keep_items_absent p k d)

  pub UniqueKeys-keep_items :
      (p : V → Bool) (d : Dict V) → UniqueKeys d → UniqueKeys (keep_items p d)
  UniqueKeys-keep_items p [] u = u
  UniqueKeys-keep_items p ((k, v) ∷ d) (fresh, u) =
      ground (arith, get-keep_items_absent p k d, UniqueKeys-keep_items p d u)

  -- what a filtered dictionary holds
  pub get-keep_items :
      (p : V → Bool) (k : Text) (d : Dict V)
      → UniqueKeys d
      → get k (keep_items p d)
        ≡ (elim (get k d) [ none ↦ none | some v ↦ if p v then some v else none ])
  unfolding get
  get-keep_items p k [] u = refl
  get-keep_items p k ((j, v) ∷ d) (fresh, u) =
      ground (arith, text_eq_iff j k, get-keep_items p k d u, get-keep_items_absent p k d)

  pub values-keep_items : (p : V → Bool) (d : Dict V) → values (keep_items p d) ≡ keep p (values d)
  values-keep_items p [] = refl
  values-keep_items p ((k, v) ∷ d) = ground (arith, values-keep_items p d)

  put_absent : (k : Text) (v : V) (d : Dict V) → get k d ≡ none → put k v d ≡ d ++ (k, v) ∷ []
  unfolding get put
  put_absent k v [] h = refl
  put_absent k v ((j, w) ∷ d) h = ground (arith, put_absent k v d)

  -- `for v in values: d[key(v)] = v`
  pub put_all : (V → Text) → List V → Dict V → Dict V
  put_all key [] d = d
  put_all key (v ∷ vs) d = put_all key vs (put (key v) v d)

  put_all-values :
      (key : V → Text) (items d : Dict V)
      → UniqueKeys items
      → Absent items d
      → All (λ (item : Text × V). key item.1 ≡ item.0) items
      → put_all key (values items) d ≡ d ++ items
  unfolding put_all
  put_all-values key [] d u h keyed = sym (append-nil d)
  put_all-values key ((k, v) ∷ items) d (fresh, u) (hk, h) (e, keyed) =
      ap (put_all key (values items)) (ap (λ j. put j v d) e ∙ put_absent k v d hk)
      ∙ (put_all-values key items (d ++ (k, v) ∷ []) u (Absent-snoc items d k v h fresh) keyed
          ∙ append_assoc d ((k, v) ∷ []) items)

  -- A dictionary keyed by its values is rebuilt from them, in the same order.
  pub put_all-rebuild :
      (key : V → Text) (d : Dict V)
      → UniqueKeys d
      → All (λ (item : Text × V). key item.1 ≡ item.0) d
      → put_all key (values d) [] ≡ d
  put_all-rebuild key d u keyed = put_all-values key d [] u (Absent-nil d) keyed

  pub sweep_zero :
      (doomed : V → Bool) (items d : Dict V)
      → (sweep doomed items d).1 ≡ 0
      → (sweep doomed items d).0 ≡ d
  unfolding sweep
  sweep_zero doomed [] d h = refl
  sweep_zero doomed ((k, v) ∷ items) d h =
      ground (arith, sweep_zero doomed items (if doomed v then pop k d else d))

  module _ {κ} (P : Text × V → Type κ) where
    pub All-keep_items : (p : V → Bool) (d : Dict V) → All P d → All P (keep_items p d)
    All-keep_items p [] h = tt
    All-keep_items p ((k, v) ∷ d) (hv, h) = elim (Bool-cases (p v)) [
      | inl in' ↦ rw in' (hv, All-keep_items p d h)
      | inr out' ↦ rw out' (All-keep_items p d h)
    ]

    pub All-put : (k : Text) (v : V) (d : Dict V) → P (k, v) → All P d → All P (put k v d)
    unfolding put
    All-put k v [] hv h = (hv, tt)
    All-put k v ((j, w) ∷ d) hv (hw, h) = elim (Bool-cases (text_eq j k)) [
      | inl same ↦ rw same (hv, h)
      | inr other ↦ rw other (hw, All-put k v d hv h)
    ]

    pub All-pop : (k : Text) (d : Dict V) → All P d → All P (pop k d)
    unfolding pop
    All-pop k [] h = tt
    All-pop k ((j, w) ∷ d) (hw, h) = elim (Bool-cases (text_eq j k)) [
      | inl same ↦ rw same (All-pop k d h)
      | inr other ↦ rw other (hw, All-pop k d h)
    ]

    pub All-get : (k : Text) (d : Dict V) {v : V} → All P d → get k d ≡ some v → P (k, v)
    unfolding get
    All-get k [] h e = cc
    All-get k ((j, w) ∷ d) {v} (hw, h) e = elim (Bool-cases (text_eq j k)) [
      | inl same ↦ subst P (ground (arith, same, text_eq_iff j k)) hw
      | inr other ↦ All-get k d h (ground (arith, other))
    ]
