-- ===== src/Inserts/Due.antt =====
-- What the cycle is given to air.
use seasonal_weather.Prelude.{
  ℕ, zero, suc, ◌≤◌, ◌≡◌, arith, Bool, true, ◌&&◌, List, [], ◌∷◌, length, take, keep, All, All-take,
  All-keep, Text, text_eq, sort_by, ℤ, pos, negsuc, Bool-cases, inl, inr,
}
use seasonal_weather.Inserts.{
  CycleInsert, is_active, created_le, clamp_limit, expire_due, is_selected, rotation_due, list_due,
}

module _ {ℓ κ} {A : Type ℓ} (P : A → Type κ) where
  All-keep_of : (p : A → Bool) (xs : List A) → All P xs → All P (keep p xs)
  All-keep_of p [] h = tt
  All-keep_of p (x ∷ xs) (px, h) = elim (Bool-cases (p x)) [
    | inl kept ↦ rw kept (px, All-keep_of p xs h)
    | inr dropped ↦ rw dropped (All-keep_of p xs h)
  ]

All-both :
    {A : Type 0} (p q : A → Bool) (xs : List A)
    → All (λ x. p x ≡ true) xs
    → All (λ x. q x ≡ true) xs
    → All (λ x. (p x && q x) ≡ true) xs
All-both p q [] a b = tt
All-both p q (x ∷ xs) (px, a) (qx, b) = (ground (arith, px, qx), All-both p q xs a b)

length-take : {A : Type 0} (n : ℕ) (xs : List A) → length (take n xs) ≤ n
length-take zero xs = omega arith
length-take (suc n) [] = omega arith
length-take (suc n) (x ∷ xs) = omega (arith, length-take n xs)

clamp_limit_most : (most : ℕ) (limit : ℤ) → 1 ≤ most → clamp_limit most limit ≤ most
unfolding clamp_limit
clamp_limit_most most (pos n) h = omega arith
clamp_limit_most most (negsuc n) h = omega arith

-- the conditions of an insert that may be aired
unfoldable pub IsDue : Text → ℕ → Text → Bool → CycleInsert → Type 0
IsDue placement rotation_count now active_alert_focus r =
    (is_selected placement now active_alert_focus r && rotation_due rotation_count r) ≡ true

-- Every insert that the cycle is given is active, at its placement, started and not expired, has audio and fewer
-- airings than its maximum, may be aired during active alerts where there are any, and is due in this rotation;
-- and there are ten of them at most.
pub list_due-IsDue :
    (placement : Text) (rotation_count : ℕ) (now : Text) (active_alert_focus : Bool) (limit : ℤ)
    (rows : List CycleInsert)
    → All
        (IsDue placement rotation_count now active_alert_focus)
        (list_due placement rotation_count now active_alert_focus limit rows).0
      × (length (list_due placement rotation_count now active_alert_focus limit rows).0 ≤ 10)
unfolding list_due IsDue
list_due-IsDue placement rotation_count now active_alert_focus limit rows = (
  All-take _ (clamp_limit 10 limit) (keep (rotation_due rotation_count) selected) (
      All-both (is_selected placement now active_alert_focus) (rotation_due rotation_count)
        (keep (rotation_due rotation_count) selected)
        (All-keep_of _ (rotation_due rotation_count) selected (
          All-take _ 50 (keep (is_selected placement now active_alert_focus) sorted)
            (All-keep (is_selected placement now active_alert_focus) sorted)))
        (All-keep (rotation_due rotation_count) selected)),
  omega (
    arith,
    length-take (clamp_limit 10 limit) (keep (rotation_due rotation_count) selected),
    clamp_limit_most 10 limit,
  ),
)
  where
    sorted : List CycleInsert
    sorted = sort_by created_le (expire_due now rows)

    selected : List CycleInsert
    selected = take 50 (keep (is_selected placement now active_alert_focus) sorted)

-- an active insert of this id
is_live : Text → CycleInsert → Bool
is_live id r = text_eq r.insert_id id && is_active r
