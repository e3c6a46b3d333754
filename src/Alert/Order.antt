-- ===== src/Alert/Order.antt =====
-- The order of the rotation.
use seasonal_weather.Prelude.{Option, ℕ, true, false, ◌≡◌, ap, arith, leb, Text, text_le_total}
use seasonal_weather.Alert.{
  naive, aware, expires_dt, is_expired, Stamp, ActiveAlert, PriorityKey, key_le, severity_of,
  priority_le, alert_priority_sort_key,
}

key_le_total : (a b : PriorityKey) → key_le a b ≡ false → key_le b a ≡ true
unfolding key_le
key_le_total a b h = ground (arith, text_le_total a.id b.id)

key_le-severity : (a b : PriorityKey) → key_le a b ≡ true → leb a.severity b.severity ≡ true
unfolding key_le
key_le-severity a b h = ground arith

module _ (fromisoformat : Text → Option Stamp) where
  pub priority_le_total :
      (a b : ActiveAlert)
      → priority_le fromisoformat a b ≡ false
      → priority_le fromisoformat b a ≡ true
  unfolding priority_le
  priority_le_total a b h =
      key_le_total (alert_priority_sort_key fromisoformat a)
        (alert_priority_sort_key fromisoformat b) h

  pub priority_le-severity :
      (a b : ActiveAlert)
      → priority_le fromisoformat a b ≡ true
      → leb (severity_of a) (severity_of b) ≡ true
  unfolding priority_le alert_priority_sort_key
  priority_le-severity a b h =
      key_le-severity (alert_priority_sort_key fromisoformat a)
        (alert_priority_sort_key fromisoformat b) h

  -- a local expiry is never compared with an instant
  pub is_expired_naive :
      (now : ℕ) (a : ActiveAlert) (local : ℕ)
      → expires_dt fromisoformat a ≡ naive local
      → is_expired fromisoformat now a ≡ false
  unfolding is_expired
  is_expired_naive now a local e =
      ap (λ (s : Stamp). elim s [ naive t ↦ false | aware t ↦ leb t now ]) e
