-- ===== src/Retention/Manual.antt =====
-- What manual retention keeps.
use triggerlane.Common.{
  ℕ, ◌-◌, ◌≡◌, sym, List, ◌++◌, arith, length, take, length-drop, take-append-drop, min,
}
use triggerlane.Common.Int.{ℤ}
use triggerlane.Retention.{keep, keep_most_recent}

module _ {T : Type 0} (items : List T) (timestamp : T → ℤ) where
  -- `keep_most_recent` keeps the last records in append order: `max` of them, or all if there are
  -- no more.
  pub keep-keep_most_recent :
      (max : ℕ)
      → (dropped : List T) × (items ≡ dropped ++ keep (keep_most_recent max) items timestamp)
        × (length (keep (keep_most_recent max) items timestamp) ≡ min max (length items))
  unfolding keep
  keep-keep_most_recent max = (
    take (length items - max) items,
    sym (take-append-drop (length items - max) items),
    omega (arith, length-drop (length items - max) items),
  )
