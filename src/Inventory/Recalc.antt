-- ===== src/Inventory/Recalc.antt =====
-- internal/inventory/application/recalc_freshness_handler.go, over the repository of
-- Inventory/Repository.antt. `now` is the one `time.Now()` of a run.
pub mod Table
pub mod Run
mod Tests
use florist_core.Prelude.{
  ℕ, ◌≡◌, ◌+◌, ◌≤◌, refl, Bool, true, false, ◌&&◌, Option, none, some, List, [], ◌∷◌, arith,
  if◌then◌else◌, leb,
}
use florist_core.Prelude.Int.{ℤ, pos, ◌-ℤ◌, ◌≤ℤ◌, ltb_ℤ, -ℤ_parts}
use florist_core.Kernel.Errors.{Error}
use florist_core.Kernel.Types.{Time, after, hour, aging_threshold, critical_threshold}
use florist_core.Inventory.Batch.{
  Batch, Freshness, fresh, aging, critical, expired, expire, mark_aging, mark_critical,
}
use florist_core.Inventory.Batch.Ageing.{rank}
use florist_core.Inventory.Repository.{Tables, save, find_active}
use florist_core.Db.{Action, pure, ◌>>=◌, ◌>>◌}

abbrev is_fresh : Freshness → Bool
is_fresh fresh = true
is_fresh _ = false

abbrev is_aging : Freshness → Bool
is_aging aging = true
is_aging _ = false

-- The answer of `Expire` in the first case: the batch and whether it was updated.
abbrev expiry : Batch × Option Error → Batch × Bool
expiry (b, none) = (b, true)
expiry (b, some _) = (b, false)

-- The `switch` of the loop, with `updated`.
unfoldable pub recalc_one : Time → Batch → Batch × Bool
unfolding expire mark_aging mark_critical
recalc_one now b =
    if after now b.expires_at
    then expiry (expire now b)
    else if is_fresh b.freshness && after now (b.expires_at -ℤ aging_threshold)
    then (mark_aging now b, true)
    else if is_aging b.freshness && after now (b.expires_at -ℤ critical_threshold)
    then (mark_critical b, true)
    else (b, false)

module _ {X : Type 0} where
  abbrev pub save_updated : Batch × Bool → Action Tables X (Unit {0})
  save_updated (b, updated) = if updated then save b else pure tt

  unfoldable pub recalc_all : Time → List Batch → Action Tables X (Unit {0})
  recalc_all now [] = pure tt
  recalc_all now (b ∷ rest) = save_updated (recalc_one now b) >> recalc_all now rest

  unfoldable pub handle : Time → Action Tables X (Unit {0})
  unfolding recalc_all
  handle now = find_active >>= recalc_all now

-- The freshness that the thresholds of types.go call for.
abbrev pub called_for : Time → Batch → Freshness
called_for now b =
    if after now b.expires_at
    then expired
    else if after now (b.expires_at -ℤ critical_threshold)
    then critical
    else if after now (b.expires_at -ℤ aging_threshold)
    then aging
    else fresh

abbrev pub worse : ℕ → ℕ → ℕ
worse m n = if leb m n then n else m

-- One pass never overshoots and may fall short by one state: two passes at one time bring a batch to
-- the freshness that the thresholds call for, or leave it where it was if that is worse.
pub recalc_one-rank :
    (now : Time) (b : Batch)
    → let called = rank (called_for now b) in
      let after_one = (recalc_one now b).0 in
      let reached = worse (rank b.freshness) called in
      (rank after_one.freshness ≤ reached)
      × (reached ≤ rank after_one.freshness + 1)
      × (rank (recalc_one now after_one).0.freshness ≡ reached)
unfolding recalc_one
recalc_one-rank now b =
    let t1 = -ℤ_parts b.expires_at aging_threshold in
    let t2 = -ℤ_parts b.expires_at critical_threshold in ground arith
