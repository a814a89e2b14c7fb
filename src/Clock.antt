-- ===== src/Clock.antt =====
-- include/ordo_clock.h and lib/clock.h: timestamps of clocks that are synchronised only up to a
-- boundary, and the write clock of a copy that may be in the middle of its commit.
-- The processor's time stamp counter is a parameter: `tsc k` is what its k-th reading gives.
pub mod Order
pub mod Fresh
use timestone.Base.{
  ℕ, zero, suc, ◌+◌, ◌-◌, Bool, true, false, not, ◌&&◌, Option, none, some, ltb, ◌==◌,
  if◌then◌else◌, add_u64, sub_u64,
}
use timestone.Config.{max_version}

abbrev pub ordo_boundary : ℕ
ordo_boundary = 1

-- The subtraction is read only where it does not wrap.
unfoldable pub ordo_lt_clock : ℕ → ℕ → Bool
ordo_lt_clock t1 t2 = ltb t1 t2 && ltb ordo_boundary (t2 - t1)

unfoldable pub ordo_gt_clock : ℕ → ℕ → Bool
ordo_gt_clock t1 t2 = ltb t2 t1 && ltb ordo_boundary (t1 - t2)

abbrev pub lt_clock : ℕ → ℕ → Bool
lt_clock = ordo_lt_clock

abbrev pub gt_clock : ℕ → ℕ → Bool
gt_clock = ordo_gt_clock

abbrev pub gte_clock : ℕ → ℕ → Bool
gte_clock t1 t2 = not (lt_clock t1 t2)

abbrev pub lte_clock : ℕ → ℕ → Bool
lte_clock t1 t2 = not (gt_clock t1 t2)

pub data Comparison : Type 0 where
  less_than greater_than uncertain : Comparison

unfoldable pub ordo_cmp_clock : ℕ → ℕ → Comparison
unfolding ordo_lt_clock ordo_gt_clock
ordo_cmp_clock t1 t2 =
    if ordo_lt_clock t1 t2
    then less_than
    else if ordo_gt_clock t1 t2
    then greater_than
    else uncertain

-- `k` is the number of the first reading, and the fuel bounds how many there are: `none` is a loop
-- that still waits for the clock.
unfoldable pub ordo_new_clock : (ℕ → ℕ) → ℕ → ℕ → ℕ → Option ℕ
ordo_new_clock tsc zero k t = none
ordo_new_clock tsc (suc fuel) k t =
    let rest = ordo_new_clock tsc fuel (k + 1) t in
    if ordo_gt_clock (tsc k) t then some (tsc k) else rest

abbrev pub new_clock : (ℕ → ℕ) → ℕ → ℕ → ℕ → Option ℕ
new_clock tsc fuel k local_clk = ordo_new_clock tsc fuel k (add_u64 local_clk ordo_boundary)

abbrev pub correct_qp_clock : ℕ → ℕ
correct_qp_clock qp_clk = sub_u64 qp_clk ordo_boundary

-- `get_wrt_clk` of a copy whose own clock is `raw`, in a write set with these clocks. `none` is the
-- loop that waits for the committing thread to publish `wrt_clk`.
unfoldable pub get_wrt_clk : ℕ → ℕ → ℕ → ℕ → Option ℕ
get_wrt_clk raw pending_wrt_clk wrt_clk local_clk =
    if not (raw == max_version)
    then some raw
    else if pending_wrt_clk == max_version
    then some max_version
    else if ltb local_clk pending_wrt_clk
    then some max_version
    else if wrt_clk == max_version
    then none
    else some wrt_clk
