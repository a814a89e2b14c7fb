-- ===== src/Clock/Fresh.antt =====
-- A new write clock is later than the reader's clock, by more than twice the boundary.
use timestone.Base.{
  ℕ, zero, suc, ◌+◌, ◌-◌, ◌*◌, ◌^◌, ◌≤◌, ◌<◌, ◌≡◌, ◌⊎◌, inl, inr, refl, ap, ◌≢◌, ◌↔◌, true, none,
  some, arith, Bool-cases,
}
use mathlib.Core.Path.{subst}
use timestone.Config.{max_version}
use timestone.Clock.{
  ordo_boundary, ordo_gt_clock, ordo_new_clock, new_clock, lt_clock, ordo_lt_clock, get_wrt_clk,
}

-- `ordo_new_clock` returns as soon as the counter has passed `t` by more than the boundary, if it
-- does so within the fuel, and what it returns is such a reading.
pub ordo_new_clock_lem :
    (tsc : ℕ → ℕ) (fuel k j t : ℕ)
    → t + ordo_boundary < tsc (k + j)
    → j < fuel
    → (i : ℕ) × (ordo_new_clock tsc fuel k t ≡ some (tsc i))
      × (t + ordo_boundary < tsc i)
      × (i ≤ k + j)
unfolding ordo_new_clock ordo_gt_clock
ordo_new_clock_lem tsc zero k j t past enough = absurd (omega arith)
ordo_new_clock_lem tsc (suc fuel) k j t past enough = elim (Bool-cases (ordo_gt_clock (tsc k) t)) [
  | inl now ↦ (k, rw now refl, ground arith, omega arith)
  | inr later ↦
      let pos : 0 < j = ground (arith, at_k) in
      rw later (
        step pos (
          ordo_new_clock_lem tsc fuel (k + 1) (j - 1) t
            (subst (λ (m : ℕ). t + ordo_boundary < tsc m) (omega arith) past) (omega arith)))
]
  where
    at_k : j ≡ 0 → tsc (k + j) ≡ tsc k
    at_k e = ap tsc (omega arith)

    Found : ℕ → Type 0
    Found m =
        (i : ℕ) × (ordo_new_clock tsc fuel (k + 1) t ≡ some (tsc i))
        × (t + ordo_boundary < tsc i)
        × (i ≤ m)

    step : 0 < j → Found (k + 1 + (j - 1)) → Found (k + j)
    step pos (i, e, gap, le) = (i, e, gap, omega arith)

-- Whatever `ordo_new_clock` returns is past `t` by more than the boundary.
ordo_new_clock-past :
    (tsc : ℕ → ℕ) (fuel k t c : ℕ) → ordo_new_clock tsc fuel k t ≡ some c → t + ordo_boundary < c
unfolding ordo_new_clock ordo_gt_clock
ordo_new_clock-past tsc zero k t c h = cc
ordo_new_clock-past tsc (suc fuel) k t c h =
    ground (arith, ordo_new_clock-past tsc fuel (k + 1) t c)

-- A version that a transaction may supersede is older than the version that it commits by more than
-- twice the boundary: `wrt_clk` is the clock of the newest copy, which passed the check of the lock,
-- and the new clock is taken against the transaction's local clock.
pub new_clock-gap :
    (tsc : ℕ → ℕ) (fuel k wrt_clk local_clk : ℕ) {new_clk : ℕ}
    → local_clk + ordo_boundary < 2 ^ 64
    → lt_clock wrt_clk local_clk ≡ true
    → new_clock tsc fuel k local_clk ≡ some new_clk
    → (wrt_clk + 2 * ordo_boundary < new_clk) × (lt_clock local_clk new_clk ≡ true)
unfolding ordo_lt_clock
new_clock-gap tsc fuel k wrt_clk local_clk {new_clk} word older h =
    ground (arith, ordo_new_clock-past tsc fuel k (local_clk + 1) new_clk)

-- A copy is seen by a reader only with the clock of a commit that is complete: its own, or the one
-- that its write set has published, and then the commit had begun before the reader.
pub get_wrt_clk-visible :
    (raw pending wrt_clk local_clk c : ℕ)
    → local_clk < 2 ^ 64
    → get_wrt_clk raw pending wrt_clk local_clk ≡ some c
    → lt_clock c local_clk ≡ true
    → ((c ≡ raw) × (raw ≢ max_version))
      ⊎ ((c ≡ wrt_clk) × (raw ≡ max_version) × (wrt_clk ≢ max_version) × (pending ≤ local_clk))
unfolding get_wrt_clk ordo_lt_clock
get_wrt_clk-visible raw pending wrt_clk local_clk c word h seen = ground arith

-- The reader waits exactly while a commit that began before it is not yet public.
pub get_wrt_clk-waits :
    (raw pending wrt_clk local_clk : ℕ)
    → (get_wrt_clk raw pending wrt_clk local_clk ≡ none) ↔ (
        (raw ≡ max_version)
        × (pending ≢ max_version)
        × (pending ≤ local_clk)
        × (wrt_clk ≡ max_version))
unfolding get_wrt_clk
get_wrt_clk-waits raw pending wrt_clk local_clk = ground arith
