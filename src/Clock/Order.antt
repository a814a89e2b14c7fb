-- ===== src/Clock/Order.antt =====
-- The ordered comparison: a strict order with a gap, and what it decides.
use timestone.Base.{ℕ, ◌+◌, ◌≤◌, ◌<◌, ◌≡◌, ◌↔◌, true, false, arith}
use timestone.Clock.{
  ordo_boundary, ordo_lt_clock, lt_clock, less_than, greater_than, uncertain, ordo_cmp_clock,
}

-- `lt_clock t1 t2` says that `t2` is later by more than the boundary.
pub lt_clock_iff : (t1 t2 : ℕ) → (lt_clock t1 t2 ≡ true) ↔ (t1 + ordo_boundary < t2)
unfolding ordo_lt_clock
lt_clock_iff t1 t2 = ground arith

pub lt_clock→lt : (t1 t2 : ℕ) → lt_clock t1 t2 ≡ true → t1 + 1 < t2
lt_clock→lt t1 t2 h = (lt_clock_iff t1 t2).0 h

pub gte_clock→le : (t1 t2 : ℕ) → lt_clock t1 t2 ≡ false → t2 ≤ t1 + 1
unfolding ordo_lt_clock
gte_clock→le t1 t2 h = ground arith

-- The three results of `ordo_cmp_clock`: it is antisymmetric, and uncertain exactly for timestamps
-- within the boundary of one another.
pub ordo_cmp_clock_lem :
    (t1 t2 : ℕ)
    → ((ordo_cmp_clock t1 t2 ≡ less_than) ↔ (ordo_cmp_clock t2 t1 ≡ greater_than))
      × ((ordo_cmp_clock t1 t2 ≡ uncertain)
          ↔ ((t1 ≤ t2 + ordo_boundary) × (t2 ≤ t1 + ordo_boundary)))
unfolding ordo_cmp_clock
ordo_cmp_clock_lem t1 t2 = ground arith

pub lt_clock_trans : (a b c : ℕ) → lt_clock a b ≡ true → lt_clock b c ≡ true → lt_clock a c ≡ true
unfolding ordo_lt_clock
lt_clock_trans a b c p q = ground arith

pub lt_clock_before : (a b c : ℕ) → a < b → lt_clock b c ≡ true → lt_clock a c ≡ true
unfolding ordo_lt_clock
lt_clock_before a b c p q = ground arith
