-- ===== src/Lock/Guard.antt =====
-- A lock is given only on an object whose newest version is older than what the transaction commits.
use timestone.Base.{
  ℕ, ◌+◌, ◌^◌, ◌<◌, ◌≡◌, ◌≢◌, true, false, none, some, List, [], ◌∷◌, arith, inl, inr, Option-cases,
}
use timestone.Config.{max_version}
use timestone.Clock.{ordo_boundary, lt_clock, new_clock, get_wrt_clk}
use timestone.Clock.Fresh.{new_clock-gap}
use timestone.Memory.{Memory}
use timestone.Version.Snapshot.{Versions}
use timestone.Tvlog.Commit.{Before}
use timestone.Lock.{may_lock}

may_lock-free :
    (m : Memory) (v local_clk : ℕ) → may_lock m v local_clk ≡ some true → (m.vhdr v).p_lock ≡ none
unfolding may_lock
may_lock-free m v local_clk ok = elim (Option-cases (m.vhdr v).p_lock) [
  | inl free ↦ free
  | inr (l, taken) ↦ let bad : some false ≡ some true = rw (taken, may_lock) at ok in cc
]

may_lock-older :
    (m : Memory) (v c local_clk : ℕ)
    → (m.vhdr v).p_copy ≡ some c
    → (m.chs c).wrt_clk ≢ max_version
    → may_lock m v local_clk ≡ some true
    → ((m.vhdr v).p_lock ≡ none) × (lt_clock (m.chs c).wrt_clk local_clk ≡ true)
unfolding may_lock get_wrt_clk
may_lock-older m v c local_clk newest public ok = ground (arith, newest, public, ok)

-- A transaction that may lock an object whose newest version is committed commits a version that is
-- later, so that the chain of versions stays in order: what the commit of the copy asks for holds. The
-- object is not locked by another transaction.
pub may_lock-Before :
    (tsc : ℕ → ℕ) (fuel k : ℕ) (m : Memory) (v local_clk clk : ℕ) (cs : List ℕ)
    → local_clk + ordo_boundary < 2 ^ 64
    → Versions m (m.vhdr v).p_copy cs
    → Before m max_version cs
    → may_lock m v local_clk ≡ some true
    → new_clock tsc fuel k local_clk ≡ some clk
    → Before m clk cs × ((m.vhdr v).p_lock ≡ none)
may_lock-Before tsc fuel k m v local_clk clk [] word h committed ok now =
    (tt, may_lock-free m v local_clk ok)
may_lock-Before tsc fuel k m v local_clk clk (c ∷ cs) word h committed ok now =
    let older = may_lock-older m v c local_clk h.0 (omega (arith, committed)) ok in
    let gap =
      new_clock-gap tsc fuel k (m.chs c).wrt_clk local_clk {new_clk = clk} word older.1 now in
    (omega (arith, gap.0), older.0)
