-- ===== src/Recovery/Compare.antt =====
-- comp_replay_entries orders the entries that are not too far apart.
use timestone.Base.{ℕ, ◌+◌, ◌^◌, ◌≤◌, ◌<◌, ◌≡◌, ◌⊎◌, ◌↔◌, arith}
use timestone.Recovery.{ReplayEntry, comp_replay_entries}

-- the order that the sort wants: by time, then executions in front of commits
abbrev pub Before : ReplayEntry → ReplayEntry → Type 0
Before p q = (p.time_stamp < q.time_stamp) ⊎ ((p.time_stamp ≡ q.time_stamp) × (p.type < q.type))

-- a negative `int`, as a 32-bit word
abbrev pub Negative : ℕ → Type 0
Negative d = 2 ^ 31 ≤ d

-- The result for times less than 2 ^ 31 apart, where types are executions and commits: it is 0 exactly
-- for entries of the same time and type, and negative exactly where the first entry is to be replayed
-- before the second.
pub comp_replay_entries_lem :
    (p q : ReplayEntry)
    → p.time_stamp < 2 ^ 64
    → q.time_stamp < 2 ^ 64
    → p.time_stamp < q.time_stamp + 2 ^ 31
    → q.time_stamp < p.time_stamp + 2 ^ 31
    → p.type < 2
    → q.type < 2
    → ((comp_replay_entries p q ≡ 0) ↔ ((p.time_stamp ≡ q.time_stamp) × (p.type ≡ q.type)))
      × (Negative (comp_replay_entries p q) ↔ Before p q)
unfolding comp_replay_entries
comp_replay_entries_lem p q p_low q_low near near' p_type q_type = ground arith
