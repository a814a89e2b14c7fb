-- ===== src/Version.antt =====
-- ts_deref of lib/timestone.c: a reader picks a version of an object.
pub mod Snapshot
pub mod Checkpoint
use timestone.Base.{ℕ, zero, suc, Bool, true, false, Option, none, some, if◌then◌else◌}
use timestone.Clock.{lt_clock, get_wrt_clk}
use timestone.Memory.{Memory, Obj, act, cpy, ckpt, Chs, get_act_vhdr}

-- What the walk down a version chain ends with: a copy, no copy that the reader may see, a commit
-- that it has to wait for, or no more fuel.
pub data Walk : Type 0 where
  found : ℕ → Walk
  missing waits out_of_fuel : Walk

-- the clock of a copy for a reader
abbrev pub clock_of : Memory → ℕ → ℕ → Option ℕ
clock_of m c local_clk =
    get_wrt_clk (m.chs c).wrt_clk (m.ws (m.chs c).p_ws).pending_wrt_clk
      (m.ws (m.chs c).p_ws).wrt_clk local_clk

-- The loop of Case 2.
unfoldable pub walk_chain : ℕ → Memory → ℕ → ℕ → ℕ → Walk
walk_chain zero m last_ckpt_clk local_clk c = out_of_fuel
walk_chain (suc fuel) m last_ckpt_clk local_clk c = elim (clock_of m c local_clk) [
  | none ↦ waits
  | some wrt_clk ↦
      let older : Walk = elim ((m.chs c).p_copy) [
        | none ↦ missing
        | some q ↦ walk_chain fuel m last_ckpt_clk local_clk q
      ] in
      if lt_clock wrt_clk local_clk
      then found c
      else if lt_clock (m.chs c).wrt_clk_next last_ckpt_clk
      then missing
      else older
]

-- What is handed to the read set: the volatile header, the latest copy and the version read.
pub record View : Type 0 where
  pub p_act_vhdr : Option ℕ
  pub p_latest : Option ℕ
  pub version : Obj

pub data Deref : Type 0 where
  null : Deref
  already : Obj → Deref  -- Case 0: a copy is returned as it is, and the read set stays
  view : View → Deref
  blocked : Deref  -- spins until a commit is public
  stuck : Deref  -- out of fuel

abbrev pub end_walk : Memory → ℕ → Option ℕ → Walk → Deref
end_walk m v latest (found c) =
    view (record { p_act_vhdr = some v; p_latest = latest; version = Obj.cpy c })
end_walk m v latest missing =
    view (record { p_act_vhdr = some v; p_latest = latest; version = (m.vhdr v).np_cur_act })
end_walk m v latest waits = blocked
end_walk m v latest out_of_fuel = stuck

abbrev pub deref_vhdr : ℕ → Memory → ℕ → ℕ → ℕ → Deref
deref_vhdr fuel m last_ckpt_clk local_clk v = elim ((m.vhdr v).p_copy) [
  | none ↦ end_walk m v none missing
  | some c ↦ end_walk m v (some c) (walk_chain fuel m last_ckpt_clk local_clk c)
]

-- Anything outside the region of the transient version logs counts as an actual object.
unfoldable pub deref : ℕ → Memory → ℕ → ℕ → Option Obj → Deref
deref fuel m last_ckpt_clk local_clk none = null
deref fuel m last_ckpt_clk local_clk (some (Obj.cpy c)) = already (Obj.cpy c)
deref fuel m last_ckpt_clk local_clk (some (Obj.act a)) = elim (get_act_vhdr m (Obj.act a)) [
  | none ↦ view (record { p_act_vhdr = none; p_latest = none; version = Obj.act a })
  | some v ↦ deref_vhdr fuel m last_ckpt_clk local_clk v
]
deref fuel m last_ckpt_clk local_clk (some (Obj.ckpt e)) = elim (get_act_vhdr m (Obj.ckpt e)) [
  | none ↦ view (record { p_act_vhdr = none; p_latest = none; version = Obj.ckpt e })
  | some v ↦ deref_vhdr fuel m last_ckpt_clk local_clk v
]
