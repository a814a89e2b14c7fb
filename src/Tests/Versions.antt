-- ===== src/Tests/Versions.antt =====
-- An object with two versions, its readers, and the commit of a third version.
use timestone.Base.{
  inl, ℕ, ◌+◌, ◌*◌, ◌≡◌, refl, Option, none, some, [], ◌∷◌, arith, update, true, false,
}
use timestone.Config.{copy, max_version}
use timestone.Clock.{new_clock, ordo_new_clock, ordo_gt_clock, ordo_lt_clock, get_wrt_clk}
use timestone.Memory.{get_entry_size, Memory, Obj, Chs, set_vhdr, status_none}
use timestone.Version.{deref}
use timestone.Version.Snapshot.{Read, deref-Read}
use timestone.Lock.{set_p_lock, may_lock, try_lock_obj}
use timestone.Lock.Guard.{may_lock-Before}
use timestone.Lock.Race.{Respects, Tried, try_lock_obj-Tried}
use timestone.PtrSet.{PtrSet}
use timestone.Tvlog.{Tvlog, Sizes, tvlog_alloc}
use timestone.Tvlog.Alloc.{Placed, tvlog_alloc-Placed}
use timestone.Tvlog.WriteSet.{move_lock_to_copy, unlock_commit, tvlog_abort}
use timestone.Tvlog.Abort.{AllUnlocked, Spared, tvlog_abort-AllUnlocked}
use timestone.Tvlog.Layout.{IsWriteSet}
use timestone.Tvlog.Commit.{AllSamePlace, Before, CommittedCopy, unlock_commit-CommittedCopy}

abbrev chs_of : ℕ → ℕ → Option ℕ → Chs
chs_of clk next older = record {
  p_ws = 9;
  wrt_clk = clk;
  wrt_clk_next = next;
  wrt_clk_prev = max_version;
  p_copy = older;
  p_act_vhdr = 2;
  obj_size = 8;
  padding_size = 56;
  type = copy;
  status = status_none;
  obj = clk ∷ [];
}

abbrev memory : Memory
memory = record {
  act = λ a. record { p_act_vhdr = some 2; gen_id = 0; index = 0; obj_size = 8; obj = 1 ∷ [] };
  vhdr = λ v. record {
    p_copy = some 3;
    p_lock = some 5;
    np_org_act = 1;
    np_cur_act = Obj.act 1;
    tombstone_clk = max_version;
  };
  chs =
      update (update (λ c. chs_of max_version 0 none) 3 (chs_of 200 100 (some 4))) 4
        (chs_of 100 0 none);
  ws = λ w. record {
    wrt_clk = max_version;
    pending_wrt_clk = max_version;
    num_objs = 0;
    start_tail_cnt = 0;
    thread = 0;
  };
  ckpt = λ e. record {
    wrt_clk = 0;
    ckpt_s_clk = 0;
    np_org_act = 1;
    tombstone = false;
    obj_size = 8;
    obj = [];
  };
}

-- A reader between the two versions.
deref-Read_example : Read memory 50 150 2 (3 ∷ 4 ∷ []) (deref 2 memory 50 150 (some (Obj.act 1)))
deref-Read_example =
    deref-Read 2 memory 50 150 1 2 (3 ∷ 4 ∷ []) refl (refl, (refl, refl, tt), (refl, omega arith))
      (omega arith)

abbrev no_frees : PtrSet
no_frees = record { num_ptrs = 0; num_max_ptrs = 0; ptrs = none }

abbrev moved : Memory
moved = (move_lock_to_copy no_frees (memory, 0) 5).0

moved_places : AllSamePlace moved moved (3 ∷ 4 ∷ [])
moved_places = ((refl, refl, refl), ((refl, refl, refl), tt))

unlock_commit-CommittedCopy_example :
    CommittedCopy no_frees 0 300 memory (unlock_commit 300 moved 5) 5 (3 ∷ 4 ∷ [])
unlock_commit-CommittedCopy_example =
    unlock_commit-CommittedCopy no_frees 0 300 memory moved 5 (3 ∷ 4 ∷ []) refl
      (refl, (refl, refl, tt), (refl, omega arith)) (omega arith) (omega arith, (omega arith, tt))
      refl (record { header = refl; vhdr = refl; places = moved_places })

-- The counter's readings are 0, 10, 20 and so on.
abbrev tsc : ℕ → ℕ
tsc k = 10 * k

abbrev unlocked_memory : Memory
unlocked_memory = set_p_lock memory 2 none

may_lock_run : may_lock unlocked_memory 2 250 ≡ some true
unfolding may_lock get_wrt_clk ordo_lt_clock
may_lock_run = refl

later_clock_run : new_clock tsc 40 1 250 ≡ some 260
unfolding ordo_new_clock ordo_gt_clock
later_clock_run = refl

may_lock-Before_example :
    Before unlocked_memory 260 (3 ∷ 4 ∷ []) × ((unlocked_memory.vhdr 2).p_lock ≡ none)
may_lock-Before_example =
    may_lock-Before tsc 40 1 unlocked_memory 2 250 260 (3 ∷ 4 ∷ []) (omega arith)
      (refl, (refl, refl, tt), (refl, omega arith)) (omega arith) may_lock_run later_clock_run

-- Another thread puts a version on the chain behind the swap.
abbrev new_version : Memory → Memory
new_version m = set_vhdr m 2 (record (m.vhdr 2) { p_copy = some 6 })

abbrev nothing : Memory → Memory
nothing m = m

new_version-Respects : Respects new_version 2
new_version-Respects m p held = ground (arith, held)

try_lock_obj-Tried_example :
    Tried nothing new_version unlocked_memory 2
      (some 3)
      5
      (try_lock_obj nothing new_version unlocked_memory 2 (some 3) 5)
try_lock_obj-Tried_example =
    try_lock_obj-Tried nothing new_version unlocked_memory 2 (some 3) 5 new_version-Respects

-- A write set at the start of the ring, of one copy behind its header.
abbrev ring : Tvlog
ring = record {
  base = 0;
  head_cnt = 0;
  tail_cnt = 128;
  prev_head_cnt = 0;
  reclaim_lock = 0;
  need_reclaim = 0;
  cur_wrt_set = some 0;
  thread = 0;
}

abbrev locked_memory : Memory
locked_memory = record memory {
  vhdr = λ v. record (memory.vhdr v) { p_lock = some 64 };
  ws = λ w. record {
    wrt_clk = max_version;
    pending_wrt_clk = max_version;
    num_objs = 1;
    start_tail_cnt = 0;
    thread = 0;
  };
}

abbrev frees : PtrSet
frees = record { num_ptrs = 0; num_max_ptrs = 2; ptrs = some (0 ∷ 0 ∷ []) }

locked-IsWriteSet : IsWriteSet ring locked_memory 0 (64 ∷ [])
unfolding get_entry_size
locked-IsWriteSet = record { objects = (refl, refl); count = refl }

tvlog_abort-AllUnlocked_example :
    AllUnlocked locked_memory.chs (tvlog_abort locked_memory ring frees 0).0 (64 ∷ [])
    × Spared locked_memory (tvlog_abort locked_memory ring frees 0).0 (64 ∷ [])
    × ((tvlog_abort locked_memory ring frees 0).0.chs ≡ locked_memory.chs)
    × ((tvlog_abort locked_memory ring frees 0).0.ws ≡ locked_memory.ws)
    × ((tvlog_abort locked_memory ring frees 0).1.tail_cnt ≡ (locked_memory.ws 0).start_tail_cnt)
    × ((tvlog_abort locked_memory ring frees 0).1.cur_wrt_set ≡ none)
    × ((tvlog_abort locked_memory ring frees 0).2.num_ptrs ≡ 0)
tvlog_abort-AllUnlocked_example =
    tvlog_abort-AllUnlocked locked_memory ring frees 0 (64 ∷ []) locked-IsWriteSet
      ((λ e. inl refl), tt)

abbrev sizes : Sizes
sizes = record { cpy_hdr_struct = 64; wrt_set = 40; wrt_set_struct = 104 }

-- The tail is one cache line ahead of the end of the ring.
abbrev late_ring : Tvlog
late_ring = record {
  base = 0;
  head_cnt = 0;
  tail_cnt = 1048512;
  prev_head_cnt = 0;
  reclaim_lock = 0;
  need_reclaim = 0;
  cur_wrt_set = some 0;
  thread = 0;
}

tvlog_alloc-Placed_example :
    Placed (tvlog_alloc sizes memory late_ring 100 false) (100 + sizes.cpy_hdr_struct)
tvlog_alloc-Placed_example =
    tvlog_alloc-Placed sizes memory late_ring 100 false (omega arith) (omega arith) (omega arith)
      (omega arith)
