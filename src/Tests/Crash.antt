-- ===== src/Tests/Crash.antt =====
-- A checkpoint log found after a crash, with two checkpoints of object 7: the second is the newer one.
use timestone.Base.{ℕ, ◌+◌, ◌≡◌, refl, false, none, some, List, [], ◌∷◌, arith, update}
use timestone.Config.{actual}
use timestone.Nvlog.{Entry, nvlog_load}
use timestone.Nvlog.Append.{Holds}
use timestone.Memory.{new_vhdr}
use timestone.Tvlog.{zero_chs}
use timestone.Oplog.{Op}
use timestone.Ckptlog.Slots.{Slots}
use timestone.Recovery.{NvlogStore, Rebuilt, scanned, type_ckptlog, ckptlog_recovery}
use timestone.Recovery.Latest.{CkptLogs, Restored, all_recovered, ckptlog_recovery-Restored}

abbrev slot : Entry (Unit {0})
slot = record { wrt_clk = 0; size = 64; type = actual; obj = tt }

abbrev two_slots : Slots
two_slots = slot ∷ slot ∷ []

abbrev no_op : Entry Op
no_op = record {
  wrt_clk = 0;
  size = 64;
  type = actual;
  obj = record { local_clk = 0; op_type = 0; opd = [] };
}

abbrev store : NvlogStore
store = record {
  store = record { head_cnt = 64; tail_cnt = 192; log_size = 256; type = type_ckptlog; status = 0 };
  base = 1000;
  ckpts = λ i. slot;
  ops = λ i. no_op;
}

two_slots-Holds : Holds (nvlog_load store.store store.ckpts) two_slots
unfolding nvlog_load
two_slots-Holds = record {
  nonempty = omega arith;
  small = omega arith;
  chain = (
    refl,
    record { positive = omega arith; inside = omega arith; filler = λ e. cc },
    (refl, record { positive = omega arith; inside = omega arith; filler = λ e. cc }, refl),
  );
}

stores-CkptLogs : CkptLogs 3 (store ∷ []) (two_slots ∷ [])
stores-CkptLogs = ((λ mine. (two_slots-Holds, refl, omega arith, omega arith)), tt)

abbrev found : Rebuilt
found = record {
  memory = record {
    act = λ a. record { p_act_vhdr = none; gen_id = 0; index = 0; obj_size = 2; obj = 1 ∷ 2 ∷ [] };
    vhdr = new_vhdr;
    chs = λ c. zero_chs;
    ws = λ w. record {
      wrt_clk = 0;
      pending_wrt_clk = 0;
      num_objs = 0;
      start_tail_cnt = 0;
      thread = 0;
    };
    ckpt =
        update
          (λ e. record {
            wrt_clk = 5;
            ckpt_s_clk = 6;
            np_org_act = 7;
            tombstone = false;
            obj_size = 2;
            obj = 3 ∷ 4 ∷ [];
          })
          1128
          (record {
            wrt_clk = 9;
            ckpt_s_clk = 10;
            np_org_act = 7;
            tombstone = false;
            obj_size = 2;
            obj = 5 ∷ 6 ∷ [];
          });
  };
  allocated = 0;
}

abbrev headers : ℕ → ℕ
headers k = 500 + k

ckptlog_recovery-Restored_example :
    (r' : Rebuilt) × (ds' : List NvlogStore) × (ckptlog_recovery 3
        (λ k. some (headers k))
        1
        10
        found
        (store ∷ [])
      ≡ scanned (r', ds'))
    × ((a : ℕ)
        → Restored headers 1 found.memory.ckpt
            (all_recovered found.memory.ckpt 10 (store ∷ []) (two_slots ∷ []))
            r'
            a)
ckptlog_recovery-Restored_example =
    ckptlog_recovery-Restored 3 (λ k. some (headers k)) headers 1 10 found (store ∷ [])
      (two_slots ∷ []) (λ k. refl) (λ i j e. omega (arith, e)) (λ a. refl) stores-CkptLogs

-- The recovery comes to both.
all_recovered_lem :
    all_recovered found.memory.ckpt 10 (store ∷ []) (two_slots ∷ []) ≡ 1064 ∷ 1128 ∷ []
all_recovered_lem = refl
