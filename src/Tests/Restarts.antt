-- ===== src/Tests/Restarts.antt =====
-- Operation logs found after a crash: one with an operation on either side of the last checkpoint, and a
-- checkpoint log, which the collection of operations passes over.
use timestone.Base.{ℕ, ◌*◌, ◌≡◌, refl, List, [], ◌∷◌, length, arith, update}
use timestone.Config.{actual}
use timestone.Nvlog.{Entry, nvlog_load}
use timestone.Nvlog.Append.{Holds}
use timestone.Oplog.{Op}
use timestone.Recovery.{
  NvlogStore, scanned, type_oplog, type_ckptlog, alloc_replay_array, collect_replay_entries,
  ReplayEntry,
}
use timestone.Recovery.Rounds.{Slots, replay_of}
use timestone.Recovery.Logs.{OpLogs}
use timestone.Recovery.Replay.{alloc_replay_array-collect_replay_entries}

abbrev op_entry : ℕ → ℕ → Entry Op
op_entry local_clk wrt_clk = record {
  wrt_clk = wrt_clk;
  size = 64;
  type = actual;
  obj = record { local_clk = local_clk; op_type = 1; opd = 7 ∷ [] };
}

abbrev two_ops : Slots
two_ops = op_entry 3 5 ∷ op_entry 20 25 ∷ []

abbrev oplog_store : NvlogStore
oplog_store = record {
  store = record { head_cnt = 64; tail_cnt = 192; log_size = 256; type = type_oplog; status = 0 };
  base = 0;
  ckpts = λ i. record { wrt_clk = 0; size = 0; type = actual; obj = tt };
  ops = update (λ i. op_entry 3 5) 128 (op_entry 20 25);
}

abbrev ckptlog_store : NvlogStore
ckptlog_store = record oplog_store {
  store = record { head_cnt = 0; tail_cnt = 0; log_size = 256; type = type_ckptlog; status = 0 };
}

two_ops-Holds : Holds (nvlog_load oplog_store.store oplog_store.ops) two_ops
unfolding nvlog_load
two_ops-Holds = record {
  nonempty = omega arith;
  small = omega arith;
  chain = (
    refl,
    record { positive = omega arith; inside = omega arith; filler = λ e. cc },
    (refl, record { positive = omega arith; inside = omega arith; filler = λ e. cc }, refl),
  );
}

stores-OpLogs : OpLogs 3 (ckptlog_store ∷ oplog_store ∷ []) ([] ∷ two_ops ∷ [])
stores-OpLogs = ((λ bad. cc), ((λ is_log. (two_ops-Holds, refl, omega arith, omega arith)), tt))

-- The last checkpoint was at 10: the second operation began behind it.
alloc_replay_array-collect_replay_entries_example :
    (ds1 : List NvlogStore) × (ds2 : List NvlogStore) × (ops_cnt : ℕ) × (replay_array : List
      ReplayEntry)
    × (alloc_replay_array 3 10 (ckptlog_store ∷ oplog_store ∷ []) 0 ≡ scanned (ds1, ops_cnt))
    × (collect_replay_entries 3 10 ds1 [] ≡ scanned (ds2, replay_array))
    × (replay_array ≡ replay_of (op_entry 20 25 ∷ []))
    × (length replay_array ≡ 2 * ops_cnt)
alloc_replay_array-collect_replay_entries_example =
    alloc_replay_array-collect_replay_entries 3 10 (ckptlog_store ∷ oplog_store ∷ [])
      ([] ∷ two_ops ∷ []) stores-OpLogs
