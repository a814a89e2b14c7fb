-- ===== src/Tests/Logs.antt =====
-- Concrete logs, with an entry that wraps around.
use timestone.Base.{ℕ, ◌≡◌, ◌⊎◌, ◌%◌, refl, some, List, [], ◌∷◌, arith, update}
use timestone.Config.{actual, bogus}
use timestone.Nvlog.{
  Entry, make_entry_size, nvlog_enq, nvlog_deq, nvlog_enq_persist, nvlog_deq_persist, nvlog_load,
}
use timestone.Nvlog.Layout.{entries}
use timestone.Nvlog.Append.{Holds}
use timestone.Nvlog.Enq.{Enqueued, nvlog_enq-Enqueued}
use timestone.Nvlog.Deq.{Dequeued, nvlog_deq-Dequeued}
use timestone.Nvlog.Persist.{Covers, nvlog_enq_persist-Covers}
use timestone.Nvlog.Restart.{nvlog_load-Holds}
use timestone.Oplog.{Op, Oplog, normal, oplog_reclaim}
use timestone.Oplog.Reclaim.{kept, oplog_reclaim-kept}

abbrev op : ℕ → Op
op c = record { local_clk = c; op_type = 1; opd = 7 ∷ [] }

abbrev filler : Entry Op
filler = record { wrt_clk = 0; size = 64; type = bogus; obj = op 0 }

abbrev entry : ℕ → ℕ → Entry Op
entry clk size = record { wrt_clk = clk; size = size; type = actual; obj = op clk }

abbrev log_from : ℕ → ℕ → ℕ → (ℕ → Entry Op) → Oplog
log_from head durable tail buffer = record {
  head_cnt = head;
  tail_cnt = tail;
  prev_head_cnt = head;
  reclaim_lock = 0;
  nvlog_store = record {
    head_cnt = head;
    tail_cnt = durable;
    log_size = 256;
    type = 0;
    status = 0;
  };
  buffer = buffer;
  log_size = 256;
  type = 0;
  status = 0;
}

abbrev one_entry : Oplog
one_entry = log_from 128 128 192 (update (λ i. filler) 128 (entry 5 64))

one_entry-Holds : Holds one_entry (entry 5 64 ∷ [])
one_entry-Holds = record {
  nonempty = omega arith;
  small = omega arith;
  chain = (refl, record { positive = omega arith; inside = omega arith; filler = λ e. cc }, refl);
}

-- a bogus slot at the head, and an entry behind it at offset 0
abbrev wrapped : Oplog
wrapped = log_from 192 192 384 (update (update (λ i. filler) 192 filler) 0 (entry 5 128))

wrapped-Holds : Holds wrapped (filler ∷ entry 5 128 ∷ [])
wrapped-Holds = record {
  nonempty = omega arith;
  small = omega arith;
  chain = (
    refl,
    record { positive = omega arith; inside = omega arith; filler = λ e. (omega arith, refl) },
    (refl, record { positive = omega arith; inside = omega arith; filler = λ e. cc }, refl),
  );
}

make_entry_size_100 : make_entry_size 100 ≡ 128
unfolding make_entry_size
make_entry_size_100 = refl

nvlog_enq-Enqueued_example :
    Enqueued one_entry
      (entry 5 64 ∷ [])
      (make_entry_size 100)
      (nvlog_enq one_entry 100).0
      (nvlog_enq one_entry 100).1
nvlog_enq-Enqueued_example =
    nvlog_enq-Enqueued one_entry (entry 5 64 ∷ []) 100 one_entry-Holds (omega arith)
      (omega (arith, make_entry_size_100)) (omega arith) (omega (arith, make_entry_size_100))

nvlog_deq-Dequeued_example :
    Dequeued wrapped (filler ∷ entry 5 128 ∷ []) (nvlog_deq wrapped).0 (nvlog_deq wrapped).1
nvlog_deq-Dequeued_example =
    nvlog_deq-Dequeued wrapped (filler ∷ entry 5 128 ∷ []) wrapped-Holds (omega arith)

nvlog_enq_persist-Covers_example :
    Covers (nvlog_enq_persist wrapped).1 (300 % 256)
    × ((nvlog_enq_persist wrapped).0
        ≡ record wrapped { nvlog_store = record (wrapped.nvlog_store) { tail_cnt = 384 } })
nvlog_enq_persist-Covers_example =
    nvlog_enq_persist-Covers wrapped (omega arith) (omega arith) 300 (omega arith) (omega arith)
      (omega arith)

-- The tail was durable behind the first slot, and the second is waiting.
abbrev half_durable : Oplog
half_durable = record wrapped { nvlog_store = record (wrapped.nvlog_store) { tail_cnt = 256 } }

half_durable-Holds : Holds half_durable (filler ∷ entry 5 128 ∷ [])
half_durable-Holds = record {
  nonempty = wrapped-Holds.nonempty;
  small = wrapped-Holds.small;
  chain = wrapped-Holds.chain;
}

nvlog_load-Holds_example :
    Holds
      (nvlog_load
        (nvlog_deq_persist (nvlog_enq_persist half_durable).0).nvlog_store
        half_durable.buffer)
      (filler ∷ entry 5 128 ∷ [])
nvlog_load-Holds_example =
    nvlog_load-Holds half_durable (filler ∷ entry 5 128 ∷ []) half_durable.buffer half_durable-Holds
      refl (omega arith) (omega arith) (λ i some_bytes covered. refl) (λ c lo hi. refl)

oplog_reclaim-kept_example :
    (l' : Oplog) × (es' : List (Entry Op)) × (oplog_reclaim 3 wrapped 900000 normal ≡ some (l', 1))
    × Holds l' es'
    × (entries es' ≡ kept 900000 normal (entries (filler ∷ entry 5 128 ∷ [])))
    × (l'.reclaim_lock ≡ 0)
    × (l'.tail_cnt ≡ wrapped.tail_cnt)
    × ((l'.head_cnt ≡ wrapped.head_cnt) ⊎ (l'.nvlog_store.head_cnt ≡ l'.head_cnt))
oplog_reclaim-kept_example =
    oplog_reclaim-kept 3 wrapped (filler ∷ entry 5 128 ∷ []) 900000 normal wrapped-Holds
      (omega arith) (omega arith) refl
