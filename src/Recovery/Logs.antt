-- ===== src/Recovery/Logs.antt =====
-- The operation logs found after a crash, and what the first pass does to one of them.
use timestone.Base.{
  ℕ, zero, suc, ◌*◌, ◌^◌, ◌≤◌, ◌<◌, ◌≡◌, ◌⊎◌, inl, inr, refl, sym, ap, ◌∙◌, true, false, List, [],
  ◌∷◌, ◌++◌, length, ◌==◌, if◌then◌else◌, arith, Bool-cases,
}
use mathlib.Core.Path.{subst}
use mathlib.Core.List.{append_assoc}
use timestone.Nvlog.{Store, nvlog_load, nvlog_truncate_head}
use timestone.Nvlog.Layout.{entries}
use timestone.Nvlog.Append.{Holds}
use timestone.Oplog.{Oplog}
use timestone.Recovery.{
  NvlogStore, Scan, scanned, is_log, type_oplog, count_ops, collect_ops, alloc_replay_array,
  collect_replay_entries, ReplayEntry, add_op_replay,
}
use timestone.Recovery.Rounds.{Slots, LastReal, valid, replay_of}
use timestone.Recovery.Counts.{Counts, with_head}

-- The log at `d`, where it is a log of operations in use, has the slots `es`, fewer than the fuel.
abbrev pub OpLog : ℕ → NvlogStore → Slots → Type 0
OpLog fuel d es =
    Holds (nvlog_load d.store d.ops) es
    × LastReal es
    × (d.store.tail_cnt < 2 ^ 64)
    × (length (entries es) < fuel)

abbrev pub OpLogs : ℕ → List NvlogStore → List Slots → Type 0
OpLogs fuel [] [] = Unit {0}
OpLogs fuel [] (es ∷ ess) = ⊥
OpLogs fuel (d ∷ ds) [] = ⊥
OpLogs fuel (d ∷ ds) (es ∷ ess) =
    (is_log type_oplog d.store ≡ true → OpLog fuel d es) × OpLogs fuel ds ess

-- the valid operations of all the logs of operations
abbrev pub all_valid : ℕ → List NvlogStore → List Slots → Slots
all_valid last [] ess = []
all_valid last (d ∷ ds) [] = []
all_valid last (d ∷ ds) (es ∷ ess) =
    if is_log type_oplog d.store
    then valid last (entries es) ++ all_valid last ds ess
    else all_valid last ds ess

pub replay_of-append : (xs ys : Slots) → replay_of (xs ++ ys) ≡ replay_of xs ++ replay_of ys
replay_of-append [] ys = refl
replay_of-append (x ∷ xs) ys =
    ap (λ l. add_op_replay x ++ l) (replay_of-append xs ys)
    ∙ sym (append_assoc (add_op_replay x) (replay_of xs) (replay_of ys))

pub length-replay_of : (xs : Slots) → length (replay_of xs) ≡ 2 * length xs
unfolding add_op_replay
length-replay_of [] = refl
length-replay_of (x ∷ xs) = omega (arith, length-replay_of xs)

pub truncated_lem :
    (l : Oplog) (s : Store) (head : ℕ)
    → l.nvlog_store ≡ s
    → (((nvlog_truncate_head l head).nvlog_store).head_cnt ≡ head)
      × (((nvlog_truncate_head l head).nvlog_store).tail_cnt ≡ s.tail_cnt)
      × (((nvlog_truncate_head l head).nvlog_store).log_size ≡ s.log_size)
      × (is_log type_oplog ((nvlog_truncate_head l head).nvlog_store) ≡ is_log type_oplog s)
unfolding nvlog_truncate_head
truncated_lem l s head e = elim (Bool-cases (l.nvlog_store.head_cnt == head)) [
  | inl same ↦ rw (same, e) (ground (arith, same, e), refl, refl, refl)
  | inr moved ↦ rw (moved, e) (refl, refl, refl, refl)
]

abbrev pub moved_head : NvlogStore → Oplog → ℕ → NvlogStore
moved_head d l head = record d { store = (nvlog_truncate_head l head).nvlog_store }

-- The slots of the log from the head on that the count leaves.
abbrev Kept : ℕ → NvlogStore → Slots → ℕ → Type 0
Kept last d es head =
    (ks : Slots) × Holds (with_head (nvlog_load d.store d.ops) head) ks
    × LastReal ks
    × (valid last (entries ks) ≡ valid last (entries es))
    × (length (entries ks) ≤ length (entries es))

pub count-Kept :
    (fuel last ops : ℕ) (d : NvlogStore) (es : Slots) {r : Scan (Oplog × ℕ × ℕ)}
    → OpLog fuel d es
    → (c : Counts last (nvlog_load d.store d.ops) es d.store.head_cnt ops r)
    → Kept last d es c.head'
unfolding nvlog_load
count-Kept fuel last zero d es h c = go (c.first refl).moved
  where
    go :
        ((valid last (entries es) ≡ []) × (c.head' ≡ d.store.head_cnt)) ⊎ Kept last d es c.head'
        → Kept last d es c.head'
    go (inl e) = (
      es,
      subst (λ k. Holds (with_head (nvlog_load d.store d.ops) k) es) (sym e.1) h.0,
      h.1,
      refl,
      omega arith,
    )
    go (inr k) = k
count-Kept fuel last (suc ops) d es h c =
    let stays = c.later (omega arith) in
    (
      es,
      subst (λ k. Holds (with_head (nvlog_load d.store d.ops) k) es) (sym stays) h.0,
      h.1,
      refl,
      omega arith,
    )

pub moved-OpLog :
    (fuel last : ℕ) (d : NvlogStore) (es : Slots) (l : Oplog) (head : ℕ)
    → OpLog fuel d es
    → l.nvlog_store ≡ d.store
    → (k : Kept last d es head) → OpLog fuel (moved_head d l head) k.0
unfolding nvlog_load
moved-OpLog fuel last d es l head h e k =
    let t = truncated_lem l d.store head e in
    (
      rw (t.0, t.1, t.2) (record { nonempty = k.1.nonempty; small = k.1.small; chain = k.1.chain }),
      k.2,
      rw t.1 h.2,
      omega (arith, k.4, h.3),
    )

module _ (fuel last : ℕ) (d : NvlogStore) (ds ds' : List NvlogStore) where
  pub alloc_other :
      (ops total : ℕ)
      → is_log type_oplog d.store ≡ false
      → alloc_replay_array fuel last ds ops ≡ scanned (ds', total)
      → alloc_replay_array fuel last (d ∷ ds) ops ≡ scanned (d ∷ ds', total)
  unfolding alloc_replay_array
  alloc_other ops total e f = rw (e, alloc_replay_array, f) refl

  pub alloc_log :
      (ops n total head : ℕ) (l : Oplog)
      → is_log type_oplog d.store ≡ true
      → count_ops fuel last (nvlog_load d.store d.ops) d.store.head_cnt ops ≡ scanned (l, head, n)
      → alloc_replay_array fuel last ds n ≡ scanned (ds', total)
      → alloc_replay_array fuel last (d ∷ ds) ops ≡ scanned (moved_head d l head ∷ ds', total)
  unfolding alloc_replay_array
  alloc_log ops n total head l e c f = rw (e, alloc_replay_array, c, f) refl

  pub collect_other :
      (a all : List ReplayEntry)
      → is_log type_oplog d.store ≡ false
      → collect_replay_entries fuel last ds a ≡ scanned (ds', all)
      → collect_replay_entries fuel last (d ∷ ds) a ≡ scanned (d ∷ ds', all)
  unfolding collect_replay_entries
  collect_other a all e f = rw (e, collect_replay_entries, f) refl

  pub collect_log :
      (a b all : List ReplayEntry) (l : Oplog)
      → is_log type_oplog d.store ≡ true
      → collect_ops fuel last (nvlog_load d.store d.ops) a ≡ scanned (l, b)
      → collect_replay_entries fuel last ds b ≡ scanned (ds', all)
      → collect_replay_entries fuel last (d ∷ ds) a
        ≡ scanned (moved_head d l d.store.head_cnt ∷ ds', all)
  unfolding collect_replay_entries
  collect_log a b all l e c f = rw (e, collect_replay_entries, c, f) refl
