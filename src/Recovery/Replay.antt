-- ===== src/Recovery/Replay.antt =====
-- The array of the operations that a recovery is to replay.
use timestone.Base.{
  length-append, ℕ, ◌+◌, ◌*◌, ◌≡◌, inl, inr, refl, sym, ap, ◌∙◌, true, false, List, [], ◌∷◌, ◌++◌,
  length, arith, Bool-cases,
}
use mathlib.Core.List.{append_assoc, append-nil}
use timestone.Nvlog.{nvlog_load}
use timestone.Nvlog.Layout.{entries}
use timestone.Recovery.{
  NvlogStore, scanned, is_log, type_oplog, alloc_replay_array, collect_replay_entries, ReplayEntry,
}
use timestone.Recovery.Rounds.{Slots, valid, replay_of, collect_ops-Collects}
use timestone.Recovery.Counts.{count_ops-Counts}
use timestone.Recovery.Logs.{
  OpLogs, all_valid, replay_of-append, length-replay_of, truncated_lem, moved_head, count-Kept,
  moved-OpLog, alloc_other, alloc_log, collect_other, collect_log,
}

-- The logs that the count leaves have the same valid operations.
abbrev Counted : ℕ → ℕ → List NvlogStore → List Slots → ℕ → Type 0
Counted fuel last ds ess ops =
    (ds' : List NvlogStore) × (ess' : List Slots) × (alloc_replay_array fuel last ds ops
      ≡ scanned (ds', ops + length (all_valid last ds ess)))
    × OpLogs fuel ds' ess'
    × (all_valid last ds' ess' ≡ all_valid last ds ess)

all_valid-log :
    (last : ℕ) (d : NvlogStore) (ds : List NvlogStore) (es : Slots) (ess : List Slots)
    → is_log type_oplog d.store ≡ true
    → all_valid last (d ∷ ds) (es ∷ ess) ≡ valid last (entries es) ++ all_valid last ds ess
all_valid-log last d ds es ess e = rw e refl

all_valid-other :
    (last : ℕ) (d : NvlogStore) (ds : List NvlogStore) (es : Slots) (ess : List Slots)
    → is_log type_oplog d.store ≡ false
    → all_valid last (d ∷ ds) (es ∷ ess) ≡ all_valid last ds ess
all_valid-other last d ds es ess e = rw e refl

alloc-Counted :
    (fuel last ops : ℕ) (ds : List NvlogStore) (ess : List Slots)
    → OpLogs fuel ds ess
    → Counted fuel last ds ess ops
unfolding alloc_replay_array nvlog_load
alloc-Counted fuel last ops [] [] h =
    ([], [], ap (λ (k : ℕ). scanned ([], k)) {y = ops + 0} (omega arith), tt, refl)
alloc-Counted fuel last ops [] (es ∷ ess) h = absurd h
alloc-Counted fuel last ops (d ∷ ds) [] h = absurd h
alloc-Counted fuel last ops (d ∷ ds) (es ∷ ess) h = elim (Bool-cases (is_log type_oplog d.store)) [
  | inr e ↦
      let rest = alloc-Counted fuel last ops ds ess h.1 in
      (
        d ∷ rest.0,
        es ∷ rest.1,
        alloc_other fuel last d ds rest.0 ops (ops + length (all_valid last ds ess)) e rest.2
            ∙ ap (λ x. scanned (d ∷ rest.0, ops + length x))
                (sym (all_valid-other last d ds es ess e)),
        (h.0, rest.3),
        all_valid-other last d rest.0 es rest.1 e
            ∙ rest.4
            ∙ sym (all_valid-other last d ds es ess e),
      )
  | inl e ↦
      let log = h.0 e in
      let c =
        count_ops-Counts fuel last (nvlog_load d.store d.ops) es d.store.head_cnt ops log.0 log.1
          log.2 log.3 in
      let k = count-Kept fuel last ops d es log c in
      let d' = moved_head d c.log c.head' in
      let n = ops + length (valid last (entries es)) in
      let rest = alloc-Counted fuel last n ds ess h.1 in
      let same = (truncated_lem c.log d.store c.head' c.store).3 ∙ e in
      (
        d' ∷ rest.0,
        k.0 ∷ rest.1,
        alloc_log fuel last d ds rest.0 ops n (n + length (all_valid last ds ess)) c.head' c.log e
              c.result rest.2
            ∙ ap (λ (x : ℕ). scanned (d' ∷ rest.0, x))
                {y = ops + length (all_valid last (d ∷ ds) (es ∷ ess))}
                (omega (
                  arith,
                  ap (λ x. length x) (all_valid-log last d ds es ess e),
                  length-append (valid last (entries es)) (all_valid last ds ess),
                )),
        ((λ f. moved-OpLog fuel last d es c.log c.head' log c.store k), rest.3),
        all_valid-log last d' rest.0 k.0 rest.1 same
            ∙ ap (λ x. x ++ all_valid last rest.0 rest.1) k.3
            ∙ ap (λ x. valid last (entries es) ++ x) rest.4
            ∙ sym (all_valid-log last d ds es ess e),
      )
]

Collected : ℕ → ℕ → List NvlogStore → List Slots → List ReplayEntry → Type 0
Collected fuel last ds ess a =
    (ds' : List NvlogStore) × (collect_replay_entries fuel last ds a
      ≡ scanned (ds', a ++ replay_of (all_valid last ds ess)))

collect-Collected :
    (fuel last : ℕ) (a : List ReplayEntry) (ds : List NvlogStore) (ess : List Slots)
    → OpLogs fuel ds ess
    → Collected fuel last ds ess a
unfolding collect_replay_entries Collected nvlog_load
collect-Collected fuel last a [] [] h = ([], ap (λ x. scanned ([], x)) (sym (append-nil a)))
collect-Collected fuel last a [] (es ∷ ess) h = absurd h
collect-Collected fuel last a (d ∷ ds) [] h = absurd h
collect-Collected fuel last a (d ∷ ds) (es ∷ ess) h =
    elim (Bool-cases (is_log type_oplog d.store)) [
      | inr e ↦
          let rest = collect-Collected fuel last a ds ess h.1 in
          (
            d ∷ rest.0,
            collect_other fuel last d ds rest.0 a (a ++ replay_of (all_valid last ds ess)) e rest.1
                ∙ ap (λ x. scanned (d ∷ rest.0, a ++ replay_of x))
                    (sym (all_valid-other last d ds es ess e)),
          )
      | inl e ↦
          let log = h.0 e in
          let c =
            collect_ops-Collects fuel last (nvlog_load d.store d.ops) es a log.0 log.1 log.2
              log.3 in
          let b = a ++ replay_of (valid last (entries es)) in
          let rest = collect-Collected fuel last b ds ess h.1 in
          let d' = moved_head d c.0 d.store.head_cnt in
          (
            d' ∷ rest.0,
            collect_log fuel last d ds rest.0 a b (b ++ replay_of (all_valid last ds ess)) c.0 e c.1
                  rest.1
                ∙ ap (λ x. scanned (d' ∷ rest.0, x))
                    (append_assoc a (replay_of (valid last (entries es)))
                        (replay_of (all_valid last ds ess))
                      ∙ ap (λ x. a ++ x)
                          (sym (replay_of-append (valid last (entries es)) (all_valid last ds ess)))
                      ∙ ap (λ x. a ++ replay_of x) (sym (all_valid-log last d ds es ess e))),
          )
    ]

-- With more fuel than any log has entries, from logs of operations that end with an entry: the first
-- pass counts the operations that began after the last checkpoint, and the second, from the truncated
-- logs that the first leaves, collects exactly those, in the order of the logs, an execution and a
-- commit for each. It fills the array, which has two places for each operation counted, exactly.
pub alloc_replay_array-collect_replay_entries :
    (fuel last : ℕ) (ds : List NvlogStore) (ess : List Slots)
    → OpLogs fuel ds ess
    → (ds1 : List NvlogStore) × (ds2 : List NvlogStore) × (ops_cnt : ℕ) × (replay_array : List
        ReplayEntry)
      × (alloc_replay_array fuel last ds 0 ≡ scanned (ds1, ops_cnt))
      × (collect_replay_entries fuel last ds1 [] ≡ scanned (ds2, replay_array))
      × (replay_array ≡ replay_of (all_valid last ds ess))
      × (length replay_array ≡ 2 * ops_cnt)
unfolding Collected
alloc_replay_array-collect_replay_entries fuel last ds ess h =
    let c = alloc-Counted fuel last 0 ds ess h in
    let r = collect-Collected fuel last [] c.0 c.1 c.3 in
    let same = ap (λ x. replay_of x) c.4 in
    (
      c.0,
      r.0,
      0 + length (all_valid last ds ess),
      replay_of (all_valid last ds ess),
      c.2,
      r.1 ∙ ap (λ x. scanned (r.0, x)) same,
      refl,
      omega (arith, length-replay_of (all_valid last ds ess)),
    )
