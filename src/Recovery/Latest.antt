-- ===== src/Recovery/Latest.antt =====
-- The recovery of all checkpoint logs: every object comes back with its newest checkpoint.
use timestone.Base.{
  ℕ, ◌^◌, ◌≤◌, ◌<◌, ◌≡◌, ◌≢◌, inl, inr, refl, sym, true, false, Option, none, some, List, [], ◌∷◌,
  ◌++◌, length, if◌then◌else◌, Bool-cases,
}
use mathlib.Core.Path.{subst}
use timestone.Nvlog.{nvlog_load, nvlog_truncate_tail}
use timestone.Nvlog.Layout.{entries}
use timestone.Nvlog.Append.{Holds}
use timestone.Ckptlog.{Log}
use timestone.Ckptlog.Slots.{Slots}
use timestone.Links.Chains.{◌∈◌}
use timestone.Recovery.{
  NvlogStore, Rebuilt, scanned, is_log, is_stale, type_ckptlog, recover_entries, ckptlog_recovery,
}
use timestone.Recovery.Rounds.{LastReal}
use timestone.Recovery.Newest.{Entries, note, notes, HeaderOf, Leads, Recovered}
use timestone.Recovery.Chosen.{Newest, no_entry, newest_entry, lookup_notes-Newest}
use timestone.Recovery.Scanned.{recovered, recover_entries-Scans}

-- The log at `d`, where it is a checkpoint log in use, has the slots `es`, fewer than the fuel.
abbrev pub CkptLog : ℕ → NvlogStore → Slots → Type 0
CkptLog fuel d es =
    Holds (nvlog_load d.store d.ckpts) es
    × LastReal es
    × (d.store.tail_cnt < 2 ^ 64)
    × (length (entries es) < fuel)

abbrev pub CkptLogs : ℕ → List NvlogStore → List Slots → Type 0
CkptLogs fuel [] [] = Unit {0}
CkptLogs fuel [] (es ∷ ess) = ⊥
CkptLogs fuel (d ∷ ds) [] = ⊥
CkptLogs fuel (d ∷ ds) (es ∷ ess) =
    (is_log type_ckptlog d.store ≡ true → CkptLog fuel d es) × CkptLogs fuel ds ess

-- The entries of all the checkpoint logs in use that a recovery comes to.
abbrev pub all_recovered : Entries → ℕ → List NvlogStore → List Slots → List ℕ
all_recovered ckpt last [] ess = []
all_recovered ckpt last (d ∷ ds) [] = []
all_recovered ckpt last (d ∷ ds) (es ∷ ess) =
    if is_log type_ckptlog d.store
    then recovered ckpt last d.base d.store.log_size d.store.head_cnt es
      ++ all_recovered ckpt last ds ess
    else all_recovered ckpt last ds ess

notes-append :
    (ckpt : Entries) (best : ℕ → Option ℕ) (xs ys : List ℕ)
    → notes ckpt best (xs ++ ys) ≡ notes ckpt (notes ckpt best xs) ys
notes-append ckpt best [] ys = refl
notes-append ckpt best (x ∷ xs) ys = notes-append ckpt (note ckpt best x) xs ys

-- one log of the loop over the logs
module _ (fuel : ℕ) (fresh : ℕ → Option ℕ) (gen_id last : ℕ) (r r1 r' : Rebuilt) (d : NvlogStore)
    (ds ds' : List NvlogStore) where
  recovery_other :
      is_log type_ckptlog d.store ≡ false
      → ckptlog_recovery fuel fresh gen_id last r ds ≡ scanned (r', ds')
      → ckptlog_recovery fuel fresh gen_id last r (d ∷ ds) ≡ scanned (r', d ∷ ds')
  unfolding ckptlog_recovery
  recovery_other other rest = rw (other, ckptlog_recovery, rest) refl

  recovery_log :
      {l : Log}
      → is_log type_ckptlog d.store ≡ true
      → recover_entries fuel fresh gen_id last d.base r (nvlog_load d.store d.ckpts)
        ≡ scanned (r1, l)
      → ckptlog_recovery fuel fresh gen_id last r1 ds ≡ scanned (r', ds')
      → ckptlog_recovery fuel fresh gen_id last r (d ∷ ds)
        ≡ scanned (r', record d { store = (nvlog_truncate_tail l l.head_cnt).nvlog_store } ∷ ds')
  unfolding ckptlog_recovery
  recovery_log mine got rest = rw (mine, ckptlog_recovery, got, rest) refl

notes_all :
    (ckpt : Entries) (last : ℕ) (d : NvlogStore) (ds : List NvlogStore) (es : Slots)
    (ess : List Slots) (best : ℕ → Option ℕ)
    → is_log type_ckptlog d.store ≡ true
    → notes ckpt
        (notes ckpt best (recovered ckpt last d.base d.store.log_size d.store.head_cnt es))
        (all_recovered ckpt last ds ess)
      ≡ notes ckpt best (all_recovered ckpt last (d ∷ ds) (es ∷ ess))
notes_all ckpt last d ds es ess best mine = rw mine (
    sym (
      notes-append ckpt best (recovered ckpt last d.base d.store.log_size d.store.head_cnt es)
        (all_recovered ckpt last ds ess)))

module _ (fuel : ℕ) (fresh : ℕ → Option ℕ) (alloc : ℕ → ℕ) (gen_id last : ℕ)
    (gives : (k : ℕ) → fresh k ≡ some (alloc k)) (apart : (i j : ℕ) → alloc i ≡ alloc j → i ≡ j)
    (ckpt : Entries) where
  ckptlog_recovery-Recovered :
      (ds : List NvlogStore) (ess : List Slots) (r : Rebuilt) (best : ℕ → Option ℕ)
      → CkptLogs fuel ds ess
      → Recovered alloc gen_id ckpt r best
      → (r' : Rebuilt) × (ds' : List NvlogStore) × (ckptlog_recovery fuel fresh gen_id last r ds
          ≡ scanned (r', ds'))
        × Recovered alloc gen_id ckpt r' (notes ckpt best (all_recovered ckpt last ds ess))
  unfolding ckptlog_recovery nvlog_load
  ckptlog_recovery-Recovered [] [] r best logs inv = (r, [], refl, inv)
  ckptlog_recovery-Recovered [] (es ∷ ess) r best logs inv = absurd logs
  ckptlog_recovery-Recovered (d ∷ ds) [] r best logs inv = absurd logs
  ckptlog_recovery-Recovered (d ∷ ds) (es ∷ ess) r best logs inv =
      elim (Bool-cases (is_log type_ckptlog d.store)) [
        | inr other ↦
            let (r', ds', rest, inv') = ckptlog_recovery-Recovered ds ess r best logs.1 inv in
            (
              r',
              d ∷ ds',
              recovery_other fuel fresh gen_id last r r r' d ds ds' other rest,
              rw other inv',
            )
        | inl mine ↦
            let log = logs.0 mine in
            let (r1, l, got, inv1) =
              recover_entries-Scans fresh alloc gen_id last d.base gives apart ckpt fuel
                (nvlog_load d.store d.ckpts) es r best inv log.0 log.1 log.2 log.3 in
            let first = recovered ckpt last d.base d.store.log_size d.store.head_cnt es in
            let (r', ds', rest, inv') =
              ckptlog_recovery-Recovered ds ess r1 (notes ckpt best first) logs.1 inv1 in
            (
              r',
              record d { store = (nvlog_truncate_tail l l.head_cnt).nvlog_store } ∷ ds',
              recovery_log fuel fresh gen_id last r r1 r' d ds ds' mine got rest,
              subst (Recovered alloc gen_id ckpt r') (notes_all ckpt last d ds es ess best mine)
                  inv',
            )
      ]

-- What a recovery from the entries `es` has made of object `a`.
pub data Restored (alloc : ℕ → ℕ) (gen_id : ℕ) (ckpt : Entries) (es : List ℕ) (r : Rebuilt) (a : ℕ)
    : Type 0 where
  untouched :
      ((e : ℕ) → e ∈ es → (ckpt e).np_org_act ≢ a)
      → is_stale (r.memory.act a) gen_id ≡ true
      → Restored alloc gen_id ckpt es r a
  restored :
      (d : ℕ)
      → d ∈ es
      → (ckpt d).np_org_act ≡ a
      → ((e : ℕ) → e ∈ es → (ckpt e).np_org_act ≡ a → (ckpt e).wrt_clk ≤ (ckpt d).wrt_clk)
      → HeaderOf alloc gen_id r a d
      → Restored alloc gen_id ckpt es r a

Newest-Restored :
    {alloc : ℕ → ℕ} {gen_id : ℕ} {ckpt : Entries} {es : List ℕ} {r : Rebuilt} {a : ℕ} {c : Option ℕ}
    → Newest ckpt es a c
    → Leads alloc gen_id r a c
    → Restored alloc gen_id ckpt es r a
Newest-Restored (no_entry h) stale = untouched h stale
Newest-Restored (newest_entry {d} m own max) header = restored d m own max header

-- After a crash, with an allocator that always gives a header not in use, and logs that each have
-- fewer entries than the fuel and end with an entry: the recovery of the checkpoint logs ends, and for
-- every object it leaves a volatile header of this generation whose current master is the object's
-- newest entry among those that the last checkpoint covers, in all the logs; an object without such
-- an entry has no header of this generation.
pub ckptlog_recovery-Restored :
    (fuel : ℕ) (fresh : ℕ → Option ℕ) (alloc : ℕ → ℕ) (gen_id last : ℕ) (r : Rebuilt)
    (ds : List NvlogStore) (ess : List Slots)
    → ((k : ℕ) → fresh k ≡ some (alloc k))
    → ((i j : ℕ) → alloc i ≡ alloc j → i ≡ j)
    → ((a : ℕ) → is_stale (r.memory.act a) gen_id ≡ true)
    → CkptLogs fuel ds ess
    → (r' : Rebuilt) × (ds' : List NvlogStore) × (ckptlog_recovery fuel fresh gen_id last r ds
        ≡ scanned (r', ds'))
      × ((a : ℕ)
          → Restored alloc gen_id r.memory.ckpt (all_recovered r.memory.ckpt last ds ess) r' a)
ckptlog_recovery-Restored fuel fresh alloc gen_id last r ds ess gives apart stale logs =
    let ckpt = r.memory.ckpt in
    let (r', ds', got, inv) =
      ckptlog_recovery-Recovered fuel fresh alloc gen_id last gives apart ckpt ds ess r (λ b. none)
        logs (record { entries = refl; leads = stale }) in
    (
      r',
      ds',
      got,
      λ a.
          Newest-Restored (lookup_notes-Newest ckpt (all_recovered ckpt last ds ess) a)
            (inv.leads a),
    )
