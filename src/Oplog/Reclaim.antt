-- ===== src/Oplog/Reclaim.antt =====
-- What a reclamation keeps of the operation log.
use timestone.Base.{
  ℕ, zero, suc, ◌^◌, ◌<◌, ◌≡◌, ◌⊎◌, inl, inr, refl, ap, ◌||◌, Option, none, some, List, [], ◌∷◌,
  ◌==◌, if◌then◌else◌, arith, Bool-cases, length,
}
use timestone.Clock.{lt_clock}
use timestone.Nvlog.{Entry, nvlog_deq, nvlog_deq_persist, nvlog_peek_head}
use timestone.Nvlog.Layout.{entries}
use timestone.Nvlog.Append.{Holds}
use timestone.Nvlog.Deq.{deq-one, Holds-advance, advance, entries-one}
use timestone.Nvlog.Peek.{Peeked, empty, front, nvlog_peek_head-Peeked}
use timestone.Oplog.{Op, Oplog, Force, is_force, reclaim_ops, oplog_reclaim, set_lock, end_reclaim}

-- the entries that a reclamation leaves: those from the first that is not older than the checkpoint
abbrev pub kept : ℕ → Force → List (Entry Op) → List (Entry Op)
kept last_ckpt f [] = []
kept last_ckpt f (e ∷ es) =
    if lt_clock e.wrt_clk last_ckpt || is_force f then kept last_ckpt f es else e ∷ es

-- What the loop returns: a log of the entries `ks`, with the tail `t`.
abbrev Reclaimed : ℕ → List (Entry Op) → Option Oplog → Type 0
Reclaimed t ks none = ⊥
Reclaimed t ks (some l) = (es : List (Entry Op)) × Holds l es × (entries es ≡ ks) × (l.tail_cnt ≡ t)

-- the rest of a round, behind the peek
abbrev round : ℕ → Oplog → Option ℕ → ℕ → Force → Option Oplog
round fuel l' r last_ckpt f = elim r [
  | none ↦ some l'
  | some i ↦
      let rest = reclaim_ops fuel (nvlog_deq l').0 last_ckpt f in
      if lt_clock (l'.buffer i).wrt_clk last_ckpt || is_force f then rest else some l'
]

Rest : ℕ → ℕ → Force → Type 0
Rest fuel last_ckpt f =
    (l : Oplog) (es : List (Entry Op))
    → Holds l es
    → l.tail_cnt < 2 ^ 64
    → length (entries es) < fuel
    → Reclaimed l.tail_cnt (kept last_ckpt f (entries es)) (reclaim_ops fuel l last_ckpt f)

round-Reclaimed :
    (fuel last_ckpt : ℕ) (f : Force) (l l' : Oplog) (es : List (Entry Op)) {r : Option ℕ}
    → l.tail_cnt < 2 ^ 64
    → length (entries es) < suc fuel
    → Rest fuel last_ckpt f
    → Peeked l es l' r
    → Reclaimed l.tail_cnt (kept last_ckpt f (entries es)) (round fuel l' r last_ckpt f)
unfolding Rest
round-Reclaimed fuel last_ckpt f l l' es low enough again (empty e hold nil tail) =
    rw (e, nil) ([], hold, refl, tail)
round-Reclaimed fuel last_ckpt f l l' es low enough again (front e es' i at hold b same held tail) =
    rw (at, held, same)
      (elim (Bool-cases (lt_clock e.wrt_clk last_ckpt || is_force f)) [
        | inl old ↦
            rw (old, deq-one l' e es' (omega arith) hold b, ← tail)
              (again (advance l' e.size) es' (Holds-advance l' e es' hold) (omega arith)
                (omega (arith, ap (λ x. length x) same)))
        | inr young ↦ rw young (e ∷ es', hold, entries-one e es' b, tail)
      ])

reclaim_ops-Reclaimed : (fuel last_ckpt : ℕ) (f : Force) → Rest fuel last_ckpt f
unfolding reclaim_ops Rest
reclaim_ops-Reclaimed zero last_ckpt f l es h low enough = absurd (omega arith)
reclaim_ops-Reclaimed (suc fuel) last_ckpt f l es h low enough =
    round-Reclaimed fuel last_ckpt f l (nvlog_peek_head l).0 es low enough
      (reclaim_ops-Reclaimed fuel last_ckpt f) (nvlog_peek_head-Peeked l es h low)

persist-Holds :
    (l : Oplog) (es : List (Entry Op)) (n : ℕ)
    → Holds l es
    → Holds (set_lock (if l.head_cnt == n then l else nvlog_deq_persist l) 0) es
unfolding nvlog_deq_persist
persist-Holds l es n h = elim (Bool-cases (l.head_cnt == n)) [
  | inl p ↦ rw p (record { nonempty = h.nonempty; small = h.small; chain = h.chain })
  | inr p ↦ rw p (elim (Bool-cases (l.nvlog_store.head_cnt == l.head_cnt)) [
    | inl q ↦ rw q (record { nonempty = h.nonempty; small = h.small; chain = h.chain })
    | inr q ↦ rw q (record { nonempty = h.nonempty; small = h.small; chain = h.chain })
  ])
]

-- The end of a reclamation, behind the loop.
unlock-kept :
    (l : Oplog) (ks : List (Entry Op)) (r : Option Oplog)
    → Reclaimed l.tail_cnt ks r
    → (l' : Oplog) × (es' : List (Entry Op)) × (end_reclaim l.head_cnt r ≡ some (l', 1))
      × Holds l' es'
      × (entries es' ≡ ks)
      × (l'.reclaim_lock ≡ 0)
      × (l'.tail_cnt ≡ l.tail_cnt)
      × ((l'.head_cnt ≡ l.head_cnt) ⊎ (l'.nvlog_store.head_cnt ≡ l'.head_cnt))
unfolding nvlog_deq_persist
unlock-kept l ks none h = absurd h
unlock-kept l ks (some m) (es, hold, same, tail) =
    (_, es, refl, persist-Holds m es l.head_cnt hold, same, refl, ground arith, ground arith)

oplog_reclaim_free :
    (fuel : ℕ) (l : Oplog) (last_ckpt : ℕ) (f : Force)
    → l.reclaim_lock ≡ 0
    → oplog_reclaim fuel l last_ckpt f
      ≡ end_reclaim l.head_cnt (reclaim_ops fuel (set_lock l 1) last_ckpt f)
unfolding oplog_reclaim
oplog_reclaim_free fuel l last_ckpt f free = ground arith

-- With more fuel than entries `oplog_reclaim` returns. Where the lock is free it leaves it free,
-- leaves exactly the entries from the first one on that is not older than the last checkpoint (none,
-- where it is forced), keeps the tail, and the durable head is the head whenever entries went.
pub oplog_reclaim-kept :
    (fuel : ℕ) (l : Oplog) (es : List (Entry Op)) (last_ckpt : ℕ) (f : Force)
    → Holds l es
    → l.tail_cnt < 2 ^ 64
    → length (entries es) < fuel
    → l.reclaim_lock ≡ 0
    → (l' : Oplog) × (es' : List (Entry Op)) × (oplog_reclaim fuel l last_ckpt f ≡ some (l', 1))
      × Holds l' es'
      × (entries es' ≡ kept last_ckpt f (entries es))
      × (l'.reclaim_lock ≡ 0)
      × (l'.tail_cnt ≡ l.tail_cnt)
      × ((l'.head_cnt ≡ l.head_cnt) ⊎ (l'.nvlog_store.head_cnt ≡ l'.head_cnt))
unfolding Rest
oplog_reclaim-kept fuel l es last_ckpt f h low enough free =
    rw (oplog_reclaim_free fuel l last_ckpt f free) (
      unlock-kept l (kept last_ckpt f (entries es)) (reclaim_ops fuel (set_lock l 1) last_ckpt f) (
        reclaim_ops-Reclaimed fuel last_ckpt f (set_lock l 1) es
          (record { nonempty = h.nonempty; small = h.small; chain = h.chain }) low enough))
