-- ===== src/Recovery/Rounds.antt =====
-- The two loops over the entries of an operation log: what one round sees, and what is collected.
use timestone.Base.{
  ℕ, zero, suc, ◌+◌, ◌%◌, ◌^◌, ◌<◌, ◌≡◌, inl, inr, refl, sym, ap, ◌∙◌, true, false, some, List, [],
  ◌∷◌, ◌++◌, length, ◌==◌, if◌then◌else◌, arith, Bool-cases,
}
use mathlib.Core.Path.{subst}
use mathlib.Core.List.{append_assoc, append-nil}
use timestone.Nvlog.{Entry, is_bogus, nvlog_peek_head, nvlog_deq}
use timestone.Nvlog.Layout.{entries}
use timestone.Nvlog.Append.{Holds}
use timestone.Nvlog.Deq.{
  Holds-advance, advance, head-ne-tail, behind-filler, deq-one, entries-one, entries-filler,
}
use timestone.Nvlog.Peek.{peek-one, peek_filler_next}
use timestone.Oplog.{Op, Oplog}
use timestone.Recovery.{
  Scan, scanned, is_op_entry_valid, count_ops, ReplayEntry, add_op_replay, collect_ops,
}

abbrev pub Slots : Type 0
Slots = List (Entry Op)

-- The last slot is an entry: no bogus slot stands behind it.
module _ {A : Type 0} where
  abbrev pub LastReal : List (Entry A) → Type 0
  LastReal [] = Unit {0}
  LastReal (e ∷ []) = is_bogus e.type ≡ false
  LastReal (e ∷ f ∷ es) = LastReal (f ∷ es)

  pub LastReal-rest : (e : Entry A) (es : List (Entry A)) → LastReal (e ∷ es) → LastReal es
  LastReal-rest e [] h = tt
  LastReal-rest e (f ∷ es) h = h

-- the operations that began after the last checkpoint
abbrev pub valid : ℕ → Slots → Slots
valid last [] = []
valid last (e ∷ es) = if is_op_entry_valid e last then e ∷ valid last es else valid last es

abbrev pub replay_of : Slots → List ReplayEntry
replay_of [] = []
replay_of (e ∷ es) = add_op_replay e ++ replay_of es

-- A round of a loop: the log is at its end, or the peek shows an entry, which the dequeue takes.
pub data Round (l : Oplog) (es : Slots) : Type 0 where
  at_end : (l.head_cnt == l.tail_cnt) ≡ true → entries es ≡ [] → Round l es
  at_entry :
      (n i : ℕ) (e : Entry Op) (es' : Slots)
      → (l.head_cnt == l.tail_cnt) ≡ false
      → nvlog_peek_head l ≡ (advance l n, some i)
      → l.buffer i ≡ e
      → Holds (advance l n) (e ∷ es')
      → is_bogus e.type ≡ false
      → LastReal (e ∷ es')
      → entries es ≡ e ∷ entries es'
      → Round l es

not_at_end :
    (l : Oplog) (e : Entry Op) (es : Slots) → Holds l (e ∷ es) → (l.head_cnt == l.tail_cnt) ≡ false
not_at_end l e es h = ground (arith, head-ne-tail l e es h, h.chain.1.positive)

no_advance : (l : Oplog) → l ≡ advance l 0
no_advance l = ap (λ k. record l { head_cnt = k }) {y = l.head_cnt + 0} (omega arith)

pub round_of :
    (l : Oplog) (es : Slots) → Holds l es → LastReal es → l.tail_cnt < 2 ^ 64 → Round l es
round_of l [] h real low = at_end (ground (arith, h.chain)) refl
round_of l (e ∷ es) h real low = elim (Bool-cases (is_bogus e.type)) [
  | inr b ↦
      at_entry 0 (l.head_cnt % l.log_size) e es (not_at_end l e es h)
        (peek-one l e es h low b ∙ ap (λ k. (k, some (l.head_cnt % l.log_size))) (no_advance l))
        h.chain.0 (subst (λ k. Holds k (e ∷ es)) (no_advance l) h) b real (entries-one e es b)
  | inl b ↦ filler es h real b
]
  where
    filler :
        (fs : Slots)
        → Holds l (e ∷ fs)
        → LastReal (e ∷ fs)
        → is_bogus e.type ≡ true
        → Round l (e ∷ fs)
    filler [] k r b = let bad : true ≡ false = sym b ∙ r in cc
    filler (f ∷ fs) k r b =
        let c = behind-filler l e f fs k b in
        at_entry (e.size) ((l.head_cnt + e.size) % l.log_size) f fs (not_at_end l e (f ∷ fs) k)
          (peek_filler_next l e f fs low k b) (Holds-advance l e (f ∷ fs) k).chain.0
          (Holds-advance l e (f ∷ fs) k) c r (entries-filler e (f ∷ fs) b ∙ entries-one f fs c)

-- one round of each loop, by what the peek shows
collect_end :
    (fuel last : ℕ) (l : Oplog) (a : List ReplayEntry)
    → (l.head_cnt == l.tail_cnt) ≡ true
    → collect_ops (suc fuel) last l a ≡ scanned (l, a)
unfolding collect_ops
collect_end fuel last l a e = rw (e, collect_ops) refl

module _ (fuel last : ℕ) (l : Oplog) (n i : ℕ) (e : Entry Op)
    (more : (l.head_cnt == l.tail_cnt) ≡ false) (peek : nvlog_peek_head l ≡ (advance l n, some i))
    (held : l.buffer i ≡ e) where
  collect_valid :
      (a : List ReplayEntry)
      → is_op_entry_valid e last ≡ true
      → collect_ops (suc fuel) last l a
        ≡ collect_ops fuel last (nvlog_deq (advance l n)).0 (a ++ add_op_replay e)
  unfolding collect_ops
  collect_valid a v = rw (more, collect_ops, ap (λ x. x.1) peek, ap (λ x. x.0) peek, held, v) refl

  collect_invalid :
      (a : List ReplayEntry)
      → is_op_entry_valid e last ≡ false
      → collect_ops (suc fuel) last l a ≡ collect_ops fuel last (nvlog_deq (advance l n)).0 a
  unfolding collect_ops
  collect_invalid a v = rw (more, collect_ops, ap (λ x. x.1) peek, ap (λ x. x.0) peek, held, v) refl

  pub count_valid :
      (head ops : ℕ)
      → is_op_entry_valid e last ≡ true
      → count_ops (suc fuel) last l head ops
        ≡ count_ops fuel last
            (nvlog_deq (advance l n)).0
            (if ops == 0 then l.head_cnt + n else head)
            (ops + 1)
  unfolding count_ops
  count_valid head ops v =
      rw (more, count_ops, ap (λ x. x.1) peek, ap (λ x. x.0) peek, held, v)
        (ap
          (λ x.
            count_ops fuel last (nvlog_deq x.0).0 (if ops == 0 then x.0.head_cnt else head)
              (ops + 1))
          peek)

  pub count_invalid :
      (head ops : ℕ)
      → is_op_entry_valid e last ≡ false
      → count_ops (suc fuel) last l head ops
        ≡ count_ops fuel last (nvlog_deq (advance l n)).0 head ops
  unfolding count_ops
  count_invalid head ops v =
      rw (more, count_ops, ap (λ x. x.1) peek, ap (λ x. x.0) peek, held, v)
        (ap (λ x. count_ops fuel last (nvlog_deq x.0).0 head ops) peek)

-- What the dequeue leaves.
abbrev pub after : Oplog → ℕ → Entry Op → Oplog
after l n e = advance (advance l n) e.size

pub deq_after :
    (l : Oplog) (n : ℕ) (e : Entry Op) (es : Slots)
    → l.tail_cnt < 2 ^ 64
    → Holds (advance l n) (e ∷ es)
    → is_bogus e.type ≡ false
    → (nvlog_deq (advance l n)).0 ≡ after l n e
deq_after l n e es low h b = ap (λ x. x.0) (deq-one (advance l n) e es low h b)

-- The result of the second loop: the replay entries of the valid operations, in the log's order.
abbrev pub Collects : ℕ → Slots → List ReplayEntry → Scan (Oplog × List ReplayEntry) → Type 0
Collects last es a r = (l' : Oplog) × (r ≡ scanned (l', a ++ replay_of (valid last (entries es))))

pub collect_ops-Collects :
    (fuel last : ℕ) (l : Oplog) (es : Slots) (a : List ReplayEntry)
    → Holds l es
    → LastReal es
    → l.tail_cnt < 2 ^ 64
    → length (entries es) < fuel
    → Collects last es a (collect_ops fuel last l a)
collect_ops-Collects zero last l es a h real low enough = absurd (omega (arith, enough))
collect_ops-Collects (suc fuel) last l es a h real low enough = elim (round_of l es h real low) [
  | at_end e nil ↦
      rw nil (l, collect_end fuel last l a e ∙ ap (λ x. scanned (l, x)) (sym (append-nil a)))
  | at_entry n i e es' more peek held rest b last_real same ↦
      let deq = deq_after l n e es' low rest b in
      let fewer : length (entries es') < fuel = omega (arith, enough, ap (λ x. length x) same) in
      let again = λ (x : List ReplayEntry).
        collect_ops-Collects fuel last (after l n e) es' x (Holds-advance (advance l n) e es' rest)
          (LastReal-rest e es' last_real) low fewer in
      elim (Bool-cases (is_op_entry_valid e last)) [
        | inl v ↦
            let got = again (a ++ add_op_replay e) in
            rw (same, v)
              (
                got.0,
                collect_valid fuel last l n i e more peek held a v
                    ∙ ap (λ k. collect_ops fuel last k (a ++ add_op_replay e)) deq
                    ∙ got.1
                    ∙ ap (λ x. scanned (got.0, x))
                        (append_assoc a (add_op_replay e) (replay_of (valid last (entries es')))),
              )
        | inr v ↦
            let got = again a in
            rw (same, v)
              (
                got.0,
                collect_invalid fuel last l n i e more peek held a v
                    ∙ ap (λ k. collect_ops fuel last k a) deq
                    ∙ got.1,
              )
      ]
]
