-- ===== src/Recovery/Counts.antt =====
-- What the loop that counts operations ends with: the count, and the head that is to stay.
use timestone.Base.{
  ℕ, zero, suc, ◌+◌, ◌^◌, ◌≤◌, ◌<◌, ◌≡◌, ◌⊎◌, inl, inr, refl, sym, ap, ◌∙◌, true, false, [], ◌∷◌,
  length, ◌==◌, if◌then◌else◌, arith, Bool-cases,
}
use mathlib.Core.Path.{subst}
use timestone.Nvlog.{Entry, is_bogus}
use timestone.Nvlog.Layout.{entries}
use timestone.Nvlog.Append.{Holds}
use timestone.Nvlog.Deq.{Holds-advance, advance, entries-one}
use timestone.Oplog.{Op, Oplog}
use timestone.Recovery.{Scan, scanned, is_op_entry_valid, count_ops}
use timestone.Recovery.Rounds.{
  Slots, LastReal, LastReal-rest, valid, at_end, at_entry, round_of, count_valid, count_invalid,
  after, deq_after,
}

abbrev pub with_head : Oplog → ℕ → Oplog
with_head l head = record l { head_cnt = head }

-- The log from the new head on has the same valid operations.
pub record Truncated (last : ℕ) (l : Oplog) (es : Slots) (head head' : ℕ) : Type 0 where
  pub moved :
      (valid last (entries es) ≡ []) × (head' ≡ head)
      ⊎ ((ks : Slots) × Holds (with_head l head') ks
          × LastReal ks
          × (valid last (entries ks) ≡ valid last (entries es))
          × (length (entries ks) ≤ length (entries es)))

-- The result of the first loop: the number of valid operations is added to `ops`; the head moves only
-- where there was none before.
pub record Counts (last : ℕ) (l : Oplog) (es : Slots) (head ops : ℕ) (r : Scan (Oplog × ℕ × ℕ))
    : Type 0 where
  pub log : Oplog
  pub head' : ℕ
  pub result : r ≡ scanned (log, head', ops + length (valid last (entries es)))
  pub store : log.nvlog_store ≡ l.nvlog_store
  pub first : ops ≡ 0 → Truncated last l es head head'
  pub later : 0 < ops → head' ≡ head

count_end :
    (fuel last : ℕ) (l : Oplog) (head ops : ℕ)
    → (l.head_cnt == l.tail_cnt) ≡ true
    → count_ops (suc fuel) last l head ops ≡ scanned (l, head, ops)
unfolding count_ops
count_end fuel last l head ops e = rw (e, count_ops) refl

Truncated-entry :
    (last : ℕ) (l : Oplog) (es es' : Slots) (head head' n : ℕ) (e : Entry Op)
    → head' ≡ l.head_cnt + n
    → Holds (advance l n) (e ∷ es')
    → LastReal (e ∷ es')
    → is_bogus e.type ≡ false
    → entries es ≡ e ∷ entries es'
    → Truncated last l es head head'
Truncated-entry last l es es' head head' n e at h real b same = record {
  moved = inr (
    e ∷ es',
    subst (λ k. Holds (with_head l k) (e ∷ es')) (sym at) h,
    real,
    ap (λ x. valid last x) (entries-one e es' b ∙ sym same),
    omega (arith, ap (λ x. length x) (entries-one e es' b ∙ sym same)),
  );
}

Truncated-next :
    (last : ℕ) (l : Oplog) (es es' : Slots) (head head' n : ℕ) (e : Entry Op)
    → valid last (entries es) ≡ valid last (entries es')
    → length (entries es') ≤ length (entries es)
    → Truncated last (after l n e) es' head head'
    → Truncated last l es head head'
Truncated-next last l es es' head head' n e same fewer t = record { moved = go t.moved }
  where
    go :
        ((valid last (entries es') ≡ []) × (head' ≡ head)
          ⊎ ((ks : Slots) × Holds (with_head l head') ks
              × LastReal ks
              × (valid last (entries ks) ≡ valid last (entries es'))
              × (length (entries ks) ≤ length (entries es'))))
        → ((valid last (entries es) ≡ []) × (head' ≡ head)
            ⊎ ((ks : Slots) × Holds (with_head l head') ks
                × LastReal ks
                × (valid last (entries ks) ≡ valid last (entries es))
                × (length (entries ks) ≤ length (entries es))))
    go (inl h) = inl (same ∙ h.0, h.1)
    go (inr h) = inr (h.0, h.1, h.2, h.3 ∙ sym same, omega (arith, h.4, fewer))

valid-one :
    (last : ℕ) (es es' : Slots) (e : Entry Op)
    → entries es ≡ e ∷ entries es'
    → is_op_entry_valid e last ≡ true
    → valid last (entries es) ≡ e ∷ valid last (entries es')
valid-one last es es' e same v = rw (same, v) refl

valid-other :
    (last : ℕ) (es es' : Slots) (e : Entry Op)
    → entries es ≡ e ∷ entries es'
    → is_op_entry_valid e last ≡ false
    → valid last (entries es) ≡ valid last (entries es')
valid-other last es es' e same v = rw (same, v) refl

pub count_ops-Counts :
    (fuel last : ℕ) (l : Oplog) (es : Slots) (head ops : ℕ)
    → Holds l es
    → LastReal es
    → l.tail_cnt < 2 ^ 64
    → length (entries es) < fuel
    → Counts last l es head ops (count_ops fuel last l head ops)
count_ops-Counts zero last l es head ops h real low enough = absurd (omega (arith, enough))
count_ops-Counts (suc fuel) last l es head ops h real low enough = elim (round_of l es h real low) [
  | at_end e nil ↦ record {
    log = l;
    head' = head;
    result =
        count_end fuel last l head ops e
        ∙ ap (λ (k : ℕ). scanned (l, head, k)) {y = ops + length (valid last (entries es))}
            (omega (arith, ap (λ x. length (valid last x)) nil));
    store = refl;
    first = λ z. record { moved = inl (ap (λ x. valid last x) nil, refl) };
    later = λ p. refl;
  }
  | at_entry n i e es' more peek held rest b last_real same ↦
      let deq = deq_after l n e es' low rest b in
      let fewer : length (entries es') < fuel = omega (arith, enough, ap (λ x. length x) same) in
      let again = λ (k o : ℕ).
        count_ops-Counts fuel last (after l n e) es' k o (Holds-advance (advance l n) e es' rest)
          (LastReal-rest e es' last_real) low fewer in
      elim (Bool-cases (is_op_entry_valid e last)) [
        | inl v ↦
            let next = if ops == 0 then l.head_cnt + n else head in
            let got = again next (ops + 1) in
            let kept : got.head' ≡ next = got.later (omega arith) in
            record {
              log = got.log;
              head' = got.head';
              result =
                  count_valid fuel last l n i e more peek held head ops v
                  ∙ ap (λ k. count_ops fuel last k next (ops + 1)) deq
                  ∙ got.result
                  ∙ ap (λ (k : ℕ). scanned (got.log, got.head', k))
                      {y = ops + length (valid last (entries es))}
                      (omega (arith, ap (λ x. length x) (valid-one last es es' e same v)));
              store = got.store;
              first = λ z.
                  Truncated-entry last l es es' head got.head' n e (kept ∙ ground (arith, z)) rest
                    last_real b same;
              later = λ p. kept ∙ ground (arith, p);
            }
        | inr v ↦
            let got = again head ops in
            let less = valid-other last es es' e same v in
            record {
              log = got.log;
              head' = got.head';
              result =
                  count_invalid fuel last l n i e more peek held head ops v
                  ∙ ap (λ k. count_ops fuel last k head ops) deq
                  ∙ got.result
                  ∙ ap (λ x. scanned (got.log, got.head', ops + length x)) (sym less);
              store = got.store;
              first = λ z.
                  Truncated-next last l es es' head got.head' n e less
                    (omega (arith, ap (λ x. length x) same)) (got.first z);
              later = got.later;
            }
      ]
]
