-- ===== src/Ckptlog/Passed.antt =====
-- What the second loop of a reclamation has done to the entries that it passes.
use timestone.Base.{
  ℕ, zero, suc, ◌+◌, ◌%◌, ◌^◌, ◌<◌, ◌≡◌, refl, sym, ap, ◌∙◌, true, false, Option, none, some, [],
  ◌∷◌, ◌++◌, arith, length,
}
use mathlib.Core.List.{append_assoc, append-nil}
use mathlib.Core.Path.{subst}
use native.Mathlib.Nat.{mod-lt}
use timestone.Nvlog.{Entry, is_bogus, nvlog_used, nvlog_peek_head, nvlog_deq}
use timestone.Nvlog.Layout.{entries}
use timestone.Nvlog.Append.{Holds}
use timestone.Nvlog.Deq.{Holds-advance, advance, deq-one}
use timestone.Memory.{Memory, Obj, get_act_vhdr}
use timestone.Ckptlog.{Log, write_back, Visit, stop, pass, visit_entry, writeback_entries}
use timestone.Ckptlog.Slots.{Slots, span, AllBogus, Found, at_end, at_entry, peek-Found}
use timestone.Ckptlog.Writeback.{Masters, header_kept}
use timestone.Ckptlog.Kept.{
  NotCurrent, Away, Headed, Kept, Kept-refl, Kept-trans, write_back_fewer, write_back-Kept, stopped,
  skipped, wrote, visit-Visited,
}

-- The result of the loop from the log `l` of the slots `es`: it has passed the slots `passed`.
pub record Passed (base : ℕ) (m : Memory) (l : Log) (es : Slots) (r : Option (Log × Memory))
    : Type 0 where
  pub passed : Slots
  pub left : Slots
  pub log : Log
  pub memory : Memory
  pub result : r ≡ some (log, memory)
  pub slots : es ≡ passed ++ left
  pub head : log ≡ advance l (span passed)
  pub holds : Holds log left
  pub kept : Kept m memory
  pub away : Away memory base l.log_size l.head_cnt passed

span-append : (xs ys : Slots) → span (xs ++ ys) ≡ span xs + span ys
span-append [] ys = omega arith
span-append (x ∷ xs) ys = omega (arith, span-append xs ys)

NotCurrent-Kept : (m m' : Memory) (a : ℕ) → Kept m m' → NotCurrent m a → NotCurrent m' a
NotCurrent-Kept m m' a kept not_current =
    λ w at. ap (λ f. (f a).tombstone) kept.stays ∙ not_current w (kept.fewer w a at)

Away-append :
    (m : Memory) (base n cnt : ℕ) (xs ys : Slots)
    → Away m base n cnt xs
    → Away m base n (cnt + span xs) ys
    → Away m base n cnt (xs ++ ys)
Away-append m base n cnt [] ys h k =
    rw (ap (λ (c : ℕ). Away m base n c ys) {x = cnt} {y = cnt + 0} (omega arith)) k
Away-append m base n cnt (x ∷ xs) ys h k = (
  h.0,
  Away-append m base n (cnt + x.size) xs ys h.1 (
      rw
        (ap (λ (c : ℕ). Away m base n c ys) {x = cnt + x.size + span xs}
          {y = cnt + (x.size + span xs)} (omega arith))
        k),
)

Away-bogus : (m : Memory) (base n cnt : ℕ) (xs : Slots) → AllBogus xs → Away m base n cnt xs
Away-bogus m base n cnt [] h = tt
Away-bogus m base n cnt (x ∷ xs) h =
    ((λ real. let filler = h.0 in cc), Away-bogus m base n (cnt + x.size) xs h.1)

Headed-Kept-lem : (m : Memory) (v e base n : ℕ) → Headed m base n → Headed (write_back m v e) base n
unfolding write_back
Headed-Kept-lem m v e base n headed =
    λ i low. ((headed i low).0, header_kept m v e (m.ckpt (base + i)).np_org_act ∙ (headed i low).1)

module _ (m : Memory) (v e : ℕ) (fine : Masters m)
    (header : (m.act (m.ckpt e).np_org_act).p_act_vhdr ≡ some v) where
  -- The object's own header is the only one that can have the entry.
  header_of : (w : ℕ) → (m.vhdr w).np_cur_act ≡ Obj.ckpt e → v ≡ w
  header_of w at = let same : some v ≡ some w = sym header ∙ fine.header w e at in cc

  NotCurrent-skipped :
      ((m.vhdr v).np_cur_act ≡ Obj.ckpt e → (m.ckpt e).tombstone ≡ true) → NotCurrent m e
  NotCurrent-skipped h = λ w at. h (ap (λ x. (m.vhdr x).np_cur_act) (header_of w at) ∙ at)

  NotCurrent-wrote : NotCurrent (write_back m v e) e
  NotCurrent-wrote =
      λ w at. let before = write_back_fewer m v e w e at in absurd (before.0 (header_of w before.1))

Passed-prepend :
    (base : ℕ) (m m1 : Memory) (l : Log) (es xs : Slots) (e : Entry (Unit {0})) (ys : Slots)
    (r : Option (Log × Memory))
    → es ≡ xs ++ (e ∷ ys)
    → AllBogus xs
    → Kept m m1
    → NotCurrent m1 (base + (l.head_cnt + span xs) % l.log_size)
    → Passed base m1 (advance (advance l (span xs)) e.size) ys r
    → Passed base m l es r
Passed-prepend base m m1 l es xs e ys r all bogus kept not_current rest = record {
  passed = xs ++ (e ∷ rest.passed);
  left = rest.left;
  log = rest.log;
  memory = rest.memory;
  result = rest.result;
  slots =
      all ∙ ap (λ k. xs ++ (e ∷ k)) rest.slots ∙ sym (append_assoc xs (e ∷ rest.passed) rest.left);
  head =
      rest.head
      ∙ ap (λ k. record l { head_cnt = k }) {x = l.head_cnt + span xs + e.size + span rest.passed}
          {y = l.head_cnt + span (xs ++ (e ∷ rest.passed))}
          (omega (arith, span-append xs (e ∷ rest.passed)));
  holds = rest.holds;
  kept = Kept-trans m m1 rest.memory kept rest.kept;
  away =
      Away-append rest.memory base l.log_size l.head_cnt xs (e ∷ rest.passed)
        (Away-bogus rest.memory base l.log_size l.head_cnt xs bogus)
        (
          (λ real.
              NotCurrent-Kept m1 rest.memory (base + (l.head_cnt + span xs) % l.log_size) rest.kept
                not_current),
          rest.away,
        );
}

-- The loop stops behind the bogus slots `xs`, which a peek has passed.
Passed-stop :
    (base : ℕ) (m : Memory) (l : Log) (es xs ys : Slots)
    → Masters m
    → es ≡ xs ++ ys
    → AllBogus xs
    → Holds (advance l (span xs)) ys
    → Passed base m l es (some (advance l (span xs), m))
Passed-stop base m l es xs ys fine all bogus holds = record {
  passed = xs;
  left = ys;
  log = advance l (span xs);
  memory = m;
  result = refl;
  slots = all;
  head = refl;
  holds = holds;
  kept = Kept-refl m fine;
  away = Away-bogus m base l.log_size l.head_cnt xs bogus;
}

module _ (watermark limit base : ℕ) where
  -- the rest of a round, behind the peek, behind the header and behind the visit
  abbrev behind_visit : ℕ → Memory → Log → Visit → Option (Log × Memory)
  behind_visit fuel m l x = elim x [
    | stop ↦ some (l, m)
    | pass m' ↦ writeback_entries fuel watermark limit base m' (nvlog_deq l).0
  ]

  abbrev behind_header : ℕ → Memory → Log → ℕ → Option ℕ → Option (Log × Memory)
  behind_header fuel m l i o = elim o [
    | none ↦ none
    | some v ↦ behind_visit fuel m l (visit_entry watermark (nvlog_used l) m v (base + i) limit)
  ]

  abbrev round : ℕ → Memory → Log → Option ℕ → Option (Log × Memory)
  round fuel m l r = elim r [
    | none ↦ some (l, m)
    | some i ↦ behind_header fuel m l i (get_act_vhdr m (Obj.act (m.ckpt (base + i)).np_org_act))
  ]

  Loop : ℕ → Type 0
  Loop fuel =
      (m : Memory) (l : Log) (es : Slots)
      → Masters m
      → Headed m base l.log_size
      → Holds l es
      → l.tail_cnt < 2 ^ 64
      → length (entries es) < fuel
      → Passed base m l es (writeback_entries fuel watermark limit base m l)

  module _ (fuel : ℕ) (again : Loop fuel) (m : Memory) (l : Log) (es xs : Slots)
      (e : Entry (Unit {0})) (ys : Slots) (fine : Masters m) (headed : Headed m base l.log_size)
      (low : l.tail_cnt < 2 ^ 64) (enough : length (entries es) < suc fuel)
      (all : es ≡ xs ++ (e ∷ ys)) (bogus : AllBogus xs) (real : is_bogus e.type ≡ false)
      (holds : Holds (advance l (span xs)) (e ∷ ys)) (same : entries es ≡ e ∷ entries ys) where
    abbrev index : ℕ
    index = (l.head_cnt + span xs) % l.log_size

    header : (v : ℕ) × ((m.act (m.ckpt (base + index)).np_org_act).p_act_vhdr ≡ some v)
    header = headed index (mod-lt (l.head_cnt + span xs) {m = l.log_size} holds.nonempty)

    round_entry : Passed base m l es (round fuel m (advance l (span xs)) (some index))
    unfolding get_act_vhdr Loop
    round_entry =
        let v = header.0 in
        let fewer : length (entries ys) < fuel = omega (arith, enough, ap (λ x. length x) same) in
        let next = Holds-advance (advance l (span xs)) e ys holds in
        let deq = ap (λ x. x.0) (deq-one (advance l (span xs)) e ys low holds real) in
        subst
          (λ (o : Option ℕ).
            Passed base m l es (behind_header fuel m (advance l (span xs)) index o))
          (sym header.1)
          (elim (visit-Visited watermark (nvlog_used (advance l (span xs))) limit m v
            (base + index)) [
              | stopped at ↦ rw at (Passed-stop base m l es xs (e ∷ ys) fine all bogus holds)
              | skipped at not_current ↦
                  rw (at, deq)
                    (Passed-prepend base m m l es xs e ys
                      (writeback_entries fuel watermark limit base m
                        (advance (advance l (span xs)) e.size))
                      all bogus (Kept-refl m fine)
                      (NotCurrent-skipped m v (base + index) fine header.1 not_current)
                      (again m (advance (advance l (span xs)) e.size) ys fine headed next low
                        fewer))
              | wrote at current ↦
                  let kept = write_back-Kept m v (base + index) fine current in
                  rw (at, deq)
                    (Passed-prepend base m (write_back m v (base + index)) l es xs e ys
                      (writeback_entries fuel watermark limit base (write_back m v (base + index))
                        (advance (advance l (span xs)) e.size))
                      all bogus kept (NotCurrent-wrote m v (base + index) fine header.1)
                      (again (write_back m v (base + index)) (advance (advance l (span xs)) e.size)
                        ys kept.fine (Headed-Kept-lem m v (base + index) base l.log_size headed)
                        next low fewer))
            ])

  round-Passed :
      (fuel : ℕ) (m : Memory) (l l' : Log) (es : Slots) (r : Option ℕ)
      → Loop fuel
      → Masters m
      → Headed m base l.log_size
      → l.tail_cnt < 2 ^ 64
      → length (entries es) < suc fuel
      → Found l es l' r
      → Passed base m l es (round fuel m l' r)
  round-Passed fuel m l l' es r again fine headed low enough (at_end e bogus here holds) =
      rw (e, here)
        (Passed-stop base m l es es [] fine (sym (append-nil es)) bogus (rw here at holds))
  round-Passed fuel m l l' es r again fine headed low enough
        (at_entry xs e ys at all bogus real here holds same) =
      rw (at, here)
        (round_entry fuel again m l es xs e ys fine headed low enough all bogus real
          (rw here at holds) same)

  turns-Passed : (fuel : ℕ) → Loop fuel
  unfolding Loop writeback_entries
  turns-Passed zero m l es fine headed h low enough = absurd (omega (arith, enough))
  turns-Passed (suc fuel) m l es fine headed h low enough =
      round-Passed fuel m l (nvlog_peek_head l).0 es (nvlog_peek_head l).1 (turns-Passed fuel) fine
        headed low enough (peek-Found l es h low)

-- The second loop of a reclamation, from a log of which every entry's object has a volatile header, with
-- more fuel than entries: it ends, and it passes the first slots of the log. Every object's current
-- master keeps its bytes, and none of the entries that are passed is an object's current master any
-- more, tombstones apart, so that their space can be used again.
pub writeback_entries-Passed :
    (watermark limit base fuel : ℕ) (m : Memory) (l : Log) (es : Slots)
    → Masters m
    → Headed m base l.log_size
    → Holds l es
    → l.tail_cnt < 2 ^ 64
    → length (entries es) < fuel
    → Passed base m l es (writeback_entries fuel watermark limit base m l)
unfolding Loop
writeback_entries-Passed watermark limit base fuel m l es fine headed h low enough =
    turns-Passed watermark limit base fuel m l es fine headed h low enough
