-- ===== src/Ckptlog/Free.antt =====
-- ckptlog_cleanup: what is freed, and what stays in the set.
use timestone.Base.{
  ℕ, zero, suc, ◌+◌, ◌≤◌, ◌<◌, ◌≡◌, inl, inr, refl, sym, ap, ◌∙◌, true, false, Option, none, some,
  List, [], ◌∷◌, ◌++◌, length, set, get_elem?-drop, drop_next, take, drop, if◌then◌else◌, arith,
  Bool-cases,
}
use mathlib.Core.List.{append_assoc, append-nil}
use timestone.Clock.{lt_clock}
use timestone.PtrSet.{PtrSet}
use timestone.PtrSet.Push.{IsValid, contents, length-set, take-set}
use timestone.Memory.{Memory}
use timestone.Ckptlog.{Cleanup, cleanup_one, cleanup_from, ckptlog_cleanup}

-- the headers of a list that were marked before `until`, and the others, in order
abbrev pub marked : Memory → ℕ → List ℕ → List ℕ
marked m until_clk [] = []
marked m until_clk (v ∷ vs) =
    if lt_clock (m.vhdr v).tombstone_clk until_clk
    then v ∷ marked m until_clk vs
    else marked m until_clk vs

abbrev pub unmarked : Memory → ℕ → List ℕ → List ℕ
unmarked m until_clk [] = []
unmarked m until_clk (v ∷ vs) =
    if lt_clock (m.vhdr v).tombstone_clk until_clk
    then unmarked m until_clk vs
    else v ∷ unmarked m until_clk vs

drop-set : (n i v : ℕ) (xs : List ℕ) → i < n → drop n (set xs i v) ≡ drop n xs
drop-set zero i v xs h = absurd (omega (arith, h))
drop-set (suc n) i v [] h = refl
drop-set (suc n) zero v (x ∷ xs) h = refl
drop-set (suc n) (suc i) v (x ∷ xs) h = drop-set n i v xs (omega (arith, h))

length_of_drop : (n : ℕ) (xs : List ℕ) {y : ℕ} {ys : List ℕ} → drop n xs ≡ y ∷ ys → n < length xs
length_of_drop zero [] h = cc
length_of_drop zero (x ∷ xs) h = omega arith
length_of_drop (suc n) [] h = cc
length_of_drop (suc n) (x ∷ xs) h = omega (arith, length_of_drop n xs h)

-- What the loop has done: the front of the array has the headers `ks` that stay, and `fs` are freed.
record Cleaned (s : Cleanup) (ks fs : List ℕ) (total : ℕ) : Type 0 where
  front : take s.first s.cells ≡ ks
  fits : s.first ≤ total
  size : length s.cells ≡ total
  out : s.freed ≡ fs

module _ (m : Memory) (until_clk : ℕ) where
  one-kept :
      (s : Cleanup) (v : ℕ)
      → lt_clock (m.vhdr v).tombstone_clk until_clk ≡ false
      → cleanup_one m until_clk s v
        ≡ record s { cells = set s.cells s.first v; first = s.first + 1 }
  one-kept s v e = rw e

  one-freed :
      (s : Cleanup) (v : ℕ)
      → lt_clock (m.vhdr v).tombstone_clk until_clk ≡ true
      → cleanup_one m until_clk s v ≡ record s { freed = s.freed ++ (v ∷ []) }
  one-freed s v e = rw e

  cleanup_from-Cleaned :
      (n i : ℕ) (s : Cleanup) (rest ks fs : List ℕ) (total : ℕ)
      → Cleaned s ks fs total
      → s.first ≤ i
      → drop i s.cells ≡ rest
      → n ≤ length rest
      → Cleaned
          (cleanup_from n m until_clk i s)
          (ks ++ unmarked m until_clk (take n rest))
          (fs ++ marked m until_clk (take n rest))
          total
  unfolding cleanup_from
  cleanup_from-Cleaned zero i s rest ks fs total h low at enough = record {
    front = h.front ∙ sym (append-nil ks);
    fits = h.fits;
    size = h.size;
    out = h.out ∙ sym (append-nil fs);
  }
  cleanup_from-Cleaned (suc n) i s [] ks fs total h low at enough = absurd (omega (arith, enough))
  cleanup_from-Cleaned (suc n) i s (v ∷ vs) ks fs total h low at enough =
      let here = get_elem?-drop i s.cells at in
      let inside = length_of_drop i s.cells at in
      elim (Bool-cases (lt_clock (m.vhdr v).tombstone_clk until_clk)) [
        | inl old ↦
            rw
              (
                here,
                one-freed s v old,
                old,
                cleanup_from,
                ← append_assoc fs (v ∷ []) (marked m until_clk (take n vs)),
              )
              (cleanup_from-Cleaned n (i + 1) (record s { freed = s.freed ++ (v ∷ []) }) vs ks
                (fs ++ (v ∷ [])) total
                (record {
                  front = h.front;
                  fits = h.fits;
                  size = h.size;
                  out = ap (λ l. l ++ (v ∷ [])) h.out;
                })
                (omega (arith, low)) (drop_next i s.cells at) (omega (arith, enough)))
        | inr young ↦
            rw
              (
                here,
                one-kept s v young,
                young,
                cleanup_from,
                ← append_assoc ks (v ∷ []) (unmarked m until_clk (take n vs)),
              )
              (cleanup_from-Cleaned n (i + 1)
                (record s { cells = set s.cells s.first v; first = s.first + 1 }) vs
                (ks ++ (v ∷ [])) fs total
                (record {
                  front =
                      ap (λ (k : ℕ). take k (set s.cells s.first v)) {y = suc s.first} (omega arith)
                      ∙ take-set s.first v s.cells (omega (arith, low, inside))
                      ∙ ap (λ l. l ++ (v ∷ [])) h.front;
                  fits = omega (arith, low, inside, h.size);
                  size = length-set s.cells s.first v ∙ h.size;
                  out = h.out;
                })
                (omega (arith, low))
                (drop-set (i + 1) s.first v s.cells (omega (arith, low)) ∙ drop_next i s.cells at)
                (omega (arith, enough)))
      ]

take_nil : (n : ℕ) → take {A = ℕ} n [] ≡ []
take_nil zero = refl
take_nil (suc n) = refl

abbrev set_of : ℕ → ℕ → Option (List ℕ) → PtrSet
set_of num max p = record { num_ptrs = num; num_max_ptrs = max; ptrs = p }

abbrev Right : Memory → ℕ → PtrSet → Type 0
Right m until_clk free_set =
    ((ckptlog_cleanup m free_set until_clk).1 ≡ marked m until_clk (contents free_set))
    × (contents (ckptlog_cleanup m free_set until_clk).0 ≡ unmarked m until_clk (contents free_set))
    × IsValid (ckptlog_cleanup m free_set until_clk).0

cleanup-Right :
    (m : Memory) (until_clk num max : ℕ) (p : Option (List ℕ))
    → IsValid (set_of num max p)
    → Right m until_clk (set_of num max p)
unfolding ckptlog_cleanup
cleanup-Right m until_clk num max none h = rw (take_nil num) (refl, refl, h)
cleanup-Right m until_clk num max (some cells) h =
    let all =
      cleanup_from-Cleaned m until_clk num 0 (record { cells = cells; first = 0; freed = [] }) cells
        [] [] (length cells) (record { front = refl; fits = omega arith; size = refl; out = refl })
        (omega arith) refl (omega (arith, h.fits, h.size)) in
    (
      all.out,
      all.front,
      record { fits = omega (arith, all.fits, h.size); size = all.size ∙ h.size },
    )

-- The cleanup of a valid set of headers whose objects are to be freed: it frees, with their original
-- masters, exactly those that were marked before the clock, each of them once, and keeps exactly the
-- others, in their order; the set stays valid.
pub ckptlog_cleanup-contents :
    (m : Memory) (free_set : PtrSet) (until_clk : ℕ)
    → IsValid free_set
    → ((ckptlog_cleanup m free_set until_clk).1 ≡ marked m until_clk (contents free_set))
      × (contents (ckptlog_cleanup m free_set until_clk).0
          ≡ unmarked m until_clk (contents free_set))
      × IsValid (ckptlog_cleanup m free_set until_clk).0
ckptlog_cleanup-contents m free_set until_clk h =
    cleanup-Right m until_clk free_set.num_ptrs free_set.num_max_ptrs free_set.ptrs h
