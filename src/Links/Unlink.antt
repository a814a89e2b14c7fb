-- ===== src/Links/Unlink.antt =====
-- What the writes of an insertion and a removal do to the chains around them.
use timestone.Base.{ℕ, ◌≡◌, List, [], ◌∷◌, ◌++◌, ◌==◌, if◌then◌else◌, arith}
use mathlib.Core.List.{append-nil}
use timestone.Links.{Links, set_next, set_prev, ts_list_del}
use timestone.Links.Chains.{
  ◌∉◌, Distinct, has-append, Chain, stop, step, Chain-agree, Chain-append, Chain-split, prev-mem,
  Distinct-middle, Distinct-append, ne_of_mem,
}

-- `p` and `n` become neighbours.
abbrev pub splice : Links → ℕ → ℕ → Links
splice s p n = set_next (set_prev s n p) p n

module _ {s : Links} {x : ℕ} (n : ℕ) where
  -- The end of a chain is replaced: its last node goes on to `n`.
  pub Chain-splice :
      {a : ℕ} {xs : List ℕ}
      → Chain s x a xs
      → Distinct (a ∷ xs)
      → n ∉ xs
      → Chain (splice s (s.prev x) n) n a xs
  Chain-splice (stop {a} l) d out =
      let e = l.back in stop (record { onward = ground (arith, e); back = ground (arith, e) })
  Chain-splice (step {a} {x = y} l c) d out =
      let last = prev-mem c in
      step
        (record {
          onward = ground (arith, l.onward, last, d.0);
          back = ground (arith, l.back, out);
        })
        (Chain-splice c d.1 (ground (arith, out)))

-- The neighbours of `x` are linked to one another.
Chain-unlink :
    {s : Links} {h x : ℕ} {xs ys : List ℕ}
    → Chain s x h xs
    → Chain s h x ys
    → Distinct (h ∷ xs ++ ys)
    → x ∉ h ∷ xs ++ ys
    → Chain (splice s (s.prev x) (s.next x)) h h (xs ++ ys)
Chain-unlink {s} {h} {x} {xs} front (stop l) d out =
    let e : xs ++ [] ≡ xs = append-nil xs in
    let d' : Distinct (h ∷ xs) = rw e at d in rw (e, l.onward) (Chain-splice h front d' d'.0)
Chain-unlink {s} {h} {x} {xs} front (step {x = z} {xs = r} l c) d out =
    let parts = Distinct-append (h ∷ xs) (z ∷ r) d in
    let mid = Distinct-middle xs z r d.1 in
    let e = has-append z xs r in
    let last = parts.2 (s.prev x) (prev-mem front) in
    let head = parts.2 h (ground arith) in
    rw l.onward (
      Chain-append (Chain-splice z front parts.0 (ground (arith, e, mid.1))) (
        Chain-agree (splice s (s.prev x) z) c
          (λ q m. ground (arith, ne_of_mem q (s.prev x) (z ∷ r) m last))
          (λ q m. ground (arith, parts.1.0, head, m))))

-- A removal makes the neighbours of the node neighbours of one another.
pub Chain-ts_list_del :
    {s : Links} {h : ℕ} (xs : List ℕ) (x : ℕ) (ys : List ℕ)
    → Chain s h h (xs ++ x ∷ ys)
    → Distinct (h ∷ xs ++ x ∷ ys)
    → Chain (ts_list_del s x) h h (xs ++ ys)
unfolding ts_list_del
Chain-ts_list_del {s} {h} xs x ys c d =
    let parts = Chain-split xs x ys c in
    let e : (if s.next x == x then s.prev x else s.prev x) ≡ s.prev x = ground arith in
    let mid = Distinct-middle (h ∷ xs) x ys d in rw e (Chain-unlink parts.0 parts.1 mid.0 mid.1)
