-- ===== src/Links/Chains.antt =====
-- Pieces of a circular list: nodes that are linked in both directions.
use timestone.Base.{
  ℕ, ◌≡◌, ◌≢◌, refl, ap, Bool, true, false, ◌||◌, inl, inr, List, [], ◌∷◌, ◌++◌, ◌==◌, arith,
  Bool-cases,
}
use timestone.Links.{Links}

abbrev pub has : ℕ → List ℕ → Bool
has a [] = false
has a (x ∷ xs) = (a == x) || has a xs

infix 40 ◌∈◌ ◌∉◌
abbrev pub ◌∈◌ : ℕ → List ℕ → Type 0
a ∈ xs = has a xs ≡ true

abbrev pub ◌∉◌ : ℕ → List ℕ → Type 0
a ∉ xs = has a xs ≡ false

abbrev pub Distinct : List ℕ → Type 0
Distinct [] = Unit {0}
Distinct (x ∷ xs) = (x ∉ xs) × Distinct xs

pub has-append : (a : ℕ) (xs ys : List ℕ) → has a (xs ++ ys) ≡ (has a xs || has a ys)
has-append a [] ys = refl
has-append a (x ∷ xs) ys = ground (arith, has-append a xs ys)

-- `b` comes behind `a`.
pub record Link (s : Links) (a b : ℕ) : Type 0 where
  pub onward : s.next a ≡ b
  pub back : s.prev b ≡ a

-- From `a` the links lead through the nodes `xs` to `b`.
pub data Chain (s : Links) (b : ℕ) : ℕ → List ℕ → Type 0 where
  stop : {a : ℕ} → Link s a b → Chain s b a []
  step : {a x : ℕ} {xs : List ℕ} → Link s a x → Chain s b x xs → Chain s b a (x ∷ xs)

module _ {s : Links} {b : ℕ} where
  -- A chain survives every change that spares the links of its nodes.
  pub Chain-agree :
      (t : Links) {a : ℕ} {xs : List ℕ}
      → Chain s b a xs
      → ((q : ℕ) → q ∈ a ∷ xs → t.next q ≡ s.next q)
      → ((q : ℕ) → q ∈ b ∷ xs → t.prev q ≡ s.prev q)
      → Chain t b a xs
  Chain-agree t (stop {a} l) n p =
      let e = n a (ground arith) in
      let f = p b (ground arith) in
      stop (record { onward = ground (arith, e, l.onward); back = ground (arith, f, l.back) })
  Chain-agree t (step {a} {x} l c) n p =
      let e = n a (ground arith) in
      let f = p x (ground arith) in
      step (record { onward = ground (arith, e, l.onward); back = ground (arith, f, l.back) })
        (Chain-agree t c (λ q h. n q (ground (arith, h))) (λ q h. p q (ground (arith, h))))

  -- A chain through `x` is a chain to `x` and one from there.
  pub Chain-append :
      {x a : ℕ} {xs ys : List ℕ} → Chain s x a xs → Chain s b x ys → Chain s b a (xs ++ x ∷ ys)
  Chain-append (stop l) d = step l d
  Chain-append (step l c) d = step l (Chain-append c d)

  pub Chain-split :
      {a : ℕ} (xs : List ℕ) (x : ℕ) (ys : List ℕ)
      → Chain s b a (xs ++ x ∷ ys)
      → Chain s x a xs × Chain s b x ys
  Chain-split [] x ys (step l c) = (stop l, c)
  Chain-split (y ∷ xs) x ys (step l c) =
      let parts = Chain-split xs x ys c in (step l parts.0, parts.1)

  -- The node in front of the end is the start or one of the chain.
  pub prev-mem : {a : ℕ} {xs : List ℕ} → Chain s b a xs → s.prev b ∈ a ∷ xs
  prev-mem (stop l) = ground (arith, l.back)
  prev-mem (step {a} {x} {xs} l c) = ground (arith, prev-mem c)

  -- The node behind the start is the end or one of the chain.
  pub next-mem : {a : ℕ} {xs : List ℕ} → Chain s b a xs → s.next a ∈ b ∷ xs
  next-mem (stop l) = ground (arith, l.onward)
  next-mem (step l c) = ground (arith, l.onward)

pub Distinct-middle :
    (xs : List ℕ) (x : ℕ) (ys : List ℕ)
    → Distinct (xs ++ x ∷ ys)
    → Distinct (xs ++ ys) × (x ∉ xs ++ ys)
Distinct-middle [] x ys d = (d.1, d.0)
Distinct-middle (y ∷ xs) x ys d =
    let rest = Distinct-middle xs x ys d.1 in
    let e = has-append y xs (x ∷ ys) in
    let f = has-append y xs ys in
    ((ground (arith, e, f, d.0), rest.0), ground (arith, e, d.0, rest.1))

pub Distinct-append :
    (xs ys : List ℕ) → Distinct (xs ++ ys) → Distinct xs × Distinct ys × ((q : ℕ) → q ∈ xs → q ∉ ys)
Distinct-append [] ys d = (tt, d, λ q m. cc)
Distinct-append (x ∷ xs) ys d =
    let rest = Distinct-append xs ys d.1 in
    let e = has-append x xs ys in
    (
      (ground (arith, e, d.0), rest.0),
      rest.1,
      λ q m. elim (Bool-cases (q == x)) [
        | inl here ↦ let same : q ≡ x = ground (arith, here) in rw same (ground (arith, e, d.0))
        | inr there ↦ rest.2 q (ground (arith, m, there))
      ],
    )

pub ne_of_mem : (q p : ℕ) (xs : List ℕ) → q ∈ xs → p ∉ xs → q ≢ p
ne_of_mem q p xs m out = λ e. cc (ap (λ z. has z xs) e)
