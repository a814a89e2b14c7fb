-- ===== src/Links/Rings.antt =====
-- The operations on a circular list, as operations on the list of its nodes.
use timestone.Base.{
  ℕ, ◌≡◌, ◌≢◌, ◌↔◌, refl, sym, true, false, inl, inr, Bool-cases, List, [], ◌∷◌, ◌++◌, arith,
}
use timestone.Links.{
  Links, init_ts_list, ts_list_add, ts_list_del, ts_list_empty, ts_list_rotate_left,
}
use timestone.Links.Unlink.{Chain-splice, Chain-ts_list_del}
use timestone.Links.Chains.{
  ◌∈◌, ◌∉◌, Distinct, has-append, Chain, stop, step, Chain-agree, ne_of_mem, Distinct-middle,
  prev-mem, Chain-append, has-append,
}

-- The list with head `h` has the nodes `xs`, in order.
pub record IsRing (s : Links) (h : ℕ) (xs : List ℕ) : Type 0 where
  pub chain : Chain s h h xs
  pub distinct : Distinct (h ∷ xs)

Chain-ts_list_add :
    {s : Links} {h : ℕ} {xs : List ℕ} (new : ℕ)
    → Chain s h h xs
    → Distinct (h ∷ xs)
    → new ∉ h ∷ xs
    → Chain (ts_list_add s new h) h h (new ∷ xs)
unfolding ts_list_add
Chain-ts_list_add {s} {h} new (stop l) d out =
    step
      (record {
        onward = ground (arith, l.onward, l.back, out);
        back = ground (arith, l.onward, l.back, out);
      })
      (stop (record {
        onward = ground (arith, l.onward, l.back, out);
        back = ground (arith, l.onward, l.back, out);
      }))
Chain-ts_list_add {s} {h} new (step {x} {xs = r} l c) d out =
    step (record { onward = ground (arith, l.onward, out); back = ground (arith, l.onward, out) })
      (step
        (record { onward = ground (arith, l.onward, out); back = ground (arith, l.onward, out) })
        (Chain-agree (ts_list_add s new h) c
          (λ q m.
            ground
              (arith, ne_of_mem q h (x ∷ r) m d.0, ne_of_mem q new (x ∷ r) m (ground (arith, out))))
          (λ q m. ground (
            arith,
            ne_of_mem q new (h ∷ r) m (ground (arith, out)),
            ne_of_mem q x (h ∷ r) m (ground (arith, d)),
          ))))

pub ts_list_add-IsRing :
    {s : Links} {h : ℕ} {xs : List ℕ} (new : ℕ)
    → IsRing s h xs
    → new ∉ h ∷ xs
    → IsRing (ts_list_add s new h) h (new ∷ xs)
unfolding ts_list_add
ts_list_add-IsRing {s} {h} {xs} new r out = record {
  chain = Chain-ts_list_add new r.chain r.distinct out;
  distinct = (ground (arith, r.distinct, out), (ground (arith, out), r.distinct.1));
}

pub ts_list_del-IsRing :
    {s : Links} {h : ℕ} (xs : List ℕ) (x : ℕ) (ys : List ℕ)
    → IsRing s h (xs ++ x ∷ ys)
    → IsRing (ts_list_del s x) h (xs ++ ys)
ts_list_del-IsRing {s} {h} xs x ys r = record {
  chain = Chain-ts_list_del xs x ys r.chain r.distinct;
  distinct = (Distinct-middle (h ∷ xs) x ys r.distinct).0;
}

pub init_ts_list-IsRing : (s : Links) (h : ℕ) → IsRing (init_ts_list s h) h []
unfolding init_ts_list
init_ts_list-IsRing s h = record {
  chain = stop (record { onward = ground arith; back = ground arith });
  distinct = (refl, tt);
}

ts_list_empty-Chain :
    {s : Links} {h : ℕ} {xs : List ℕ}
    → Chain s h h xs
    → Distinct (h ∷ xs)
    → (ts_list_empty s h ≡ true) ↔ (xs ≡ [])
unfolding ts_list_empty
ts_list_empty-Chain (stop l) d = (λ e. refl, λ e. ground (arith, l.onward, l.back))
ts_list_empty-Chain (step l c) d = (λ e. absurd (ground (arith, l.onward, d.0, e)), λ e. cc)

-- A list is empty exactly when its head is linked to itself.
pub ts_list_empty_lem :
    {s : Links} {h : ℕ} {xs : List ℕ} → IsRing s h xs → (ts_list_empty s h ≡ true) ↔ (xs ≡ [])
ts_list_empty_lem r = ts_list_empty-Chain r.chain r.distinct

next-prev : {s : Links} {b a : ℕ} {xs : List ℕ} → Chain s b a xs → s.next (s.prev b) ≡ b
next-prev (stop l) = rw l.back l.onward
next-prev (step l c) = next-prev c

-- An insertion behind the last node.
Chain-add_last :
    {s : Links} {h : ℕ} {xs : List ℕ} (new : ℕ)
    → Chain s h h xs
    → Distinct (h ∷ xs)
    → new ∉ h ∷ xs
    → Chain (ts_list_add s new (s.prev h)) h h (xs ++ new ∷ [])
unfolding ts_list_add
Chain-add_last {s} {h} {xs} new c d out =
    let p : ℕ = s.prev h in
    let e : s.next p ≡ h = next-prev c in
    let far : new ≢ p = λ same. ne_of_mem p new (h ∷ xs) (prev-mem c) out (sym same) in
    let t = ts_list_add s new p in
    Chain-append
      (Chain-agree t (Chain-splice new c d (ground (arith, out)))
        (λ q m. ground (arith, e, far, ne_of_mem q new (h ∷ xs) m out))
        (λ q m. ground (arith, ne_of_mem q h (new ∷ xs) m (ground (arith, out, d.0)))))
      (stop (record { onward = ground (arith, e, far); back = ground (arith, e, out) }))

Distinct-snoc : (ys : List ℕ) (x : ℕ) → Distinct ys → x ∉ ys → Distinct (ys ++ x ∷ [])
Distinct-snoc [] x d out = (refl, tt)
Distinct-snoc (y ∷ ys) x d out = (
  ground (arith, has-append y ys (x ∷ []), d.0, out),
  Distinct-snoc ys x d.1 (ground (arith, out)),
)

next-first : {s : Links} {b a x : ℕ} {xs : List ℕ} → Chain s b a (x ∷ xs) → s.next a ≡ x
next-first (step l c) = l.onward

-- A rotation puts the first node last.
pub ts_list_rotate_left-IsRing :
    {s : Links} {h x : ℕ} {xs : List ℕ}
    → IsRing s h (x ∷ xs)
    → IsRing (ts_list_rotate_left s h) h (xs ++ x ∷ [])
unfolding ts_list_rotate_left
ts_list_rotate_left-IsRing {s} {h} {x} {xs} r =
    let rest = ts_list_del-IsRing [] x xs r in
    let out : x ∉ h ∷ xs = ground (arith, r.distinct) in
    let full : ts_list_empty s h ≡ false = elim (Bool-cases (ts_list_empty s h)) [
      | inl e ↦ absurd (let bad = (ts_list_empty_lem r).0 e in cc)
      | inr e ↦ e
    ] in
    rw (full, next-first r.chain)
      (record {
        chain = Chain-add_last x rest.chain rest.distinct out;
        distinct = Distinct-snoc (h ∷ xs) x rest.distinct out;
      })

-- A list whose head is linked to itself is not changed.
pub ts_list_rotate_left-empty : {s : Links} {h : ℕ} → IsRing s h [] → ts_list_rotate_left s h ≡ s
unfolding ts_list_rotate_left
ts_list_rotate_left-empty {s} {h} r = rw ((ts_list_empty_lem r).1 refl) refl

-- The nodes of another list that shares no node.
module _ {s : Links} {g : ℕ} {ys : List ℕ} (other : IsRing s g ys) where
  pub IsRing-agree :
      (t : Links)
      → ((q : ℕ) → q ∈ g ∷ ys → (t.next q ≡ s.next q) × (t.prev q ≡ s.prev q))
      → IsRing t g ys
  IsRing-agree t same = record {
    chain = Chain-agree t other.chain (λ q m. (same q m).0) (λ q m. (same q m).1);
    distinct = other.distinct;
  }

  pub ts_list_add-apart :
      (new p : ℕ)
      → new ∉ g ∷ ys
      → p ∉ g ∷ ys
      → s.next p ∉ g ∷ ys
      → IsRing (ts_list_add s new p) g ys
  unfolding ts_list_add
  ts_list_add-apart new p a b c = IsRing-agree (ts_list_add s new p) (λ q m. (
    ground (arith, ne_of_mem q new (g ∷ ys) m a, ne_of_mem q p (g ∷ ys) m b),
    ground (arith, ne_of_mem q new (g ∷ ys) m a, ne_of_mem q (s.next p) (g ∷ ys) m c),
  ))

  pub ts_list_del-apart :
      (x : ℕ) → s.prev x ∉ g ∷ ys → s.next x ∉ g ∷ ys → IsRing (ts_list_del s x) g ys
  unfolding ts_list_del
  ts_list_del-apart x b c = IsRing-agree (ts_list_del s x) (λ q m. (
    ground (arith, ne_of_mem q (s.prev x) (g ∷ ys) m b),
    ground (arith, ne_of_mem q (s.next x) (g ∷ ys) m c),
  ))
