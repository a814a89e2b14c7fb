-- ===== src/Nvlog/Create/Destroyed.antt =====
-- _nvlog_store_destroy takes one store off the list.
use timestone.Base.{
  ℕ, zero, suc, ◌<◌, ◌≡◌, ◌≢◌, refl, sym, ap, ◌∙◌, List, [], ◌∷◌, ◌++◌, length, true, false, arith,
}
use mathlib.Core.Path.{subst}
use timestone.Links.Chains.{◌∉◌, Distinct, ne_of_mem, has-append, Distinct-middle}
use timestone.Nvlog.Create.{
  Node, Heap, ends, unlock, unlink_from, unlink_store, nvlog_store_destroy, set_link, free_store,
}
use timestone.Nvlog.Create.Linked.{
  Linked, none_left, and_one, Stores, Linked-same, Linked-cons, Linked-nil,
}

abbrev without_link : Node → Node
without_link n = record n { next = 0 }

-- The search that stands behind `temp` has taken `s`, in front of `ys`, off the stores `xs ++ s ∷ ys`.
record Unlinked (r r' : Heap) (temp : ℕ) (xs : List ℕ) (s : ℕ) (ys : List ℕ) : Type 0 where
  linked : Linked r'.node (r'.node temp).next (xs ++ ys)
  same : (q : ℕ) → q ∉ temp ∷ xs → r'.node q ≡ r.node q
  contents : (q : ℕ) → without_link (r'.node q) ≡ without_link (r.node q)
  root : r'.root_next ≡ r.root_next
  freed : r'.freed ≡ r.freed ++ (r.node s).allocation ∷ s ∷ []
  locked : r'.locked ≡ r.locked

unlink_from-Unlinked :
    (fuel : ℕ) (r : Heap) (temp : ℕ) (xs : List ℕ) (s : ℕ) (ys : List ℕ) {current : ℕ}
    → Linked r.node current (xs ++ s ∷ ys)
    → (r.node temp).next ≡ current
    → Distinct (temp ∷ xs ++ s ∷ ys)
    → length xs < fuel
    → (r' : Heap) × (unlink_from fuel r s temp current ≡ ends r') × Unlinked r r' temp xs s ys
unfolding unlink_from
unlink_from-Unlinked zero r temp xs s ys l at d enough = absurd (omega arith)
unlink_from-Unlinked (suc fuel) r temp [] s ys (and_one ne l) at d enough =
    let r' = free_store (set_link r temp (r.node s).next) s in
    (
      r',
      ground arith,
      record {
        linked =
            let rest =
              Linked-same r'.node l
                (λ q m. ground (arith, ne_of_mem q temp (s ∷ ys) (ground (arith, m)) d.0)) in
            let e : (r'.node temp).next ≡ (r.node s).next = ground arith in
            subst (λ p. Linked r'.node p ys) (sym e) rest;
        same = λ q out. ground (arith, out);
        contents = λ q. ground arith;
        root = refl;
        freed = ground (arith, d.0);
        locked = refl;
      },
    )
unlink_from-Unlinked (suc fuel) r temp (x ∷ xs) s ys (and_one ne l) at d enough =
    let (r', e, u) = unlink_from-Unlinked fuel r x xs s ys l refl d.1 (omega (arith, enough)) in
    let far : s ≢ x = ground (arith, has-append x xs (s ∷ ys), d.1.0) in
    let here : temp ∉ x ∷ xs = ground (arith, has-append temp (x ∷ xs) (s ∷ ys), d.0) in
    (
      r',
      ground (arith, e, ne, far),
      record {
        linked =
            subst (λ p. Linked r'.node p (x ∷ xs ++ ys))
              (sym (ap (λ n. n.next) (u.same temp here) ∙ at)) (and_one ne u.linked);
        same = λ q out. u.same q (ground (arith, out));
        contents = u.contents;
        root = u.root;
        freed = u.freed;
        locked = u.locked;
      },
    )

-- The search for a store that is not in the list changes nothing.
unlink_from-absent :
    (fuel : ℕ) (r : Heap) (temp s : ℕ) {ss : List ℕ} {current : ℕ}
    → Linked r.node current ss
    → s ≢ 0
    → s ∉ ss
    → length ss < fuel
    → unlink_from fuel r s temp current ≡ ends r
unfolding unlink_from
unlink_from-absent zero r temp s l ne out enough = absurd (omega arith)
unlink_from-absent (suc fuel) r temp s none_left ne out enough = ground arith
unlink_from-absent (suc fuel) r temp s (and_one {s = x} {ss} xne l) ne out enough = ground (
  arith,
  out,
  xne,
  unlink_from-absent fuel r x s l ne (ground (arith, out)) (omega (arith, enough)),
)

-- What a destruction leaves: the list `rest`, and every store as it was but for its link.
pub record Destroyed (r r' : Heap) (rest frees : List ℕ) : Type 0 where
  pub stores : Stores r' rest
  pub contents : (q : ℕ) → without_link (r'.node q) ≡ without_link (r.node q)
  pub freed : r'.freed ≡ r.freed ++ frees
  pub unlocked : r'.locked ≡ false

unlink_store-Destroyed :
    (fuel : ℕ) (r : Heap) (xs : List ℕ) (s : ℕ) (ys : List ℕ)
    → Stores r (xs ++ s ∷ ys)
    → length xs < fuel
    → (r' : Heap) × (unlink_store fuel r s ≡ ends r')
      × Destroyed r (unlock r') (xs ++ ys) ((r.node s).allocation ∷ s ∷ [])
unfolding unlink_store
unlink_store-Destroyed fuel r [] s ys st enough =
    let (at, ne, l) = Linked-cons st.linked in
    (
      free_store (record r { root_next = (r.node s).next }) s,
      ground (arith, at, ne),
      record {
        stores = record { linked = l; distinct = st.distinct.1 };
        contents = λ q. refl;
        freed = refl;
        unlocked = refl;
      },
    )
unlink_store-Destroyed fuel r (x ∷ xs) s ys st enough =
    let (at, ne, l) = Linked-cons st.linked in
    let (r', e, u) =
      unlink_from-Unlinked fuel r x xs s ys l refl st.distinct (omega (arith, enough)) in
    let far : s ≢ x = ground (arith, has-append x xs (s ∷ ys), st.distinct.0) in
    let root : r'.root_next ≡ x = u.root ∙ at in
    let searched : unlink_store fuel r s
        ≡ unlink_from fuel r s r.root_next (r.node r.root_next).next =
      ground (arith, at, ne, far) in
    (
      r',
      searched ∙ ap (λ p. unlink_from fuel r s p (r.node p).next) at ∙ e,
      record {
        stores = record {
          linked = subst (λ p. Linked r'.node p (x ∷ xs ++ ys)) (sym root) (and_one ne u.linked);
          distinct = (Distinct-middle (x ∷ xs) s ys st.distinct).0;
        };
        contents = u.contents;
        freed = u.freed;
        unlocked = refl;
      },
    )

-- A destruction of a store of the list ends, takes it off the list wherever it stands, and frees it and
-- its buffer; the mutex is free again, and the other stores keep their contents.
pub nvlog_store_destroy-Destroyed :
    (fuel : ℕ) (r : Heap) (xs : List ℕ) (s : ℕ) (ys : List ℕ)
    → Stores r (xs ++ s ∷ ys)
    → s ≢ 0
    → r.locked ≡ false
    → length xs < fuel
    → (r' : Heap) × (nvlog_store_destroy fuel r s ≡ ends r')
      × Destroyed r r' (xs ++ ys) ((r.node s).allocation ∷ s ∷ [])
unfolding nvlog_store_destroy
nvlog_store_destroy-Destroyed fuel r xs s ys st ne free enough =
    let (r', e, d) =
      unlink_store-Destroyed fuel (record r { locked = true }) xs s ys
        (record { linked = st.linked; distinct = st.distinct }) enough in
    (
      unlock r',
      ground (arith, ne, free, e),
      record { stores = d.stores; contents = d.contents; freed = d.freed; unlocked = refl },
    )

unlink_store-absent :
    (fuel : ℕ) (r : Heap) (s : ℕ) {ss : List ℕ}
    → Linked r.node r.root_next ss
    → s ≢ 0
    → s ∉ ss
    → length ss < fuel
    → unlink_store fuel r s ≡ ends r
unfolding unlink_store
unlink_store-absent fuel r s {ss = []} l ne out enough = ground (arith, Linked-nil l)
unlink_store-absent fuel r s {ss = x ∷ ss} l ne out enough =
    let (at, xne, rest) = Linked-cons l in
    let searched : unlink_store fuel r s
        ≡ unlink_from fuel r s r.root_next (r.node r.root_next).next =
      ground (arith, at, xne, out) in
    searched
    ∙ ap (λ p. unlink_from fuel r s p (r.node p).next) at
    ∙ unlink_from-absent fuel r x s rest ne (ground (arith, out)) (omega (arith, enough))

-- A store that is not in the list is left alone, and the mutex is free.
pub nvlog_store_destroy-absent :
    (fuel : ℕ) (r : Heap) (s : ℕ) (ss : List ℕ)
    → Stores r ss
    → s ≢ 0
    → s ∉ ss
    → r.locked ≡ false
    → length ss < fuel
    → nvlog_store_destroy fuel r s ≡ ends (unlock r)
unfolding nvlog_store_destroy
nvlog_store_destroy-absent fuel r s ss st ne out free enough = ground (
  arith,
  ne,
  free,
  unlink_store-absent fuel (record r { locked = true }) s st.linked ne out enough,
)
