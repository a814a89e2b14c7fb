-- ===== src/Nvlog/Create/Created.antt =====
-- _nvlog_store_create, when memory is there and when it is not.
use timestone.Base.{
  ℕ, ◌+◌, ◌%◌, ◌^◌, ◌≤◌, ◌<◌, ◌≡◌, ◌≢◌, refl, sym, List, ◌∷◌, true, false, arith, ◌==◌, ◌⊎◌, inl,
  inr, align_ptr_to_cacheline, align_ptr_to_cacheline_lem, Bool-cases,
}
use mathlib.Core.Path.{subst}
use timestone.Links.Chains.{◌∉◌, ne_of_mem}
use timestone.Nvlog.Create.{
  Heap, ends, deadlock, is_power_of_2, nvlog_store_create, nvlog_store_destroy, clean_up,
  link_store, init_store, unlock,
}
use timestone.Nvlog.Create.Linked.{Linked, and_one, Stores, Linked-same}

-- The store `s` of an empty log that was put in front of the stores `ss`.
pub record Created (r r' : Heap) (ss : List ℕ) (s allocation size type status : ℕ) : Type 0 where
  pub stores : Stores r' (s ∷ ss)
  pub log :
      (r'.node s).log
      ≡ record { head_cnt = 0; tail_cnt = 0; log_size = size; type = type; status = status }
  pub aligned : (r'.node s).buffer % 64 ≡ 0
  pub inside : (allocation ≤ (r'.node s).buffer) × ((r'.node s).buffer < allocation + 64)
  pub others : (q : ℕ) → q ≢ s → r'.node q ≡ r.node q
  pub unlocked : r'.locked ≡ false

-- A creation for a size that is a power of two, while the mutex is free and both allocations succeed with
-- a store that is not in use, ends with the store of an empty log at the front of the list, a
-- buffer at a cache line less than a line behind the allocation, the other stores as they were, and the
-- mutex free.
pub nvlog_store_create-Created :
    (fuel : ℕ) (alloc : ℕ → ℕ) (r : Heap) (ss : List ℕ) (size type status : ℕ)
    → Stores r ss
    → is_power_of_2 size ≡ true
    → r.locked ≡ false
    → alloc r.allocs ≢ 0
    → alloc r.allocs ∉ ss
    → alloc (r.allocs + 1) ≢ 0
    → alloc (r.allocs + 1) + 63 < 2 ^ 64
    → (r' : Heap) × (nvlog_store_create fuel alloc r size type status ≡ ends (r', alloc r.allocs))
      × Created r r' ss (alloc r.allocs) (alloc (r.allocs + 1)) size type status
unfolding nvlog_store_create
nvlog_store_create-Created fuel alloc r ss size type status st power free ne out ne' low =
    let s = alloc r.allocs in
    let allocation = alloc (r.allocs + 1) in
    let r2 = record (link_store (record r { locked = true }) s) { allocs = r.allocs + 1 + 1 } in
    let r' = unlock (init_store r2 s allocation size type status) in
    let behind : (r'.node s).next ≡ r.root_next = ground arith in
    let rest : Linked r'.node r.root_next ss =
      Linked-same r'.node st.linked (λ q m. ground (arith, ne_of_mem q s ss m out)) in
    let at : (r'.node s).buffer ≡ align_ptr_to_cacheline allocation = ground arith in
    let line = align_ptr_to_cacheline_lem allocation low in
    (
      r',
      ground (arith, power, free, ne, ne'),
      record {
        stores = record {
          linked = and_one ne (subst (λ p. Linked r'.node p ss) (sym behind) rest);
          distinct = (out, st.distinct);
        };
        log = ground arith;
        aligned = omega (arith, at, line.0);
        inside = (omega (arith, at, line.1), omega (arith, at, line.2));
        others = λ q far. ground (arith, far);
        unlocked = refl;
      },
    )

-- Where one of the two allocations fails, the mutex is not freed: if it is the store's, the creation
-- returns NULL and leaves the mutex locked, and if it is the buffer's, the thread waits for the mutex
-- that it holds itself.
pub nvlog_store_create_no_memory :
    (fuel : ℕ) (alloc : ℕ → ℕ) (r : Heap) (size type status : ℕ)
    → is_power_of_2 size ≡ true
    → r.locked ≡ false
    → (alloc r.allocs ≡ 0) ⊎ (alloc (r.allocs + 1) ≡ 0)
    → ((alloc r.allocs ≡ 0)
        × (nvlog_store_create fuel alloc r size type status
            ≡ ends (record r { locked = true; allocs = r.allocs + 1 }, 0)))
      ⊎ ((alloc r.allocs ≢ 0) × (nvlog_store_create fuel alloc r size type status ≡ deadlock))
unfolding nvlog_store_create clean_up nvlog_store_destroy
nvlog_store_create_no_memory fuel alloc r size type status power free (inl e) =
    inl (e, ground (arith, power, free, e))
nvlog_store_create_no_memory fuel alloc r size type status power free (inr e) =
    elim (Bool-cases (alloc r.allocs == 0)) [
      | inl here ↦
          let z : alloc r.allocs ≡ 0 = ground (arith, here) in
          inl (z, ground (arith, power, free, z))
      | inr there ↦
          let ne : alloc r.allocs ≢ 0 = ground (arith, there) in
          inr (ne, ground (arith, power, free, ne, e))
    ]

-- A thread that has been left with the mutex never gets it again, whatever it creates or destroys.
pub locked-deadlock :
    (fuel : ℕ) (alloc : ℕ → ℕ) (r : Heap) (size type status s : ℕ)
    → r.locked ≡ true
    → is_power_of_2 size ≡ true
    → s ≢ 0
    → (nvlog_store_create fuel alloc r size type status ≡ deadlock)
      × (nvlog_store_destroy fuel r s ≡ deadlock)
unfolding nvlog_store_create nvlog_store_destroy
locked-deadlock fuel alloc r size type status s held power ne =
    (ground (arith, held, power), ground (arith, held, ne))
