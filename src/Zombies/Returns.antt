-- ===== src/Zombies/Returns.antt =====
-- With the mutex over the log stores free, the destruction of a thread's logs comes back.
use timestone.Base.{
  ℕ, ◌+◌, ◌<◌, ◌≤◌, ◌≡◌, ◌≢◌, inl, inr, refl, ap, ◌∙◌, true, false, none, some, List, [], ◌∷◌, ◌++◌,
  length, arith, ◌==◌, Bool-cases, update,
}
use mathlib.Core.Path.{subst}
use timestone.Config.{max_version}
use timestone.Ckptlog.{ckptlog_cleanup}
use timestone.Links.Chains.{has, ◌∈◌}
use timestone.Threads.Members.{length-middle}
use timestone.Nvlog.Create.{Heap, ends, unlock, nvlog_store_destroy}
use timestone.Nvlog.Create.Linked.{Stores}
use timestone.Nvlog.Create.Destroyed.{nvlog_store_destroy-Destroyed, nvlog_store_destroy-absent}
use timestone.Zombies.{State, tvlog_destroy, is_dead, logs_empty, nvlog_destroy, destroy_logs, bury}
use timestone.Zombies.Bury.{Stays, Leaves, bury-Stays, bury-Leaves, buried, marked}

-- The stores are linked and the mutex is free, with fuel for a walk along them.
pub record HeapOk (fuel : ℕ) (heap : Heap) : Type 0 where
  pub ss : List ℕ
  pub stores : Stores heap ss
  pub free : heap.locked ≡ false
  pub enough : length ss < fuel

mem-split : (q : ℕ) (xs : List ℕ) → q ∈ xs → (ls : List ℕ) × (rs : List ℕ) × (xs ≡ ls ++ q ∷ rs)
mem-split q [] m = cc
mem-split q (x ∷ xs) m = elim (Bool-cases (q == x)) [
  | inl here ↦ let e : q ≡ x = ground (arith, here) in ([], xs, rw e refl)
  | inr there ↦
      let (ls, rs, e) = mem-split q xs (ground (arith, m, there)) in (x ∷ ls, rs, rw e refl)
]

length-append-le : (ls rs : List ℕ) → length ls ≤ length (ls ++ rs)
length-append-le [] rs = omega arith
length-append-le (a ∷ ls) rs = omega (arith, length-append-le ls rs)

nvlog_destroy-ends :
    (fuel : ℕ) (heap : Heap) (p : ℕ) {heap' : Heap}
    → (p == 0) ≡ false
    → nvlog_store_destroy fuel heap p ≡ ends heap'
    → nvlog_destroy fuel heap p ≡ some heap'
unfolding nvlog_destroy
nvlog_destroy-ends fuel heap p there e = rw (there, e) refl

nvlog_destroy-HeapOk :
    (fuel : ℕ) (heap : Heap) (p : ℕ)
    → HeapOk fuel heap
    → (heap' : Heap) × (nvlog_destroy fuel heap p ≡ some heap') × HeapOk fuel heap'
unfolding nvlog_destroy
nvlog_destroy-HeapOk fuel heap p ok = elim (Bool-cases (p == 0)) [
  | inl null ↦ (heap, rw null refl, ok)
  | inr there ↦
      let ne : p ≢ 0 = ground (arith, there) in
      elim (Bool-cases (has p ok.ss)) [
        | inr out ↦ (
          unlock heap,
          nvlog_destroy-ends fuel heap p there
              (nvlog_store_destroy-absent fuel heap p ok.ss ok.stores ne out ok.free ok.enough),
          record {
            ss = ok.ss;
            stores = record { linked = ok.stores.linked; distinct = ok.stores.distinct };
            free = refl;
            enough = ok.enough;
          },
        )
        | inl m ↦
            let (ls, rs, e) = mem-split p ok.ss m in
            let size : length ok.ss ≡ length (ls ++ rs) + 1 =
              ap (λ (l : List ℕ). length l) e ∙ length-middle ls p rs in
            let (heap', r, d) =
              nvlog_store_destroy-Destroyed fuel heap ls p rs (subst (Stores heap) e ok.stores) ne
                ok.free (omega (arith, size, ok.enough, length-append-le ls rs)) in
            (
              heap',
              nvlog_destroy-ends fuel heap p there r,
              record {
                ss = ls ++ rs;
                stores = d.stores;
                free = d.unlocked;
                enough = omega (arith, size, ok.enough);
              },
            )
      ]
]

pub destroy_logs-HeapOk :
    (fuel : ℕ) (s : State) (self : ℕ)
    → HeapOk fuel s.heap
    → (s' : State) × (destroy_logs fuel s self ≡ some s') × HeapOk fuel s'.heap
unfolding destroy_logs
destroy_logs-HeapOk fuel s self ok =
    let z = s.remains self in
    let (heap1, e1, ok1) = nvlog_destroy-HeapOk fuel s.heap z.ckptlog_store ok in
    let (heap2, e2, ok2) = nvlog_destroy-HeapOk fuel heap1 z.oplog_store ok1 in
    let s' : State = record s {
      heap = heap2;
      region = tvlog_destroy s.region z.buffer;
      freed_headers =
          s.freed_headers ++ (ckptlog_cleanup s.memory z.ckptlog.free_set max_version).1;
      remains = update s.remains self (record z {
        buffer = none;
        ckptlog = record (z.ckptlog) {
          free_set = (ckptlog_cleanup s.memory z.ckptlog.free_set max_version).0;
        };
        ckptlog_store = 0;
        oplog_store = 0;
      });
    } in
    (s', rw (e1, e2, destroy_logs) refl, ok2)

-- A thread with empty logs is kept exactly if it has not been given up.
module _ (fuel : ℕ) (s : State) (self : ℕ) (ok : HeapOk fuel s.heap)
    (empty : logs_empty (s.remains self) ≡ true) where
  pub bury_alive :
      is_dead ((s.remains self).live_status) ≡ false
      → (s' : State) × (bury fuel s self ≡ some s') × HeapOk fuel s'.heap × Stays s self s'
  bury_alive alive =
      let (s1, e, ok1) = destroy_logs-HeapOk fuel s self ok in
      let (r, stays) = bury-Stays fuel s self empty e alive in (s1, r, ok1, stays)

  pub bury_dead :
      is_dead ((s.remains self).live_status) ≡ true
      → (s' : State) × (bury fuel s self ≡ some s') × HeapOk fuel s'.heap × Leaves s self s'
  bury_dead dead =
      let (s1, e, ok1) = destroy_logs-HeapOk fuel s self ok in
      let (s2, e2, ok2) = destroy_logs-HeapOk fuel (marked (buried s1 self) self) self ok1 in
      let (r, leaves) = bury-Leaves fuel s self empty e dead e2 in
      (record s2 { freed = s.freed ++ self ∷ [] }, r, ok2, leaves)
