-- ===== src/Zombies/Bury.antt =====
-- What the pass over the zombies does with one thread: it stays, or it leaves the list and is freed.
use timestone.Base.{
  ℕ, ◌≡◌, ◌≢◌, ◌⊎◌, inl, inr, refl, sym, ap, ◌∙◌, true, false, Option, none, some, [], ◌∷◌, ◌++◌,
  ◌&&◌, arith, Bool-cases, Option-cases,
}
use mathlib.Core.Path.{subst}
use timestone.Threads.{World, thread_list_del_unsafe}
use timestone.Zombies.{
  State, is_dead, logs_empty, destroy_logs, ts_thread_free, bury, set_remains, dead_zombie,
}

-- The world with one zombie less.
abbrev pub without : World → ℕ → World
without w self =
    let (ts, tl) = thread_list_del_unsafe w.threads w.zombies self in
    record w { threads = ts; zombies = tl }

-- What a destruction of the logs leaves alone.
pub record Emptied (s : State) (self : ℕ) (s' : State) : Type 0 where
  pub world : s'.world ≡ s.world
  pub freed : s'.freed ≡ s.freed
  pub status : (s'.remains self).live_status ≡ (s.remains self).live_status
  pub empty : logs_empty (s'.remains self) ≡ logs_empty (s.remains self)
  pub others : (q : ℕ) → q ≢ self → s'.remains q ≡ s.remains q

pub destroy_logs-Emptied :
    (fuel : ℕ) (s : State) (self : ℕ) {s' : State}
    → destroy_logs fuel s self ≡ some s'
    → Emptied s self s'
unfolding destroy_logs
destroy_logs-Emptied fuel s self {s'} e = record {
  world = ground arith;
  freed = ground arith;
  status = ground arith;
  empty = ground arith;
  others = λ q ne. ground (arith, ne);
}

-- The thread is still a zombie, and has a log that is not empty or has not been given up.
pub record Stays (s : State) (self : ℕ) (s' : State) : Type 0 where
  pub world : s'.world ≡ s.world
  pub freed : s'.freed ≡ s.freed
  pub in_use : (is_dead ((s'.remains self).live_status) && logs_empty (s'.remains self)) ≡ false
  pub others : (q : ℕ) → q ≢ self → s'.remains q ≡ s.remains q

-- The thread is no zombie any more, and is freed.
pub record Leaves (s : State) (self : ℕ) (s' : State) : Type 0 where
  pub world : s'.world ≡ without s.world self
  pub freed : s'.freed ≡ s.freed ++ self ∷ []
  pub given_up : is_dead ((s.remains self).live_status) ≡ true
  pub others : (q : ℕ) → q ≢ self → s'.remains q ≡ s.remains q

-- A thread whose logs are empty is freed, and is in the lists what it was.
pub ts_thread_free-Emptied :
    (fuel : ℕ) (s : State) (self : ℕ) {s1 : State}
    → logs_empty (s.remains self) ≡ true
    → destroy_logs fuel
        (set_remains s self (record (s.remains self) { live_status = dead_zombie }))
        self
      ≡ some s1
    → (ts_thread_free fuel s self ≡ some (record s1 { freed = s.freed ++ self ∷ [] }))
      × (s1.world ≡ s.world)
      × ((q : ℕ) → q ≢ self → s1.remains q ≡ s.remains q)
unfolding ts_thread_free
ts_thread_free-Emptied fuel s self {s1} empty e =
    let d =
      destroy_logs-Emptied fuel
        (set_remains s self (record (s.remains self) { live_status = dead_zombie })) self e in
    (rw (empty, e, d.freed) refl, d.world, λ q ne. d.others q ne ∙ ground (arith, ne))

-- The thread that `bury` hands on, and the one that it frees.
abbrev pub buried : State → ℕ → State
buried s1 self = record s1 { world = without s1.world self }

abbrev pub marked : State → ℕ → State
marked s self = set_remains s self (record (s.remains self) { live_status = dead_zombie })

module _ (fuel : ℕ) (s : State) (self : ℕ) {s1 : State} (empty : logs_empty (s.remains self) ≡ true)
    (e : destroy_logs fuel s self ≡ some s1) where
  -- The logs of a thread that has not been given up are destroyed, and it stays.
  pub bury-Stays :
      is_dead ((s.remains self).live_status) ≡ false
      → (bury fuel s self ≡ some s1) × Stays s self s1
  unfolding bury
  bury-Stays alive =
      let d = destroy_logs-Emptied fuel s self e in
      let kept : is_dead ((s1.remains self).live_status) ≡ false = ap is_dead d.status ∙ alive in
      (
        rw (empty, e, kept) refl,
        record { world = d.world; freed = d.freed; in_use = rw kept refl; others = d.others },
      )

  pub bury-Leaves :
      {s2 : State}
      → is_dead ((s.remains self).live_status) ≡ true
      → destroy_logs fuel (marked (buried s1 self) self) self ≡ some s2
      → let s' = record s2 { freed = s.freed ++ self ∷ [] } in
        (bury fuel s self ≡ some s') × Leaves s self s'
  unfolding bury
  bury-Leaves {s2} dead e2 =
      let d = destroy_logs-Emptied fuel s self e in
      let gone : is_dead ((s1.remains self).live_status) ≡ true = ap is_dead d.status ∙ dead in
      let free = ts_thread_free-Emptied fuel (buried s1 self) self (d.empty ∙ empty) e2 in
      (
        rw (empty, e, gone)
            (free.0 ∙ ap (λ f. some (record s2 { freed = f ++ self ∷ [] })) d.freed),
        record {
          world = free.1 ∙ ap (λ w. without w self) d.world;
          freed = refl;
          given_up = dead;
          others = λ q ne. free.2 q ne ∙ d.others q ne;
        },
      )

bury-in_use :
    (fuel : ℕ) (s : State) (self : ℕ)
    → logs_empty (s.remains self) ≡ false
    → bury fuel s self ≡ some s
unfolding bury
bury-in_use fuel s self used = rw used refl

bury-stuck :
    (fuel : ℕ) (s : State) (self : ℕ)
    → logs_empty (s.remains self) ≡ true
    → destroy_logs fuel s self ≡ none
    → bury fuel s self ≡ none
unfolding bury
bury-stuck fuel s self empty e = rw (empty, e) refl

bury-stuck_again :
    (fuel : ℕ) (s : State) (self : ℕ) {s1 : State}
    → logs_empty (s.remains self) ≡ true
    → destroy_logs fuel s self ≡ some s1
    → is_dead ((s.remains self).live_status) ≡ true
    → destroy_logs fuel (marked (buried s1 self) self) self ≡ none
    → bury fuel s self ≡ none
unfolding bury ts_thread_free
bury-stuck_again fuel s self {s1} empty e dead e2 =
    let d = destroy_logs-Emptied fuel s self e in
    let gone : is_dead ((s1.remains self).live_status) ≡ true = ap is_dead d.status ∙ dead in
    let still : logs_empty (s1.remains self) ≡ true = d.empty ∙ empty in
    rw (empty, e, gone, still, e2) refl

none≢some {ℓ} : {A : Type ℓ} {o : Option A} {a : A} → o ≡ none → o ≡ some a → ⊥
none≢some p q = cc (sym p ∙ q)

-- A thread that was buried stays or leaves.
pub bury-cases :
    (fuel : ℕ) (s : State) (self : ℕ) {s' : State}
    → bury fuel s self ≡ some s'
    → Stays s self s' ⊎ Leaves s self s'
bury-cases fuel s self {s'} b = elim (Bool-cases (logs_empty (s.remains self))) [
  | inr used ↦
      let same : s ≡ s' = cc (sym (bury-in_use fuel s self used) ∙ b) in
      inl (
        subst (Stays s self) same (record {
          world = refl;
          freed = refl;
          in_use = ground (arith, used);
          others = λ q ne. refl;
        }))
  | inl empty ↦ elim (Option-cases (destroy_logs fuel s self)) [
    | inl e ↦ absurd (none≢some (bury-stuck fuel s self empty e) b)
    | inr (s1, e) ↦ elim (Bool-cases (is_dead ((s.remains self).live_status))) [
      | inr alive ↦
          let (r, stays) = bury-Stays fuel s self empty e alive in
          let same : s1 ≡ s' = cc (sym r ∙ b) in inl (subst (Stays s self) same stays)
      | inl dead ↦ elim (Option-cases (destroy_logs fuel (marked (buried s1 self) self) self)) [
        | inl e2 ↦ absurd (none≢some (bury-stuck_again fuel s self empty e dead e2) b)
        | inr (s2, e2) ↦
            let (r, leaves) = bury-Leaves fuel s self empty e dead e2 in
            let same : record s2 { freed = s.freed ++ self ∷ [] } ≡ s' = cc (sym r ∙ b) in
            inr (subst (Leaves s self) same leaves)
      ]
    ]
  ]
]
