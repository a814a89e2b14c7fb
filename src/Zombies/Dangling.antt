-- ===== src/Zombies/Dangling.antt =====
-- A zombie whose logs the detecting thread has emptied before its ts_thread_free.
use timestone.Base.{ℕ, ◌≡◌, sym, true, some, List, [], ◌∷◌, ◌++◌, arith}
use mathlib.Core.Path.{subst}
use timestone.Links.Chains.{◌∈◌, has-append}
use timestone.Threads.Moves.{Lists}
use timestone.Zombies.{State, logs_empty, ts_thread_free}
use timestone.Zombies.Bury.{marked, ts_thread_free-Emptied}
use timestone.Zombies.Returns.{HeapOk, destroy_logs-HeapOk}

-- When the user frees a thread that is still a zombie, but whose logs are empty by then, the thread is
-- freed at once and the list of zombies still leads to it.
pub ts_thread_free_linked :
    (fuel : ℕ) (s : State) (self : ℕ) (xs zs : List ℕ)
    → Lists s.world xs zs
    → self ∈ zs
    → logs_empty (s.remains self) ≡ true
    → HeapOk fuel s.heap
    → (s' : State) × (ts_thread_free fuel s self ≡ some s')
      × (self ∈ s'.freed)
      × Lists s'.world xs zs
ts_thread_free_linked fuel s self xs zs l m empty ok =
    let (s1, e, ok1) = destroy_logs-HeapOk fuel (marked s self) self ok in
    let free = ts_thread_free-Emptied fuel s self empty e in
    (
      record s1 { freed = s.freed ++ self ∷ [] },
      free.0,
      ground (arith, has-append self s.freed (self ∷ [])),
      subst (λ w. Lists w xs zs) (sym free.1) l,
    )
