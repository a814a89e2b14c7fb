-- ===== src/Nvlog/Create/Linked.antt =====
-- The list of the stores: what a walk along it sees, and what a write to a link changes.
use timestone.Base.{ℕ, ◌≡◌, ◌≢◌, refl, List, [], ◌∷◌, arith}
use timestone.Links.Chains.{◌∈◌, Distinct}
use timestone.Nvlog.Create.{Node, Heap}

-- From the pointer `p` the links lead through the stores `ss` to NULL.
pub data Linked (node : ℕ → Node) : ℕ → List ℕ → Type 0 where
  none_left : Linked node 0 []
  and_one : {s : ℕ} {ss : List ℕ} → s ≢ 0 → Linked node (node s).next ss → Linked node s (s ∷ ss)

-- The stores of the heap, in the order of the list.
pub record Stores (r : Heap) (ss : List ℕ) : Type 0 where
  pub linked : Linked r.node r.root_next ss
  pub distinct : Distinct ss

pub Linked-same :
    {node : ℕ → Node} (node' : ℕ → Node) {p : ℕ} {ss : List ℕ}
    → Linked node p ss
    → ((q : ℕ) → q ∈ ss → (node' q).next ≡ (node q).next)
    → Linked node' p ss
Linked-same node' none_left same = none_left
Linked-same {node} node' (and_one {s} {ss} ne l) same =
    let e : (node' s).next ≡ (node s).next = same s (ground arith) in
    let rest = Linked-same node' l (λ q m. same q (ground (arith, m))) in and_one ne (rw e rest)

pub Linked-cons :
    {node : ℕ → Node} {p s : ℕ} {ss : List ℕ}
    → Linked node p (s ∷ ss)
    → (p ≡ s) × (s ≢ 0) × Linked node (node s).next ss
Linked-cons (and_one ne l) = (refl, ne, l)

pub Linked-nil : {node : ℕ → Node} {p : ℕ} → Linked node p [] → p ≡ 0
Linked-nil none_left = refl
