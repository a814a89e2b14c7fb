-- ===== src/Links.antt =====
-- lib/util.h: the circular list with a head that links threads together (ts_list_t). A node is named
-- by its address.
pub mod Chains
pub mod Unlink
pub mod Rings
use timestone.Base.{ℕ, Bool, ◌&&◌, ◌==◌, if◌then◌else◌, update}

-- The fields of every node.
pub record Links : Type 0 where
  pub next : ℕ → ℕ
  pub prev : ℕ → ℕ

abbrev pub set_next : Links → ℕ → ℕ → Links
set_next s p v = record s { next = update s.next p v }

abbrev pub set_prev : Links → ℕ → ℕ → Links
set_prev s p v = record s { prev = update s.prev p v }

unfoldable pub init_ts_list : Links → ℕ → Links
init_ts_list s list = set_prev (set_next s list list) list list

unfoldable pub ts_list_add : Links → ℕ → ℕ → Links
ts_list_add s new head =
    let s1 = set_prev s (s.next head) new in
    let s2 = set_next s1 new (s1.next head) in let s3 = set_prev s2 new head in set_next s3 head new

unfoldable pub ts_list_del : Links → ℕ → Links
ts_list_del s entry =
    let s1 = set_prev s (s.next entry) (s.prev entry) in set_next s1 (s1.prev entry) (s1.next entry)

unfoldable pub ts_list_empty : Links → ℕ → Bool
ts_list_empty s head = (s.next head == head) && (s.prev head == head)

unfoldable pub ts_list_rotate_left : Links → ℕ → Links
unfolding ts_list_empty ts_list_del ts_list_add
ts_list_rotate_left s head =
    let s1 = ts_list_del s (s.next head) in
    if ts_list_empty s head then s else ts_list_add s1 (s.next head) (s1.prev head)
