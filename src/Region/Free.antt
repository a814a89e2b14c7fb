-- ===== src/Region/Free.antt =====
-- What freeing a slot does: the bit that it turns off is the slot's in the first word only.
use native.Mathlib.Nat.{mul-div_cancel}
use timestone.Base.{ℕ, ◌+◌, ◌-◌, ◌*◌, ◌/◌, ◌%◌, ◌≤◌, ◌<◌, ◌≡◌, ◌≢◌, false, ◌==◌, arith}
use timestone.Region.{Region, shifted_bit, port_free_tvlog_mem}
use timestone.Region.Alloc.{taken, set_bit_self, set_bit_other}

abbrev pub slot_addr : Region → ℕ → ℕ
slot_addr r pos = r.start_addr + pos * r.size

pos_of : (start pos size : ℕ) → 0 < size → (start + pos * size - start) / size ≡ pos
pos_of start pos size some_size =
    let e : start + pos * size - start ≡ pos * size = omega arith in
    rw e (mul-div_cancel pos {n = size} some_size)

-- Freeing the address of a slot below 64 makes that slot free again and leaves every other one as it was.
pub port_free_tvlog_mem-first_word :
    (r : Region) (pos : ℕ)
    → 0 < r.size
    → pos < 64
    → (taken (port_free_tvlog_mem r (slot_addr r pos)) pos ≡ false)
      × ((q : ℕ) → q ≢ pos → taken (port_free_tvlog_mem r (slot_addr r pos)) q ≡ taken r q)
unfolding port_free_tvlog_mem
port_free_tvlog_mem-first_word r pos some_size first =
    let at = pos_of r.start_addr pos r.size some_size in
    let word : shifted_bit pos (pos / 64) ≡ pos % 64 = ground (arith, first) in
    rw (at, word)
      (
        set_bit_self r.bitmap (pos / 64) (pos % 64) false,
        λ q differ. set_bit_other r.bitmap pos q false differ,
      )

-- Freeing the address of a slot of one of the next 63 words leaves that slot as it was.
pub port_free_tvlog_mem-later_word :
    (r : Region) (pos : ℕ)
    → 0 < r.size
    → 64 ≤ pos
    → pos < 4096
    → taken (port_free_tvlog_mem r (slot_addr r pos)) pos ≡ taken r pos
unfolding port_free_tvlog_mem
port_free_tvlog_mem-later_word r pos some_size later bound =
    let at = pos_of r.start_addr pos r.size some_size in
    let bit : shifted_bit pos (pos / 64) == pos % 64 ≡ false = ground (arith, later, bound) in
    rw (at, bit) (ground arith)
