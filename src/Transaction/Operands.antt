-- ===== src/Transaction/Operands.antt =====
-- lib/timestone.c: the operation that a transaction records, with its operands, which stand in a buffer of
-- `max_operand_size` bytes in the thread.
use timestone.Base.{
  Bool, true, ltb, ◌<◌, ℕ, zero, suc, ◌+◌, ◌-◌, ◌≤◌, ◌≡◌, refl, sym, ap, ◌∙◌, Option, none, some,
  List, [], ◌∷◌, ◌++◌, arith, add_u32, take, drop, length, length-append, update_self,
}
use mathlib.Core.Path.{subst}
use mathlib.Core.List.{append_assoc, append-nil}
use timestone.Nvlog.{nvlog_enq}
use timestone.Oplog.{Op, Oplog, OpInfo, oplog_enq, op_entry_hdr_size, init_op_entry}
use timestone.Transaction.{Thread}

-- TS_MAX_OPERAND_SIZE
abbrev pub max_operand_size : ℕ
max_operand_size = 256 - op_entry_hdr_size

-- What `oplog_enq` asserts of the operands. The buffer itself may be filled, as the assertion of
-- `ts_alloc_operand` allows.
abbrev pub opd_fits : OpInfo → Bool
opd_fits info = ltb info.curr max_operand_size

unfoldable pub ts_set_op : Thread → ℕ → Thread
ts_set_op self op_type = record self {
  op_info = record (self.op_info) { curr = 0; op_type = op_type };
}

-- The result is the offset of the operand in the buffer.
unfoldable pub ts_alloc_operand : Thread → ℕ → Thread × ℕ
ts_alloc_operand self size = (
  record self { op_info = record (self.op_info) { curr = add_u32 self.op_info.curr size } },
  self.op_info.curr,
)

-- `memcpy` of `bytes` to an offset of a buffer
abbrev pub copy_to : List ℕ → ℕ → List ℕ → List ℕ
copy_to buffer tgt bytes = take tgt buffer ++ (bytes ++ drop (tgt + length bytes) buffer)

unfoldable pub ts_memcpy_operand : Thread → List ℕ → Thread
unfolding ts_alloc_operand
ts_memcpy_operand self opd =
    let (self', tgt) = ts_alloc_operand self (length opd) in
    record self' { op_info = record (self'.op_info) { opd = copy_to self'.op_info.opd tgt opd } }

-- The operands are copied one behind the other.
abbrev pub memcpy_operands : Thread → List (List ℕ) → Thread
memcpy_operands self [] = self
memcpy_operands self (opd ∷ opds) = memcpy_operands (ts_memcpy_operand self opd) opds

abbrev pub concat : List (List ℕ) → List ℕ
concat [] = []
concat (xs ∷ xss) = xs ++ concat xss

take-append : (xs ys : List ℕ) → take (length xs) (xs ++ ys) ≡ xs
take-append [] ys = refl
take-append (x ∷ xs) ys = ap (λ l. x ∷ l) (take-append xs ys)

length-drop : (n : ℕ) (xs : List ℕ) → n ≤ length xs → length (drop n xs) + n ≡ length xs
length-drop zero xs h = omega arith
length-drop (suc n) [] h = omega (arith, h)
length-drop (suc n) (x ∷ xs) h =
    let rest = length-drop n xs (omega (arith, h)) in omega (arith, rest)

-- What has been recorded of an operation: its operands stand at the front of the buffer.
pub record Recorded (self : Thread) (op_type : ℕ) (bytes : List ℕ) : Type 0 where
  pub type : self.op_info.op_type ≡ op_type
  pub curr : self.op_info.curr ≡ length bytes
  pub front : take (length bytes) self.op_info.opd ≡ bytes
  pub size : length self.op_info.opd ≡ max_operand_size

ts_memcpy_operand-Recorded :
    (self : Thread) (op_type : ℕ) (bytes opd : List ℕ)
    → Recorded self op_type bytes
    → length bytes + length opd ≤ max_operand_size
    → Recorded (ts_memcpy_operand self opd) op_type (bytes ++ opd)
unfolding ts_memcpy_operand ts_alloc_operand
ts_memcpy_operand-Recorded self op_type bytes opd r room =
    let sum = length-append bytes opd in
    let rest = drop (length bytes + length opd) self.op_info.opd in
    let left =
      length-drop (length bytes + length opd) self.op_info.opd (omega (arith, room, r.size)) in
    let total = length-append (bytes ++ opd) rest in
    let copied : copy_to self.op_info.opd self.op_info.curr opd ≡ (bytes ++ opd) ++ rest =
      rw r.curr (ap (λ l. l ++ (opd ++ rest)) r.front ∙ sym (append_assoc bytes opd rest)) in
    record {
      type = r.type;
      curr = omega (arith, r.curr, sum, room);
      front = ap (take (length (bytes ++ opd))) copied ∙ take-append (bytes ++ opd) rest;
      size = ap length copied ∙ omega (arith, total, sum, left, r.size);
    }

memcpy_operands-Recorded :
    (self : Thread) (op_type : ℕ) (bytes : List ℕ) (opds : List (List ℕ))
    → Recorded self op_type bytes
    → length bytes + length (concat opds) ≤ max_operand_size
    → Recorded (memcpy_operands self opds) op_type (bytes ++ concat opds)
memcpy_operands-Recorded self op_type bytes [] r room =
    subst (Recorded self op_type) (sym (append-nil bytes)) r
memcpy_operands-Recorded self op_type bytes (opd ∷ opds) r room =
    let sum = length-append opd (concat opds) in
    let sum' = length-append bytes opd in
    let next = ts_memcpy_operand-Recorded self op_type bytes opd r (omega (arith, room, sum)) in
    subst (Recorded (memcpy_operands (ts_memcpy_operand self opd) opds) op_type)
      (append_assoc bytes opd (concat opds))
      (memcpy_operands-Recorded (ts_memcpy_operand self opd) op_type (bytes ++ opd) opds next
        (omega (arith, room, sum, sum')))

-- what an operation's entry holds
abbrev op_of : ℕ → OpInfo → Op
op_of local_clk info = record {
  local_clk = local_clk;
  op_type = info.op_type;
  opd = take info.curr info.opd;
}

-- The entry holds the operation, where there is one.
abbrev Holding : Op → Oplog × Option ℕ → Type 0
Holding op (l, none) = Unit {0}
Holding op (l, some i) = (l.buffer i).obj ≡ op

reserved-Holding :
    (local_clk wrt_clk : ℕ) (info : OpInfo) (l : Oplog) (r : Option ℕ)
    → Holding (op_of local_clk info) (elim r as (λ x. Oplog × Option ℕ) [
      | none ↦ (l, none)
      | some i ↦ (init_op_entry l i local_clk wrt_clk info, some i)
    ])
reserved-Holding local_clk wrt_clk info l none = tt
reserved-Holding local_clk wrt_clk info l (some i) =
    ap (λ e. e.obj)
      (update_self l.buffer i
        (record (l.buffer i) { wrt_clk = wrt_clk; obj = op_of local_clk info }))

oplog_enq-Holding :
    (oplog : Oplog) (local_clk wrt_clk : ℕ) (info : OpInfo)
    → Holding (op_of local_clk info) (oplog_enq oplog local_clk wrt_clk info)
unfolding oplog_enq
oplog_enq-Holding oplog local_clk wrt_clk info =
    let reserved = nvlog_enq oplog (add_u32 op_entry_hdr_size info.curr) in
    reserved-Holding local_clk wrt_clk info reserved.0 reserved.1

op_of-Recorded :
    (self : Thread) (op_type : ℕ) (bytes : List ℕ) (local_clk : ℕ)
    → Recorded self op_type bytes
    → op_of local_clk self.op_info
      ≡ record { local_clk = local_clk; op_type = op_type; opd = bytes }
op_of-Recorded self op_type bytes local_clk r = rw (r.curr, r.front, r.type) refl

ts_set_op-Recorded :
    (self : Thread) (op_type : ℕ)
    → length self.op_info.opd ≡ max_operand_size
    → Recorded (ts_set_op self op_type) op_type []
unfolding ts_set_op
ts_set_op-Recorded self op_type size = record {
  type = refl;
  curr = refl;
  front = refl;
  size = size;
}

-- The type of the operation and its operands, recorded one by one into the buffer of a thread, are what
-- the entry in the operation log holds, one operand behind the other, if they are fewer bytes than the
-- buffer has, as oplog_enq asserts, and the log has room.
pub oplog_enq-memcpy_operands :
    (self : Thread) (op_type : ℕ) (opds : List (List ℕ)) (oplog l : Oplog) (local_clk wrt_clk i : ℕ)
    → length self.op_info.opd ≡ max_operand_size
    → length (concat opds) < max_operand_size
    → oplog_enq oplog local_clk wrt_clk (memcpy_operands (ts_set_op self op_type) opds).op_info
      ≡ (l, some i)
    → (opd_fits (memcpy_operands (ts_set_op self op_type) opds).op_info ≡ true)
      × ((l.buffer i).obj ≡ record { local_clk = local_clk; op_type = op_type; opd = concat opds })
oplog_enq-memcpy_operands self op_type opds oplog l local_clk wrt_clk i size room e =
    let recorded = memcpy_operands (ts_set_op self op_type) opds in
    let r =
      memcpy_operands-Recorded (ts_set_op self op_type) op_type [] opds
        (ts_set_op-Recorded self op_type size) (omega (arith, room)) in
    let held : (l.buffer i).obj ≡ op_of local_clk recorded.op_info =
      subst (Holding (op_of local_clk recorded.op_info)) e
        (oplog_enq-Holding oplog local_clk wrt_clk recorded.op_info) in
    (ground (arith, room, r.curr), held ∙ op_of-Recorded recorded op_type (concat opds) local_clk r)
