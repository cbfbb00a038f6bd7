-- ===== src/Buf/Ring.antt =====
-- The ring of DMA buffers of a controller: `ftape_kmalloc`, `ftape_kfree`, `add_one_buffer`,
-- `del_one_buffer` and `fdc_zap_buffers` of ftape/lowlevel/ftape-buffer.c.
--
-- A pointer to a buffer is `none` for NULL or the address, a number; what the addresses hold is a
-- function. The kernel's `kmalloc`, asked for the n-th time, and the controller's `alloc` are
-- parameters, and so is `sizeof(buffer_struct)`; the controller's `free` has no effect on what is modelled.
pub mod Add
pub mod Wait
pub mod Laws
pub mod Zap
use ftape.Prelude.{
  ℕ, zero, suc, ◌+◌, ◌-◌, ltb, leb, ◌==◌, max, if◌then◌else◌, Bool, true, false, not, ◌&&◌, Option,
  none, some,
}
use ftape.Prelude.Int.{ℤ, pos}
use ftape.Prelude.Words.{add_word, sub_word}

-- `buffer_state_enum`
pub data BufferState : Type 0 where
  waiting : BufferState
  reading : BufferState
  writing : BufferState
  formatting : BufferState
  verifying : BufferState
  deleting : BufferState
  done : BufferState
  error : BufferState
  fatal_error : BufferState

-- The fields of `buffer_struct` that the ring uses.
pub record Node : Type 0 where
  pub next : ℕ
  pub status : BufferState
  pub bytes : ℕ
  pub skip : ℕ
  pub retry : ℤ

-- The fields of `fdc_info_t` that the ring uses, the memory, and the memory statistics of the unit.
pub record Fdc : Type 0 where
  pub nr_buffers : ℕ
  pub buffers : Option ℕ
  pub buffer_head : Option ℕ
  pub buffer_tail : Option ℕ
  pub nodes : ℕ → Node
  pub used : ℕ
  pub peak : ℕ

-- 0, -EINVAL, -ENXIO, -EAGAIN, an error of the controller; `waits` is no result of the source: its
-- wait for memory has no end, and goes on after the rounds
pub data Result : Type 0 where
  ok : Result
  not_valid : Result
  no_device : Result
  again : Result
  failed : ℕ → Result
  waits : Result

unfoldable pub is_ok : Result → Bool
is_ok ok = true
is_ok not_valid = false
is_ok no_device = false
is_ok again = false
is_ok (failed _) = false
is_ok waits = false

-- FT_MAX_NR_BUFFERS
abbrev pub max_nr_buffers : ℕ
max_nr_buffers = 16

-- A write of the node at an address.
unfoldable pub store : (ℕ → Node) → (address : ℕ) → Node → ℕ → Node
store nodes address node a = if a == address then node else nodes a

-- A buffer as `memset` leaves it.
abbrev pub zeroed : Node
zeroed = record { next = 0; status = waiting; bytes = 0; skip = 0; retry = pos 0 }

-- What `ftape_kmalloc` does with an address.
unfoldable pub account : (size : ℕ) → (address : ℕ) → Fdc → Fdc
unfolding store
account size address fdc =
    let used = add_word fdc.used size in
    record fdc {
      nodes = store fdc.nodes address zeroed;
      used = used;
      peak = if ltb fdc.peak used then used else fdc.peak;
    }

unfoldable pub kfree : (size : ℕ) → Fdc → Fdc
kfree size fdc = record fdc { used = sub_word fdc.used size }

-- The new buffer goes behind the first one.
unfoldable pub link : (new : ℕ) → Fdc → Fdc
unfolding store
link new fdc = elim fdc.buffers [
  | none ↦ record fdc {
    nr_buffers = fdc.nr_buffers + 1;
    buffers = some new;
    buffer_head = some new;
    buffer_tail = some new;
    nodes = store fdc.nodes new (record (fdc.nodes new) { next = new });
  }
  | some b ↦
      let linked = store fdc.nodes new (record (fdc.nodes new) { next = (fdc.nodes b).next }) in
      record fdc {
        nr_buffers = fdc.nr_buffers + 1;
        nodes = store linked b (record (linked b) { next = new });
      }
]

-- The buffer behind the first one goes.
unfoldable pub unlink : (b : ℕ) → Fdc → Fdc
unfolding store
unlink b fdc =
    let old = (fdc.nodes b).next in
    if not (old == (fdc.nodes old).next)
    then record fdc {
      nr_buffers = fdc.nr_buffers - 1;
      nodes = store fdc.nodes b (record (fdc.nodes b) { next = (fdc.nodes old).next });
    }
    else record fdc {
      nr_buffers = fdc.nr_buffers - 1;
      buffers = none;
      buffer_head = none;
      buffer_tail = none;
    }

unfoldable pub del_behind : (size : ℕ) → Fdc → (first : Option ℕ) → Fdc
unfolding unlink kfree
del_behind size fdc none = fdc
del_behind size fdc (some b) = if ltb 0 fdc.nr_buffers then kfree size (unlink b fdc) else fdc

unfoldable pub del_one_buffer : (size : ℕ) → Fdc → Fdc
unfolding del_behind
del_one_buffer size fdc = del_behind size fdc fdc.buffers

-- The body of the loop of `fdc_zap_buffers`.
unfoldable pub zap_node : Node → Node
zap_node n = record n { status = waiting; bytes = 0; skip = 0; retry = pos 0 }

-- The loop of `fdc_zap_buffers` from an address on; `none` if it does not end in the rounds.
unfoldable pub zap_from : (rounds : ℕ) → (first address : ℕ) → (ℕ → Node) → Option (ℕ → Node)
unfolding store zap_node
zap_from zero first address nodes = none
zap_from (suc rounds) first address nodes =
    let zapped = store nodes address (zap_node (nodes address)) in
    let rest = zap_from rounds first (zapped address).next zapped in
    if (zapped address).next == first then some zapped else rest

unfoldable pub with_nodes : Fdc → Option (ℕ → Node) → Option Fdc
with_nodes fdc none = none
with_nodes fdc (some nodes) = some (record fdc { nodes = nodes })

-- The loop gets a round for each buffer.
unfoldable pub zap_at : Fdc → (first : Option ℕ) → Option Fdc
unfolding zap_from with_nodes
zap_at fdc none = some fdc
zap_at fdc (some b) = with_nodes fdc (zap_from fdc.nr_buffers b b fdc.nodes)

unfoldable pub zap_buffers : Fdc → Option Fdc
unfolding zap_at
zap_buffers fdc = zap_at fdc fdc.buffers

-- The test of the loop of `ftape_kmalloc`, with what the rest of the loop gives.
unfoldable pub after_attempt :
    (retry : Bool) → (rest : Result × Option ℕ) → Option ℕ → Result × Option ℕ
after_attempt retry rest (some new) = (ok, some new)
after_attempt retry rest none = if retry then rest else (again, none)

module _ (kmalloc : (attempt : ℕ) → Fdc → Option ℕ) (alloc : Option ℕ → Fdc → Result)
    (size : ℕ) where
  -- The loop of `ftape_kmalloc`: `ok` with an address, `again` for NULL, or `waits` after the rounds.
  unfoldable pub try_kmalloc : (retry : Bool) → (rounds attempt : ℕ) → Fdc → Result × Option ℕ
  unfolding after_attempt
  try_kmalloc retry zero attempt fdc = (waits, none)
  try_kmalloc retry (suc rounds) attempt fdc =
      after_attempt retry (try_kmalloc retry rounds (attempt + 1) fdc) (kmalloc attempt fdc)

  -- After the allocation.
  unfoldable pub add_allocated : (has_alloc : Bool) → (new : ℕ) → Fdc → Result × Fdc
  unfolding link kfree is_ok
  add_allocated has_alloc new fdc =
      let result = alloc (some new) fdc in
      if has_alloc && not (is_ok result) then (result, kfree size fdc) else (ok, link new fdc)

  unfoldable pub add_tried : (has_alloc : Bool) → Fdc → (tried : Result × Option ℕ) → Result × Fdc
  unfolding add_allocated account
  add_tried has_alloc fdc (result, none) = (result, fdc)
  add_tried has_alloc fdc (result, some new) = add_allocated has_alloc new (account size new fdc)

  unfoldable pub add_one_buffer : (has_alloc : Bool) → (rounds : ℕ) → Fdc → Result × Fdc
  unfolding try_kmalloc add_tried
  add_one_buffer has_alloc rounds fdc =
      if leb max_nr_buffers fdc.nr_buffers
      then (not_valid, fdc)
      else add_tried has_alloc fdc (try_kmalloc true rounds 0 fdc)
