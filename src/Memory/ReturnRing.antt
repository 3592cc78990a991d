-- ===== src/Memory/ReturnRing.antt =====
-- The bounded queue of pointers in src/runtime/memory_pool.cc (its class MPMCRing), run by one
-- thread at a time (`cells` is the member `data`). A failed compare-and-swap needs another thread, so the retries left are those
-- of a slot whose sequence number is ahead.
pub mod Refine
pub mod Dequeue
use storage_engine.Prelude.{
  ℕ, zero, suc, ◌+◌, ◌%◌, ◌^◌, ◌≤◌, Bool, true, false, Option, none, some, ◌==◌, leb, if◌then◌else◌,
  add_word, sub_word, update,
}

pub record ReturnRing : Type 0 where
  pub sequence : ℕ → ℕ
  pub cells : ℕ → ℕ
  pub head : ℕ
  pub tail : ℕ

abbrev pub ring_capacity : ℕ
ring_capacity = 256

abbrev pub make_ring : ReturnRing
make_ring = record { sequence = λ i. i; cells = λ i. 0; head = 0; tail = 0 }

-- The sign of the difference of two words taken as `intptr_t`.
abbrev negative : ℕ → Bool
negative diff = leb (2 ^ 63) diff

-- No retry left: none.
unfoldable pub try_enqueue : ℕ → ℕ → ReturnRing → Option (Bool × ReturnRing)
try_enqueue zero ptr r = none
try_enqueue (suc retries) ptr r =
    let again = try_enqueue retries ptr r in
    let slot = r.tail % ring_capacity in
    let diff = sub_word (r.sequence slot) r.tail in
    if negative diff
    then some (false, r)
    else (if diff == 0
        then some (
          true,
          record r {
            sequence = update r.sequence slot (add_word r.tail 1);
            cells = update r.cells slot ptr;
            tail = add_word r.tail 1;
          },
        )
        else again)

unfoldable pub try_dequeue : ℕ → ReturnRing → Option (Option ℕ × ReturnRing)
try_dequeue zero r = none
try_dequeue (suc retries) r =
    let again = try_dequeue retries r in
    let slot = r.head % ring_capacity in
    let diff = sub_word (r.sequence slot) (add_word r.head 1) in
    if negative diff
    then some (none, r)
    else (if diff == 0
        then some (
          some (r.cells slot),
          record r {
            sequence = update r.sequence slot (add_word r.head ring_capacity);
            head = add_word r.head 1;
          },
        )
        else again)
