-- ===== src/Examples/Rings.antt =====
-- The queues of local_queue.h, mpmc_ring.h, batched_spsc_queue.h and chase_lev_deque.h at concrete
-- states.
use storage_engine.Prelude.{
  ℕ, ◌-◌, ◌≡◌, refl, ◌⊎◌, some, none, List, [], ◌∷◌, ◌++◌, arith, min, take, drop, size_max,
}
use storage_engine.Ring.Capacity.{IsCapacity}
use storage_engine.Ring.Local.{LocalQueue}
use storage_engine.Ring.Mpmc.{MpmcRing, enqueue_bulk, dequeue_bulk, count}
use storage_engine.Ring.Mpmc.Refine.{enqueue_bulk_refines, dequeue_bulk_refines}
use storage_engine.Ring.Mpmc.Contents as Mpmc
use storage_engine.Ring.Mpmc.Sizes.{power-IsCapacity}
use storage_engine.Ring.Spsc.{SpscQueue, approx_count}
use storage_engine.Ring.Spsc.Refine.{push_batch_refines, spsc_batch_refines, push_batch_overruns}
use storage_engine.Ring.Spsc.Refine as SpscRefine
use storage_engine.Ring.Deque.{ChaseLevDeque}
use storage_engine.Ring.Deque as Deque
use storage_engine.Ring.Deque.Refine.{push_refines, pop_refines, steal_refines}
use storage_engine.Ring.Deque.Refine as DequeRefine

four-IsCapacity : IsCapacity 4
four-IsCapacity = power-IsCapacity 2 (omega arith)

-- A queue of capacity 4 whose contents wrap round the array: 3, 0.
abbrev wrapped : LocalQueue ℕ
wrapped = record { items = λ i. i; head = 3; tail = 1 }

-- A ring of 4 whose producer's counter has wrapped round `size_t`: 3, 0.
abbrev late_ring : MpmcRing ℕ
late_ring = record {
  prod_head = 1;
  prod_tail = 1;
  cons_head = size_max;
  cons_tail = size_max;
  capacity = 4;
  ring = λ i. i;
}

late_ring-IsValid : Mpmc.IsValid late_ring
late_ring-IsValid = record {
  is_capacity = four-IsCapacity;
  small = omega arith;
  produced = refl;
  consumed = refl;
  prod_word = omega arith;
  cons_word = omega arith;
  fits = omega arith;
}

abbrev three : List ℕ
three = 7 ∷ 8 ∷ 9 ∷ []

-- Three objects are offered and there is room for two.
enqueue_bulk_example :
    ((enqueue_bulk late_ring three).0 ≡ min 3 (4 - count late_ring))
    × (Mpmc.contents (enqueue_bulk late_ring three).1
        ≡ Mpmc.contents late_ring ++ take (4 - count late_ring) three)
    × Mpmc.IsValid (enqueue_bulk late_ring three).1
enqueue_bulk_example = enqueue_bulk_refines late_ring three late_ring-IsValid

dequeue_bulk_example :
    ((dequeue_bulk late_ring 3).0 ≡ take 3 (Mpmc.contents late_ring))
    × (Mpmc.contents (dequeue_bulk late_ring 3).1 ≡ drop 3 (Mpmc.contents late_ring))
    × Mpmc.IsValid (dequeue_bulk late_ring 3).1
dequeue_bulk_example = dequeue_bulk_refines late_ring 3 late_ring-IsValid

-- One element is unread, at the last position before the counter wraps.
abbrev batched : SpscQueue ℕ
batched = record { ring = λ i. i; write_head = 0; local_write_tail = 0; local_tail = size_max }

unfolded_count : approx_count 4 batched ≡ 1
unfolding approx_count
unfolded_count = refl

batched-IsValid : SpscRefine.IsValid 4 batched
batched-IsValid = record {
  is_capacity = four-IsCapacity;
  published = refl;
  head_word = omega arith;
  tail_word = omega arith;
  fits = omega arith;
}

-- All four slots are unread.
abbrev brimful : SpscQueue ℕ
brimful = record { ring = λ i. i; write_head = 4; local_write_tail = 4; local_tail = 0 }

brimful-IsValid : SpscRefine.IsValid 4 brimful
brimful-IsValid = record {
  is_capacity = four-IsCapacity;
  published = refl;
  head_word = omega arith;
  tail_word = omega arith;
  fits = omega arith;
}

four_unread : approx_count 4 brimful ≡ 4
unfolding approx_count
four_unread = refl

-- A deque with two elements, 5 and 0, in an array of two, so that a push has to grow it.
abbrev stack_of_two : ChaseLevDeque ℕ
stack_of_two = record { top = 5; bottom = 7; array = record { capacity = 2; items = λ i. i } }

stack_of_two-IsValid : DequeRefine.IsValid stack_of_two
stack_of_two-IsValid = record {
  positive = omega arith;
  ordered = omega arith;
  bounded = omega arith;
}

push_example :
    DequeRefine.IsValid (Deque.push 0 stack_of_two 9)
    × (DequeRefine.contents (Deque.push 0 stack_of_two 9)
        ≡ DequeRefine.contents stack_of_two ++ (9 ∷ []))
push_example = push_refines stack_of_two 0 9 stack_of_two-IsValid

pop_example :
    DequeRefine.IsValid (Deque.pop stack_of_two).1
    × (((DequeRefine.contents stack_of_two ≡ []) × (Deque.pop stack_of_two ≡ (none, stack_of_two)))
        ⊎ ((x : ℕ) × ((Deque.pop stack_of_two).0 ≡ some x)
            × (DequeRefine.contents stack_of_two
                ≡ DequeRefine.contents (Deque.pop stack_of_two).1 ++ (x ∷ []))))
pop_example = pop_refines stack_of_two stack_of_two-IsValid

steal_example :
    DequeRefine.IsValid (Deque.steal stack_of_two).1
    × (((DequeRefine.contents stack_of_two ≡ [])
          × (Deque.steal stack_of_two ≡ (none, stack_of_two)))
        ⊎ ((x : ℕ) × ((Deque.steal stack_of_two).0 ≡ some x)
            × (DequeRefine.contents stack_of_two
                ≡ x ∷ DequeRefine.contents (Deque.steal stack_of_two).1)))
steal_example = steal_refines stack_of_two stack_of_two-IsValid
