-- ===== src/Ring/Deque.antt =====
-- src/runtime/chase_lev_deque.h, each operation run without another in between; then no
-- compare-and-swap fails. The indices are `int64_t`: they stay below 2 ^ 63, and the `bottom - 1` of
-- pop(), which is -1 for an empty deque that was never used, is compared only.
pub mod Refine
use storage_engine.Prelude.{
  ℕ, zero, suc, ◌+◌, ◌-◌, ◌*◌, ◌%◌, Bool, true, false, Option, none, some, leb, ltb, ◌==◌,
  if◌then◌else◌, update,
}

pub record CircularArray {ℓ} (A : Type ℓ) : Type ℓ where
  pub capacity : ℕ
  pub items : ℕ → A

pub record ChaseLevDeque {ℓ} (A : Type ℓ) : Type ℓ where
  pub top : ℕ
  pub bottom : ℕ
  pub array : CircularArray A

module _ {ℓ} {A : Type ℓ} where
  -- `take(i)` and `load(i)`.
  abbrev pub load : CircularArray A → ℕ → A
  load a i = a.items (i % a.capacity)

  abbrev pub store : CircularArray A → ℕ → A → CircularArray A
  store a i x = record a { items = update a.items (i % a.capacity) x }

  -- The loop of grow(), `count` rounds left and the next at `i`.
  unfoldable pub move : CircularArray A → ℕ → ℕ → CircularArray A → CircularArray A
  move old zero i new = new
  move old (suc count) i new = move old count (i + 1) (store new i (load old i))

  unfoldable pub grow : CircularArray A → A → ℕ → ℕ → CircularArray A
  grow old blank top bottom =
      move old (bottom - top) top (record { capacity = old.capacity * 2; items = λ i. blank })

  unfoldable pub make : ℕ → A → ChaseLevDeque A
  make capacity blank = record {
    top = 0;
    bottom = 0;
    array = record { capacity = capacity; items = λ i. blank };
  }

  -- `blank` is the value that `T()` gives to the cells of a new array.
  unfoldable pub push : A → ChaseLevDeque A → A → ChaseLevDeque A
  push blank q x =
      let array =
        if leb q.array.capacity (q.bottom - q.top)
        then grow q.array blank q.top q.bottom
        else q.array in
      record q { array = store array q.bottom x; bottom = q.bottom + 1 }

  -- Taking the last element claims it at the top and puts the bottom back.
  unfoldable pub pop : ChaseLevDeque A → Option A × ChaseLevDeque A
  pop q =
      if ltb q.top q.bottom
      then (
        some (load q.array (q.bottom - 1)),
        if q.top == q.bottom - 1
            then record q { top = q.top + 1 }
            else record q { bottom = q.bottom - 1 },
      )
      else (none, q)

  unfoldable pub steal : ChaseLevDeque A → Option A × ChaseLevDeque A
  steal q =
      if leb q.bottom q.top
      then (none, q)
      else (some (load q.array q.top), record q { top = q.top + 1 })

  unfoldable pub size : ChaseLevDeque A → ℕ
  size q = if ltb q.top q.bottom then q.bottom - q.top else 0

  abbrev pub empty : ChaseLevDeque A → Bool
  empty q = size q == 0
