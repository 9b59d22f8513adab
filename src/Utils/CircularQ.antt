-- ===== src/Utils/CircularQ.antt =====
-- src/utils/circular_q.h: a ring of slots that overwrites its oldest item when it is full.
-- The vector is a list; `d` stands for the value-initialised item that fills a new vector. A read
-- out of range and a remainder by zero, which are undefined in C++, are `none`.
pub mod Window
pub mod Invariant
pub mod Refine
mod Tests
use mcp_server_cpp.Prelude.{
  ℕ, zero, suc, ◌+◌, ◌-◌, ◌%◌, List, [], Option, none, some, Bool, true, false, length, get_elem?,
  set, replicate, ltb, leb, ◌==◌, if◌then◌else◌, add_size, sub_size,
}

pub record CircularQ {ℓ} (A : Type ℓ) : Type ℓ where
  pub max_items : ℕ
  pub head : ℕ
  pub tail : ℕ
  pub overrun_counter : ℕ
  pub items : List A

module _ {ℓ} {A : Type ℓ} where
  -- The default constructor: a queue without slots, which holds nothing.
  unfoldable pub disabled : CircularQ A
  disabled = record { max_items = 0; head = 0; tail = 0; overrun_counter = 0; items = [] }

  -- One slot more than asked for tells a full queue from an empty one.
  unfoldable pub of_max_items : A → ℕ → CircularQ A
  of_max_items d n = record {
    max_items = add_size n 1;
    head = 0;
    tail = 0;
    overrun_counter = 0;
    items = replicate (add_size n 1) d;
  }

  -- The second half of `push_back`: when the tail meets the head, the oldest item is given up.
  unfoldable pub overrun : CircularQ A → CircularQ A
  overrun q =
      if q.tail == q.head
      then record q {
        head = add_size q.head 1 % q.max_items;
        overrun_counter = add_size q.overrun_counter 1;
      }
      else q

  unfoldable pub push_back : CircularQ A → A → CircularQ A
  unfolding overrun
  push_back q item =
      if ltb 0 q.max_items
      then overrun
          (record q { items = set q.items q.tail item; tail = add_size q.tail 1 % q.max_items })
      else q

  unfoldable pub front : CircularQ A → Option A
  front q = get_elem? q.items q.head

  unfoldable pub pop_front : CircularQ A → Option (CircularQ A)
  pop_front q =
      if q.max_items == 0 then none else some (record q { head = add_size q.head 1 % q.max_items })

  unfoldable pub empty : CircularQ A → Bool
  empty q = q.head == q.tail

  unfoldable pub full : CircularQ A → Bool
  full q = if ltb 0 q.max_items then add_size q.tail 1 % q.max_items == q.head else false

  unfoldable pub size : CircularQ A → ℕ
  size q = if leb q.head q.tail then q.tail - q.head else q.max_items - q.head + q.tail

  unfoldable pub capacity : CircularQ A → ℕ
  capacity q = sub_size q.max_items 1

  unfoldable pub reset_overrun_counter : CircularQ A → CircularQ A
  reset_overrun_counter q = record q { overrun_counter = 0 }
