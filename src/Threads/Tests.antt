-- ===== src/Threads/Tests.antt =====
-- The theorems on thread_local.h and thread_mutex_lock.h at concrete inputs.
use coroxx.Base.{ℕ, ◌+◌, ◌*◌, ◌≡◌, Option, none, some, arith, inl, inr}
use coroxx.Base.Int.{negsuc}
use coroxx.Base.Store.{update, update_cases}
use coroxx.Threads.Local.{Cell, object, pointer, get_cell, set_cell}
use coroxx.Threads.Local.Laws.{get_cell-set_cell}
use coroxx.Threads.Lock.{wait_call, to_uint64}
use coroxx.Threads.Lock.Deadline.{Until, now_nanos, wait_call-Until, wait_call_negative}

abbrev slots : ℕ → Option (Cell ℕ)
slots i = none

abbrev one_slot : ℕ → Option (Cell ℕ)
one_slot = update slots 2 (some (pointer (some 8)))

one_slot_pointers : (i : ℕ) (c : Cell ℕ) → one_slot i ≡ some c → (q : Option ℕ) × (c ≡ pointer q)
one_slot_pointers i c h = elim (update_cases slots 2 i (some (pointer (some 8))) (some c) h) [
  | inl (p, x) ↦ (some 8, cc)
  | inr (n, x) ↦ cc
]

get_cell-set_cell_example :
    (get_cell (object 0) 1 (set_cell (object 0) (object 5) 1 one_slot)
      ≡ (object 5, set_cell (object 0) (object 5) 1 one_slot))
    × (set_cell (object 0) (object 5) 1 one_slot 2 ≡ one_slot 2)
get_cell-set_cell_example = get_cell-set_cell (object 0) (object 5) 1 2 one_slot (omega arith)

wait_call-Until_example : Until (wait_call 7 999999 1500) (now_nanos 7 999999 + 1500 * 1000000)
wait_call-Until_example = wait_call-Until 7 999999 1500 (omega arith) (omega arith)

wait_call_negative_example :
    (nanos : ℕ) × Until (wait_call 7 5 (to_uint64 (negsuc 0))) nanos
    × (nanos + (0 + 1) * 1000000 ≡ now_nanos 7 5)
wait_call_negative_example = wait_call_negative 7 5 0 (omega arith) (omega arith)
