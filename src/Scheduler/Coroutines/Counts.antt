-- ===== src/Scheduler/Coroutines/Counts.antt =====
-- The table of running coroutines and its counter (scheduler.cpp).
use coroxx.Base.{ℕ, ◌≡◌, inl, inr, none, some, arith, length, ==-refl, Option-cases, subst, sym}
use coroxx.Base.Int.{pos, ◌+ℤ◌, ◌-ℤ◌}
use coroxx.Base.Assoc.{
  find, erase, Distinct, find-erase, find-put, put-Distinct, erase-Distinct, length-put,
  length-erase,
}
use coroxx.Scheduler.State.{Scheduler, World, set_scheduler}
use coroxx.Scheduler.Coroutines.{leave_exec}
use coroxx.Scheduler.Tasks.{enter_exec}

-- `exec_coro_num` counts the entries of `exec_table`, one for a coroutine.
abbrev pub Counted : Scheduler → Type 0
Counted s = Distinct s.exec_table × (s.exec_coro_num ≡ pos (length s.exec_table))

-- A coroutine that is not running enters the table: it is found, and the counter still counts.
pub enter_exec-Counted :
    (id : ℕ) (w : World)
    → find id w.scheduler.exec_table ≡ none
    → Counted w.scheduler
    → Counted (enter_exec id w).scheduler
      × (find id (enter_exec id w).scheduler.exec_table ≡ some id)
unfolding enter_exec ◌+ℤ◌
enter_exec-Counted id w absent (d, n) = (
  (
    put-Distinct id id w.scheduler.exec_table d,
    ground (arith, n, length-put id id w.scheduler.exec_table absent),
  ),
  ground (arith, find-put id id id w.scheduler.exec_table, ==-refl id),
)

left : ℕ → World → World
left coro w =
    set_scheduler
      (record w.scheduler {
        exec_table = erase coro w.scheduler.exec_table;
        exec_coro_num = w.scheduler.exec_coro_num -ℤ pos 1;
      })
      w

leave_some :
    (coro v : ℕ) (w : World)
    → find coro w.scheduler.exec_table ≡ some v
    → leave_exec coro w ≡ left coro w
unfolding leave_exec left
leave_some coro v w p = ground arith

leave_none :
    (coro : ℕ) (w : World) → find coro w.scheduler.exec_table ≡ none → leave_exec coro w ≡ w
unfolding leave_exec
leave_none coro w p = ground arith

abbrev pub Gone : ℕ → World → Type 0
Gone coro w = Counted w.scheduler × (find coro w.scheduler.exec_table ≡ none)

left-Gone :
    (coro v : ℕ) (w : World)
    → find coro w.scheduler.exec_table ≡ some v
    → Counted w.scheduler
    → Gone coro (left coro w)
unfolding left ◌-ℤ◌
left-Gone coro v w p (d, n) =
    let shorter = length-erase coro w.scheduler.exec_table p in
    (
      (erase-Distinct coro w.scheduler.exec_table d, ground (arith, n, shorter)),
      ground (arith, find-erase coro coro w.scheduler.exec_table d, ==-refl coro),
    )

-- After a coroutine left, it is not found, and the counter still counts.
pub leave_exec-Counted :
    (coro : ℕ) (w : World)
    → Counted w.scheduler
    → Counted (leave_exec coro w).scheduler
      × (find coro (leave_exec coro w).scheduler.exec_table ≡ none)
leave_exec-Counted coro w c = elim (Option-cases (find coro w.scheduler.exec_table)) [
  | inl p ↦ subst (Gone coro) (sym (leave_none coro w p)) (c, p)
  | inr (v, p) ↦ subst (Gone coro) (sym (leave_some coro v w p)) (left-Gone coro v w p c)
]
