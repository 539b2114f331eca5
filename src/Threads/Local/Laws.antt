-- ===== src/Threads/Local/Laws.antt =====
-- What a thread sees of its own slot of thread_local.h, and of the slots of others.
use coroxx.Base.{ℕ, ◌≡◌, ◌≢◌, inl, inr, Option, some, arith, ◌∙◌, Option-cases, ne→==, ==-refl}
use coroxx.Base.Store.{update_ne}
use coroxx.Threads.Local.{Cell, get_cell, set_cell}

module _ {ℓ} {T : Type ℓ} where
  -- Another thread's slot is the same after a call of `GetValue`, and of `SetValue`.
  get_cell_other :
      (creator : Cell T) (tid other : ℕ) (slots : ℕ → Option (Cell T))
      → other ≢ tid
      → (get_cell creator tid slots).1 other ≡ slots other
  unfolding get_cell
  get_cell_other creator tid other slots h = elim (Option-cases (slots tid)) [
    | inl e ↦ ground (arith, e, ne→== other tid)
    | inr p ↦ ground (arith, p.1)
  ]

  -- After `SetValue` the thread reads the value set, whatever was in its slot, reading does not
  -- change the slots, and the slots of all other threads are as before.
  pub get_cell-set_cell :
      (creator c : Cell T) (tid other : ℕ) (slots : ℕ → Option (Cell T))
      → other ≢ tid
      → (get_cell creator tid (set_cell creator c tid slots) ≡ (c, set_cell creator c tid slots))
        × (set_cell creator c tid slots other ≡ slots other)
  unfolding get_cell set_cell
  get_cell-set_cell creator c tid other slots h = (
    ground (arith, ==-refl tid),
    update_ne (get_cell creator tid slots).1 tid other (some c) h
        ∙ get_cell_other creator tid other slots h,
  )
