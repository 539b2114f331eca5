-- ===== src/Threads/Local.antt =====
-- thread_local.h. `pthread_getspecific` and `pthread_setspecific` are a table from threads to what a
-- slot's pointer leads to; a thread that has set nothing has a null pointer there.
pub mod Laws
use coroxx.Base.{ℕ, Bool, true, false, if◌then◌else◌, ◌≡◌, ◌≢◌, refl, Option, none, some, arith}
use coroxx.Base.Store.{update, update_self, update_ne}

-- A heap object that a slot points to: a `T`, or a pointer to a `T`.
pub data Cell {ℓ} (T : Type ℓ) : Type ℓ where
  object : T → Cell T
  pointer : Option ℕ → Cell T

-- What an object in a slot is: made by `new T` or by `new (T*)`.
pub data Kind : Type 0 where
  t_object : Kind
  t_pointer : Kind

abbrev pub same_kind : Kind → Kind → Bool
same_kind t_object t_object = true
same_kind t_object t_pointer = false
same_kind t_pointer t_object = false
same_kind t_pointer t_pointer = true

module _ {ℓ} {T : Type ℓ} where
  abbrev pub kind_of : Cell T → Kind
  kind_of (object _) = t_object
  kind_of (pointer _) = t_pointer

  -- `delete` of an object through a pointer of the given kind. It is defined if the object was made by
  -- `new` as one of that kind; `none` is undefined behaviour.
  unfoldable pub delete_as : Kind → Cell T → Option (Unit {0})
  delete_as kind c = if same_kind kind (kind_of c) then some tt else none

  -- `Destroy` at the end of a thread, in both classes: `delete (T*) x`.
  unfoldable pub destroy : Cell T → Option (Unit {0})
  unfolding delete_as
  destroy c = delete_as t_object c

  unfoldable pub thread_exit : ℕ → (ℕ → Option (Cell T)) → Option (ℕ → Option (Cell T))
  unfolding destroy
  thread_exit tid slots = elim (slots tid) [
    | none ↦ some slots
    | some c ↦ elim (destroy c) [ none ↦ none | some _ ↦ some (update slots tid none) ]
  ]

  -- `GetValue`: the thread's object, made by `creator` at the first call.
  unfoldable pub get_cell : Cell T → ℕ → (ℕ → Option (Cell T)) → Cell T × (ℕ → Option (Cell T))
  get_cell creator tid slots = elim (slots tid) [
    | some c ↦ (c, slots)
    | none ↦ (creator, update slots tid (some creator))
  ]

  -- `SetValue`.
  unfoldable pub set_cell : Cell T → Cell T → ℕ → (ℕ → Option (Cell T)) → ℕ → Option (Cell T)
  unfolding get_cell
  set_cell creator c tid slots = update (get_cell creator tid slots).1 tid (some c)

  -- `GetValue` and `SetValue` of a `ThreadLocal<T*>`, which starts with a null pointer.
  unfoldable pub get_pointer : ℕ → (ℕ → Option (Cell T)) → Cell T × (ℕ → Option (Cell T))
  unfolding get_cell
  get_pointer tid slots = get_cell (pointer none) tid slots

  unfoldable pub set_pointer : Option ℕ → ℕ → (ℕ → Option (Cell T)) → ℕ → Option (Cell T)
  unfolding set_cell
  set_pointer v tid slots = set_cell (pointer none) (pointer v) tid slots

  -- The end of a thread with `Empty` in place of `Destroy`: the object stays, and nothing leads to it.
  unfoldable pub thread_exit_empty : ℕ → (ℕ → Option (Cell T)) → ℕ → Option (Cell T)
  thread_exit_empty tid slots = update slots tid none
