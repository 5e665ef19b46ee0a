-- ===== src/CopyOnWrite.antt =====
-- core/signal.hpp, `copy_on_write`: payloads with a count of the handles that share them. A handle
-- and a payload are numbers; a handle that was moved from or destroyed points to nothing.
pub mod References
pub mod Sharing
pub mod Snapshots
use modern_signal_slot.Base.{
  ℕ, suc, ◌+◌, ◌-◌, Bool, true, false, Option, none, some, if◌then◌else◌, ◌==◌,
}

abbrev pub put {ℓ} : {B : Type ℓ} → (ℕ → B) → ℕ → B → ℕ → B
put f h v k = if h == k then v else f k

module _ (A : Type 0) where
  -- `deleted` tells which payloads have been deleted.
  pub record Heap : Type 0 where
    pub count : ℕ → ℕ
    pub value : ℕ → A
    pub deleted : ℕ → Bool
    pub payloads : ℕ
    pub m_data : ℕ → Option ℕ
    pub handles : ℕ

module _ {A : Type 0} where
  -- A new handle with a new payload, of a value.
  pub make : Heap A → A → Heap A
  make w v = record w {
    count = put w.count w.payloads 1;
    value = put w.value w.payloads v;
    payloads = suc w.payloads;
    m_data = put w.m_data w.handles (some w.payloads);
    handles = suc w.handles;
  }

  -- The copy constructor, which a null pointer stops, and the move constructor.
  pub copy_handle : Heap A → ℕ → Option (Heap A)
  copy_handle w x = elim (w.m_data x) [
    | none ↦ none
    | some p ↦ some (record w {
      count = put w.count p (w.count p + 1);
      m_data = put w.m_data w.handles (some p);
      handles = suc w.handles;
    })
  ]

  pub move_handle : Heap A → ℕ → Heap A
  move_handle w x = record w {
    m_data = put (put w.m_data w.handles (w.m_data x)) x none;
    handles = suc w.handles;
  }

  pub swap_handles : Heap A → ℕ → ℕ → Heap A
  swap_handles w x y = record w { m_data = put (put w.m_data x (w.m_data y)) y (w.m_data x) }

  -- The destructor.
  pub destroy : Heap A → ℕ → Heap A
  destroy w x = elim (w.m_data x) [
    | none ↦ w
    | some p ↦ record w {
      count = put w.count p (w.count p - 1);
      deleted = if w.count p - 1 == 0 then put w.deleted p true else w.deleted;
      m_data = put w.m_data x none;
    }
  ]

  -- The move assignment.
  pub assign_handle : Heap A → ℕ → ℕ → Heap A
  unfolding move_handle swap_handles destroy
  assign_handle w x y = let tmp = w.handles in destroy (swap_handles (move_handle w y) x tmp) tmp

  -- The part of `write` for a shared payload: `*this = copy_on_write(read())`.
  pub unshare : Heap A → ℕ → A → Heap A
  unfolding make assign_handle destroy
  unshare w x v = let copy = w.handles in destroy (assign_handle (make w v) x copy) copy

  -- `write`, which a null pointer stops, and what the caller then assigns to the reference.
  pub write : Heap A → ℕ → Option (Heap A)
  unfolding unshare
  write w x = elim (w.m_data x) [
    | none ↦ none
    | some p ↦ some (if w.count p == 1 then w else unshare w x (w.value p))
  ]

  unfoldable pub read : Heap A → ℕ → Option A
  read w x = elim (w.m_data x) [ none ↦ none | some p ↦ some (w.value p) ]

  pub assign_value : Heap A → ℕ → A → Heap A
  assign_value w x v = elim (w.m_data x) [
    | none ↦ w
    | some p ↦ record w { value = put w.value p v }
  ]
