-- ===== src/CopyOnWrite/Sharing.antt =====
-- What `write` of `copy_on_write` does to the other handles.
use modern_signal_slot.Base.{
  ℕ, suc, ◌≡◌, ◌≢◌, ◌<◌, refl, ◌∙◌, false, Option, none, some, arith, if◌then◌else◌, ◌==◌,
  Option-cases, inl, inr, Bool-cases,
}
use modern_signal_slot.CopyOnWrite.{
  Heap, put, make, move_handle, swap_handles, destroy, assign_handle, unshare, write, read,
  assign_value,
}
use modern_signal_slot.CopyOnWrite.References.{
  IsValid, AndThen, refs-two, pointed, make-IsValid, move_handle-IsValid, swap_handles-IsValid,
  destroy-IsValid,
}

module _ {A : Type 0} where
  pub destroy-value : (w : Heap A) (x : ℕ) → (destroy w x).value ≡ w.value
  unfolding destroy
  destroy-value w x = elim (Option-cases (w.m_data x)) [
    | inl e ↦ rw (destroy, e) refl
    | inr (q, e) ↦ rw (destroy, e) refl
  ]

  pub destroy-handles : (w : Heap A) (x : ℕ) → (destroy w x).handles ≡ w.handles
  unfolding destroy
  destroy-handles w x = elim (Option-cases (w.m_data x)) [
    | inl e ↦ rw (destroy, e) refl
    | inr (q, e) ↦ rw (destroy, e) refl
  ]

  pub destroy-data :
      (w : Heap A) (x k : ℕ) → (destroy w x).m_data k ≡ (if x == k then none else w.m_data k)
  unfolding destroy
  destroy-data w x k = elim (Option-cases (w.m_data x)) [
    | inl e ↦ rw (destroy, e) (ground arith)
    | inr (q, e) ↦ rw (destroy, e) refl
  ]

  pub unshare-value :
      (w : Heap A) (x : ℕ) (v : A) → (unshare w x v).value ≡ put w.value w.payloads v
  unfolding unshare assign_handle make move_handle swap_handles
  unshare-value w x v =
      destroy-value (assign_handle (make w v) x w.handles) w.handles
      ∙ destroy-value (swap_handles (move_handle (make w v) w.handles) x (suc w.handles))
          (suc w.handles)

  pub unshare-data :
      (w : Heap A) (x k : ℕ) (v : A)
      → x < w.handles
      → k < w.handles
      → (unshare w x v).m_data k ≡ (if x == k then some w.payloads else w.m_data k)
  unfolding unshare assign_handle make move_handle swap_handles
  unshare-data w x k v lt lt' =
      let all = destroy-data (assign_handle (make w v) x w.handles) w.handles k in
      let inner =
        destroy-data (swap_handles (move_handle (make w v) w.handles) x (suc w.handles))
          (suc w.handles) k in
      ground (arith, all, inner)

  unshare-IsValid :
      (w : Heap A) (x : ℕ) (v : A) → x < w.handles → IsValid w → IsValid (unshare w x v)
  unfolding unshare assign_handle
  unshare-IsValid w x v lt ok =
      let n = w.handles in
      let w1 = make w v in
      let w2 = move_handle w1 n in
      let w3 = swap_handles w2 x (suc n) in
      let ok1 : IsValid w1 = make-IsValid w v ok in
      let ok2 : IsValid w2 = move_handle-IsValid w1 n (omega arith) ok1 in
      let ok3 : IsValid w3 = swap_handles-IsValid w2 x (suc n) (omega arith) (omega arith) ok2 in
      let ok4 : IsValid (destroy w3 (suc n)) = destroy-IsValid w3 (suc n) (omega arith) ok3 in
      destroy-IsValid (destroy w3 (suc n)) n (omega (arith, destroy-handles w3 (suc n))) ok4

  -- A write keeps the counts of the payloads right, also when it makes a payload of its own.
  pub write-IsValid : (w : Heap A) (x : ℕ) → x < w.handles → IsValid w → AndThen IsValid (write w x)
  unfolding write
  write-IsValid w x lt ok = elim (Option-cases (w.m_data x)) [
    | inl e ↦ rw (write, e) tt
    | inr (p, e) ↦ elim (Bool-cases (w.count p == 1)) [
      | inl alone ↦ rw (write, e, alone) ok
      | inr shared ↦ rw (write, e, shared) (unshare-IsValid w x (w.value p) lt ok)
    ]
  ]

  -- A payload that a handle points to has not been deleted.
  pub never_dangles :
      (w : Heap A) (x p : ℕ) → IsValid w → x < w.handles → w.m_data x ≡ some p → w.deleted p ≡ false
  never_dangles w x p ok lt e = elim (Bool-cases (w.deleted p)) [
    | inl gone ↦ absurd (omega (arith, ok.gone p gone, pointed w x p ok lt e))
    | inr kept ↦ kept
  ]

  -- The property of the heap behind an operation, which a null pointer did not stop.
  abbrev pub Returns : (Heap A → Type 0) → Option (Heap A) → Type 0
  Returns P none = ⊥
  Returns P (some w) = P w

  alone_isolates :
      (w : Heap A) (x k p : ℕ) (a : A)
      → IsValid w
      → x < w.handles
      → k < w.handles
      → x ≢ k
      → w.m_data x ≡ some p
      → w.count p ≡ 1
      → (read (assign_value w x a) k ≡ read w k) × (read (assign_value w x a) x ≡ some a)
  unfolding read assign_value
  alone_isolates w x k p a ok lt lt' ne e one =
      let two = refs-two w.handles x k p w.m_data lt lt' ne in ground (arith, two, ok.counted p)

  shared_isolates :
      (w : Heap A) (x k p : ℕ) (a : A)
      → IsValid w
      → x < w.handles
      → k < w.handles
      → x ≢ k
      → let u = unshare w x (w.value p) in
        (read (assign_value u x a) k ≡ read w k) × (read (assign_value u x a) x ≡ some a)
  unfolding read assign_value
  shared_isolates w x k p a ok lt lt' ne =
      let u = unshare w x (w.value p) in
      let data_x = unshare-data w x x (w.value p) lt lt in
      let data_k = unshare-data w x k (w.value p) lt lt' in
      let values = unshare-value w x (w.value p) in
      let fresh : (q : ℕ) → w.m_data k ≡ some q → q ≢ w.payloads =
        λ q e same. omega (arith, pointed w k q ok lt' e, ok.fresh q (omega (arith, same))) in
      elim (Option-cases (w.m_data k)) [
        | inl e ↦ ground (arith, data_x, data_k, values)
        | inr (q, e) ↦ ground (arith, data_x, data_k, values, fresh q e)
      ]

  -- Copy on write: after `write` through a handle that points to a payload, and an assignment to
  -- the reference that it returns, every other handle reads what it read before, whether it shared
  -- the payload or not, and the handle itself reads the value assigned.
  pub write-read :
      (w : Heap A) (x k p : ℕ) (a : A)
      → IsValid w
      → x < w.handles
      → k < w.handles
      → x ≢ k
      → w.m_data x ≡ some p
      → Returns
          (λ v. (read (assign_value v x a) k ≡ read w k) × (read (assign_value v x a) x ≡ some a))
          (write w x)
  unfolding write
  write-read w x k p a ok lt lt' ne e = elim (Bool-cases (w.count p == 1)) [
    | inl alone ↦ rw (write, e, alone) (alone_isolates w x k p a ok lt lt' ne e (ground arith))
    | inr shared ↦ rw (write, e, shared) (shared_isolates w x k p a ok lt lt' ne)
  ]
