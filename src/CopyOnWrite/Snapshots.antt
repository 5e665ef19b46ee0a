-- ===== src/CopyOnWrite/Snapshots.antt =====
-- core/signal.hpp, a signal's slot list in its copy-on-write pointer: `operator()` and `slot_count`
-- copy the pointer in `slots_reference` and read their copy while other threads write the list
-- through `cow_write(m_slots)`. Handle 0 is `m_slots`.
pub mod Refine
use modern_signal_slot.Base.{
  ℕ, zero, suc, ◌≡◌, ◌≢◌, ◌<◌, ◌≤◌, refl, sym, ◌∙◌, Bool, true, false, ◌||◌, List, [], ◌∷◌, Option,
  none, some, arith, if◌then◌else◌, ◌==◌, Option-cases, Bool-cases, inl, inr, elem, ap,
}
use modern_signal_slot.CopyOnWrite.{
  Heap, put, make, move_handle, swap_handles, assign_handle, unshare, copy_handle, destroy, write,
  read, assign_value,
}
use modern_signal_slot.CopyOnWrite.References.{
  IsValid, AndThen, pointed, copy_handle-IsValid, destroy-IsValid,
}
use modern_signal_slot.CopyOnWrite.Sharing.{
  Returns, write-IsValid, write-read, destroy-data, destroy-value, destroy-handles, unshare-data,
  unshare-value,
}

-- What happens to the list: a reader copies the pointer, the reader of number `i` drops its copy,
-- and an operation of the signal changes the list, under the mutex.
pub data ListEvent (A : Type 0) : Type 0 where
  reads : ListEvent A
  drops : ℕ → ListEvent A
  changes : (A → A) → ListEvent A

-- The copies that readers hold, the last one first.
pub record Store (A : Type 0) : Type 0 where
  pub heap : Heap A
  pub copies : List ℕ

-- What the readers and the writers rely on: the list as it is, and for each reader the list vs it
-- was when it began to read.
pub record View (A : Type 0) : Type 0 where
  pub current : A
  pub snapshots : List A

abbrev pub drop_at : {A : Type 0} → ℕ → List A → List A
drop_at i [] = []
drop_at zero (x ∷ xs) = xs
drop_at (suc i) (x ∷ xs) = x ∷ drop_at i xs

abbrev pub at_number : {A : Type 0} → ℕ → List A → Option A
at_number i [] = none
at_number zero (x ∷ xs) = some x
at_number (suc i) (x ∷ xs) = at_number i xs

-- The elements that are left when one is taken out, and the one that is.
drop-elem : (i b : ℕ) (hs : List ℕ) → elem b (drop_at i hs) ≡ true → elem b hs ≡ true
drop-elem i b [] e = e
drop-elem zero b (h ∷ hs) e = ground arith
drop-elem (suc i) b (h ∷ hs) e = ground (arith, drop-elem i b hs)

at_number-elem : (i h : ℕ) (hs : List ℕ) → at_number i hs ≡ some h → elem h hs ≡ true
at_number-elem i h [] e = cc
at_number-elem zero h (k ∷ hs) e = ground arith
at_number-elem (suc i) h (k ∷ hs) e = ground (arith, at_number-elem i h hs e)

module _ {A : Type 0} where
  -- A change through `cow_write(m_slots)`.
  pub change_list : (A → A) → Heap A → Option (Heap A)
  change_list f w = elim (write w 0) [
    | none ↦ none
    | some v ↦ elim (read v 0) [ none ↦ none | some a ↦ some (assign_value v 0 (f a)) ]
  ]

  pub list_event : ListEvent A → Store A → Option (Store A)
  list_event reads s = elim (copy_handle s.heap 0) [
    | none ↦ none
    | some w ↦ some (record { heap = w; copies = s.heap.handles ∷ s.copies })
  ]
  list_event (drops i) s = elim (at_number i s.copies) [
    | none ↦ some s
    | some h ↦ some (record { heap = destroy s.heap h; copies = drop_at i s.copies })
  ]
  list_event (changes f) s = elim (change_list f s.heap) [
    | none ↦ none
    | some w ↦ some (record s { heap = w })
  ]

  pub list_events : List (ListEvent A) → Store A → Option (Store A)
  list_events [] s = some s
  list_events (e ∷ es) s = elim (list_event e s) [ none ↦ none | some u ↦ list_events es u ]

  abbrev pub view_event : ListEvent A → View A → View A
  view_event reads t = record t { snapshots = t.current ∷ t.snapshots }
  view_event (drops i) t = record t { snapshots = drop_at i t.snapshots }
  view_event (changes f) t = record t { current = f t.current }

  abbrev pub view_events : List (ListEvent A) → View A → View A
  view_events [] t = t
  view_events (e ∷ es) t = view_events es (view_event e t)

  -- Every copy has a handle of its own and shows its snapshot.
  abbrev pub Shown : Heap A → List ℕ → List A → Type 0
  Shown w [] [] = Unit {0}
  Shown w [] (a ∷ vs) = ⊥
  Shown w (h ∷ hs) [] = ⊥
  Shown w (h ∷ hs) (a ∷ vs) =
      (read w h ≡ some a) × (0 < h) × (h < w.handles) × (elem h hs ≡ false) × Shown w hs vs

  -- A state shows a view.
  pub record Shows (s : Store A) (t : View A) : Type 0 where
    pub sound : IsValid s.heap
    pub own : 0 < s.heap.handles
    pub list : read s.heap 0 ≡ some t.current
    pub each : Shown s.heap s.copies t.snapshots

  pub Shown-keep :
      (w v : Heap A) (hs : List ℕ) (vs : List A)
      → w.handles ≤ v.handles
      → ((h : ℕ) → 0 < h → h < w.handles → elem h hs ≡ true → read v h ≡ read w h)
      → Shown w hs vs
      → Shown v hs vs
  Shown-keep w v [] [] le same s = tt
  Shown-keep w v [] (a ∷ vs) le same s = s
  Shown-keep w v (h ∷ hs) [] le same s = s
  Shown-keep w v (h ∷ hs) (a ∷ vs) le same (shown, pos, lt, new, rest) = (
    same h pos lt (ground arith) ∙ shown,
    pos,
    omega arith,
    new,
    Shown-keep w v hs vs le (λ k p l e. same k p l (ground arith)) rest,
  )

  pub drop-Shown :
      (w : Heap A) (i : ℕ) (hs : List ℕ) (vs : List A)
      → Shown w hs vs
      → Shown w (drop_at i hs) (drop_at i vs)
  drop-Shown w i [] [] s = tt
  drop-Shown w i [] (v ∷ vs) s = absurd s
  drop-Shown w i (h ∷ hs) [] s = absurd s
  drop-Shown w zero (h ∷ hs) (v ∷ vs) (shown, pos, lt, new, rest) = rest
  drop-Shown w (suc i) (h ∷ hs) (v ∷ vs) (shown, pos, lt, new, rest) =
      (shown, pos, lt, ground (arith, drop-elem i h hs), drop-Shown w i hs vs rest)

  -- It was another one than those that are left.
  pub drop_other :
      (w : Heap A) (i h : ℕ) (hs : List ℕ) (vs : List A)
      → Shown w hs vs
      → at_number i hs ≡ some h
      → (0 < h) × (h < w.handles) × (elem h (drop_at i hs) ≡ false)
  drop_other w i h [] vs s e = cc
  drop_other w i h (k ∷ hs) [] s e = absurd s
  drop_other w zero h (k ∷ hs) (v ∷ vs) (shown, pos, lt, new, rest) e = ground (arith, pos, lt, new)
  drop_other w (suc i) h (k ∷ hs) (v ∷ vs) (shown, pos, lt, new, rest) e =
      let (p, l, out) = drop_other w i h hs vs rest e in
      let apart = at_number-elem i h hs e in (p, l, ground (arith, new, apart, out))

  pub no_drop :
      (w : Heap A) (i : ℕ) (hs : List ℕ) (vs : List A)
      → Shown w hs vs
      → at_number i hs ≡ none
      → drop_at i vs ≡ vs
  no_drop w i [] [] s e = refl
  no_drop w i [] (v ∷ vs) s e = absurd s
  no_drop w i (k ∷ hs) [] s e = refl
  no_drop w zero (k ∷ hs) (v ∷ vs) s e = cc
  no_drop w (suc i) (k ∷ hs) (v ∷ vs) (shown, pos, lt, new, rest) e =
      ap (◌∷◌ v) (no_drop w i hs vs rest e)

  pub Shown-fresh :
      (w : Heap A) (hs : List ℕ) (vs : List A) → Shown w hs vs → elem w.handles hs ≡ false
  Shown-fresh w [] vs s = refl
  Shown-fresh w (h ∷ hs) [] s = absurd s
  Shown-fresh w (h ∷ hs) (v ∷ vs) (shown, pos, lt, new, rest) =
      ground (arith, lt, Shown-fresh w hs vs rest)

  pub read_at : (w : Heap A) (x : ℕ) {a : A} → read w x ≡ some a → (p : ℕ) × (w.m_data x ≡ some p)
  unfolding read
  read_at w x e = elim (Option-cases (w.m_data x)) [ inl n ↦ ground arith | inr found ↦ found ]

  pub destroy-read : (w : Heap A) (x k : ℕ) → x ≢ k → read (destroy w x) k ≡ read w k
  unfolding read
  destroy-read w x k ne = ground (arith, destroy-data w x k, destroy-value w x)

  pub copy_handle-read :
      (w : Heap A) (p : ℕ)
      → 0 < w.handles
      → w.m_data 0 ≡ some p
      → Returns
          (λ v.
            (v.handles ≡ suc w.handles)
            × (read v w.handles ≡ read w 0)
            × ((h : ℕ) → h < w.handles → read v h ≡ read w h))
          (copy_handle w 0)
  unfolding copy_handle read
  copy_handle-read w p own e = rw (copy_handle, e) (refl, ground arith, λ h lt. ground arith)
