-- ===== src/CopyOnWrite/Snapshots/Refine.antt =====
-- What readers of a signal's slot list see while it changes.
use modern_signal_slot.Base.{
  ℕ, suc, ◌≡◌, ◌<◌, ◌≤◌, refl, ◌∙◌, false, List, [], ◌∷◌, Option, none, some, arith, ◌==◌,
  Option-cases, Bool-cases, inl, inr, elem,
}
use modern_signal_slot.CopyOnWrite.{
  Heap, make, move_handle, swap_handles, assign_handle, unshare, copy_handle, destroy, write, read,
  assign_value,
}
use modern_signal_slot.CopyOnWrite.References.{IsValid, copy_handle-IsValid, destroy-IsValid}
use modern_signal_slot.CopyOnWrite.Sharing.{
  Returns, write-IsValid, write-read, destroy-handles, unshare-data, unshare-value,
}
use modern_signal_slot.CopyOnWrite.Snapshots.{
  ListEvent, reads, drops, changes, Store, View, at_number, drop_at, change_list, list_event,
  list_events, view_event, view_events, Shows, Shown-keep, Shown-fresh, drop-Shown, drop_other,
  no_drop, read_at, destroy-read, copy_handle-read,
}

module _ {A : Type 0} where
  unshare-handles : (w : Heap A) (x : ℕ) (v : A) → (unshare w x v).handles ≡ suc (suc w.handles)
  unfolding unshare assign_handle make move_handle swap_handles
  unshare-handles w x v =
      destroy-handles (assign_handle (make w v) x w.handles) w.handles
      ∙ destroy-handles (swap_handles (move_handle (make w v) w.handles) x (suc w.handles))
          (suc w.handles)

  -- A write shows its own handle the value that it showed before.
  write-own :
      (w : Heap A) (p : ℕ)
      → 0 < w.handles
      → w.m_data 0 ≡ some p
      → Returns
          (λ v.
            (w.handles ≤ v.handles)
            × (read v 0 ≡ read w 0)
            × ((a : A) → read (assign_value v 0 a) 0 ≡ some a))
          (write w 0)
  unfolding write read assign_value
  write-own w p own e = elim (Bool-cases (w.count p == 1)) [
    | inl alone ↦ rw (write, e, alone) (omega arith, ground arith, λ a. ground arith)
    | inr shared ↦
        let u = unshare w 0 (w.value p) in
        let points = unshare-data w 0 0 (w.value p) own own in
        let values = unshare-value w 0 (w.value p) in
        rw (write, e, shared)
          (
            omega (arith, unshare-handles w 0 (w.value p)),
            ground (arith, points, values),
            λ a. ground (arith, points, values),
          )
  ]

  assign_value-IsValid : (w : Heap A) (x : ℕ) (a : A) → IsValid w → IsValid (assign_value w x a)
  unfolding assign_value
  assign_value-IsValid w x a ok = elim (Option-cases (w.m_data x)) [
    | inl e ↦ rw (assign_value, e) ok
    | inr (p, e) ↦
        rw (assign_value, e)
          (record { counted = ok.counted; fresh = ok.fresh; gone = ok.gone; old = ok.old })
  ]

  assign_value-handles : (w : Heap A) (x : ℕ) (a : A) → (assign_value w x a).handles ≡ w.handles
  unfolding assign_value
  assign_value-handles w x a = ground arith

  -- A property of the result that a null pointer did not stop.
  abbrev pub Leaves : (Store A → Type 0) → Option (Store A) → Type 0
  Leaves P none = ⊥
  Leaves P (some s) = P s

  reads-Shows :
      (s : Store A) (t : View A)
      → Shows s t
      → Leaves (λ u. Shows u (view_event reads t)) (list_event reads s)
  unfolding list_event
  reads-Shows s t ok =
      let w = s.heap in
      let (p, e) = read_at w 0 ok.list in
      let known = copy_handle-read w p ok.own e in
      let counted = copy_handle-IsValid w 0 ok.own ok.sound in
      elim (Option-cases (copy_handle w 0)) [
        | inl n ↦ absurd (rw n at known)
        | inr (v, made) ↦
            let (count, new, same) = (rw made at known) in
            let new_handle : elem w.handles s.copies ≡ false =
              Shown-fresh w s.copies t.snapshots ok.each in
            rw (list_event, made)
              (record {
                sound = (rw made at counted);
                own = omega (arith, count);
                list = same 0 ok.own ∙ ok.list;
                each = (
                  new ∙ ok.list,
                  ok.own,
                  omega (arith, count),
                  new_handle,
                  Shown-keep w v s.copies t.snapshots (omega (arith, count))
                      (λ h pos lt l. same h lt) ok.each,
                );
              })
      ]

  drops-Shows :
      (i : ℕ) (s : Store A) (t : View A)
      → Shows s t
      → Leaves (λ u. Shows u (view_event (drops i) t)) (list_event (drops i) s)
  unfolding list_event
  drops-Shows i s t ok =
      let w = s.heap in
      elim (Option-cases (at_number i s.copies)) [
        | inl out ↦ rw (list_event, out, no_drop w i s.copies t.snapshots ok.each out) ok
        | inr (h, there) ↦
            let (pos, lt, other) = drop_other w i h s.copies t.snapshots ok.each there in
            let count = destroy-handles w h in
            rw (list_event, there)
              (record {
                sound = destroy-IsValid w h lt ok.sound;
                own = omega (arith, count, ok.own);
                list = destroy-read w h 0 (λ z. omega arith) ∙ ok.list;
                each =
                    Shown-keep w (destroy w h) (drop_at i s.copies) (drop_at i t.snapshots)
                      (omega (arith, count))
                      (λ k p l e. destroy-read w h k (λ z. ground (arith, other, e, z)))
                      (drop-Shown w i s.copies t.snapshots ok.each);
              })
      ]

  changes-Shows :
      (f : A → A) (s : Store A) (t : View A)
      → Shows s t
      → Leaves (λ u. Shows u (view_event (changes f) t)) (list_event (changes f) s)
  unfolding list_event change_list
  changes-Shows f s t ok =
      let w = s.heap in
      let (p, e) = read_at w 0 ok.list in
      let known = write-own w p ok.own e in
      let counted = write-IsValid w 0 ok.own ok.sound in
      let beside : (h : ℕ)
          → 0 < h
          → h < w.handles
          → Returns
              (λ v.
                (read (assign_value v 0 (f t.current)) h ≡ read w h)
                × (read (assign_value v 0 (f t.current)) 0 ≡ some (f t.current)))
              (write w 0) =
        λ h pos lt. write-read w 0 h p (f t.current) ok.sound ok.own lt (λ z. omega arith) e in
      elim (Option-cases (write w 0)) [
        | inl n ↦ absurd (rw n at known)
        | inr (v, made) ↦
            let (count, same, assigned) = (rw made at known) in
            let shown : read v 0 ≡ some t.current = same ∙ ok.list in
            let u = assign_value v 0 (f t.current) in
            let handles = assign_value-handles v 0 (f t.current) in
            let done : change_list f w ≡ some u = rw (change_list, made, shown) refl in
            rw (list_event, done)
              (record {
                sound = assign_value-IsValid v 0 (f t.current) (rw made at counted);
                own = omega (arith, count, ok.own, handles);
                list = assigned (f t.current);
                each =
                    Shown-keep w u s.copies t.snapshots (omega (arith, count, handles))
                      (λ h pos lt l. (rw made at beside h pos lt).0) ok.each;
              })
      ]

  event-Shows :
      (e : ListEvent A) (s : Store A) (t : View A)
      → Shows s t
      → Leaves (λ u. Shows u (view_event e t)) (list_event e s)
  event-Shows reads s t ok = reads-Shows s t ok
  event-Shows (drops i) s t ok = drops-Shows i s t ok
  event-Shows (changes f) s t ok = changes-Shows f s t ok

  -- A signal's slot list refines one that is copied for every reader: from a state that shows such a
  -- list and its copies, whatever readers begin and end and whatever changes the list in between, in
  -- every order, no null pointer is met, the signal shows the list with all the changes so far, and
  -- every reader that has not ended shows the list as it was when it began.
  pub list_events-Shows :
      (es : List (ListEvent A)) (s : Store A) (t : View A)
      → Shows s t
      → Leaves (λ u. Shows u (view_events es t)) (list_events es s)
  unfolding list_events
  list_events-Shows [] s t ok = ok
  list_events-Shows (e ∷ es) s t ok =
      let first = event-Shows e s t ok in
      elim (Option-cases (list_event e s)) [
        | inl n ↦ absurd (rw n at first)
        | inr (u, made) ↦
            rw (list_events, made) (list_events-Shows es u (view_event e t) (rw made at first))
      ]
