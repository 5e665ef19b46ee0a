-- ===== src/Connect/Twice.antt =====
-- Connecting the same twice.
use modern_signal_slot.Base.{
  ℕ, ◌≡◌, ◌≢◌, refl, Bool, true, false, ◌||◌, List, [], ◌∷◌, some, none, arith, keep, ◌==◌, ==-refl,
  Bool-cases, inl, inr, elem, elem-perm,
}
use modern_signal_slot.Slot.{Slot, Body, has_flag, unique_connection}
use modern_signal_slot.Signal.{slots_of}
use modern_signal_slot.Signal.Add.{place-perm}
use modern_signal_slot.Signal.Find.{first}
use modern_signal_slot.World.{World}
use modern_signal_slot.Connect.{Options, connect_slot}
use modern_signal_slot.Connect.Unique.{equal_slots, connect_slot-refused}
use modern_signal_slot.Connect.Undo.{connect_slot-Connected}

-- The only element that passes a test is the first that does.
first-keep_only :
    (p : ℕ → Bool) (xs : List ℕ) (a : ℕ)
    → elem a xs ≡ true
    → p a ≡ true
    → ((b : ℕ) → elem b xs ≡ true → b ≢ a → p b ≡ false)
    → first (keep p xs) ≡ some a
first-keep_only p [] a e h only = cc
first-keep_only p (x ∷ xs) a e h only = elim (Bool-cases (x == a)) [
  | inl same ↦ ground (arith, same)
  | inr other ↦
      let off : p x ≡ false = only x (ground arith) (λ q. ground arith) in
      ground (arith, off, first-keep_only p xs a (ground arith) h (λ b l. only b (ground arith)))
]

keep-nil : (p : ℕ → Bool) (xs : List ℕ) (b : ℕ) → keep p xs ≡ [] → elem b xs ≡ true → p b ≡ false
keep-nil p [] b n e = cc
keep-nil p (x ∷ xs) b n e = ground (arith, keep-nil p xs b)

module _ {A U : Type 0} (w : World A U) (k : ℕ) (same : Slot → Bool) (body : ℕ → Body)
    (opt : Options) where
  -- Where no slot is equal to the new one before it, a unique connect works once: it is accepted,
  -- and any further connect of an equal slot, whatever its type and group, gets the empty connection
  -- and changes nothing.
  pub connect_slot-twice :
      (body' : ℕ → Body) (opt' : Options)
      → equal_slots w k same body opt ≡ []
      → has_flag opt.type unique_connection ≡ true
      → same ((connect_slot w k same body opt).0.slots w.allocated) ≡ true
      → let (v, conn) = connect_slot w k same body opt in
        let (u, again) = connect_slot v k same body' opt' in
        (conn ≡ some w.allocated) × (again ≡ none) × (u ≡ v)
  connect_slot-twice body' opt' none_equal unique equal =
      let v : World A U = (connect_slot w k same body opt).0 in
      let a = w.allocated in
      let made : (connect_slot w k same body opt).1 ≡ some a =
        (rw none_equal at (connect_slot-refused w k same body opt)).0 in
      let c = connect_slot-Connected w k same body opt a made in
      let before = slots_of (w.signals k).m_slots in
      let listed : (b : ℕ) → elem b (slots_of (v.signals k).m_slots) ≡ (a == b || elem b before) =
        λ b. rw c.groups (elem-perm b (place-perm opt.gid a (w.signals k).m_slots)) in
      let there : first (equal_slots v k same body' opt') ≡ some a =
        first-keep_only (λ b. same (v.slots b)) (slots_of (v.signals k).m_slots) a
          (rw (listed a, ==-refl a) refl) equal
          (λ b l other.
            rw (c.beside b other) (
              keep-nil (λ b. same (w.slots b)) before b none_equal
                (ground (arith, listed b, l)))) in
      let (again, kept) =
        (rw (there, c.unique, unique) at (connect_slot-refused v k same body' opt')) in
      (made, again, kept)
