-- ===== src/Connect/Race.antt =====
-- core/signal.hpp, `connect` by several threads at once. The search for an equal slot and
-- `add_slot` lock the signal's mutex one after the other, and between the two it is free.
use modern_signal_slot.Base.{
  ℕ, suc, ◌≡◌, refl, sym, ap, ◌∙◌, Bool, true, false, ◌||◌, List, [], ◌∷◌, Option, none, some,
  arith, subst, get_elem?, set, if◌then◌else◌, Option-cases, inl, inr, ◌==◌, ==-refl, elem,
  elem-perm, keep,
}
use modern_signal_slot.Slot.{Slot, Body, update, make_slot, has_flag, unique_connection}
use modern_signal_slot.Signal.Find.{first, get_slot_lem}
use modern_signal_slot.Signal.{Group, get_slot, add_slot, slots_of}
use modern_signal_slot.Signal.Add.{place-perm}
use modern_signal_slot.World.{World, set_signal}
use modern_signal_slot.World.Valid.{IsValid, listed}
use modern_signal_slot.Connect.Unique.{equal_slots}
use modern_signal_slot.Connect.{Options, is_unique, connect_slot}
use modern_signal_slot.Connect.Valid.{connect_slot-IsValid}
use modern_signal_slot.Connect.Undo.{Connected, connect_slot-Connected}

-- Where a thread is in its connect: before `get_slot`, behind it with the slot found, before
-- `add_slot`, behind the connect with the slot of its connection.
pub data ConnectPlace : Type 0 where
  searching : ConnectPlace
  deciding : Option ℕ → ConnectPlace
  adding : ConnectPlace
  over : Option ℕ → ConnectPlace

abbrev never : Slot → Bool
never s = false

keep-never : (xs : List ℕ) → keep (λ b. false) xs ≡ []
keep-never [] = refl
keep-never (x ∷ xs) = keep-never xs

get_slot-never : (gs : List Group) → get_slot (λ b. false) gs ≡ none
get_slot-never gs = get_slot_lem (λ b. false) gs ∙ ap first (keep-never (slots_of gs))

-- Both threads search before either adds.
abbrev pub both_search : List ℕ
both_search = 0 ∷ 0 ∷ 1 ∷ 1 ∷ 0 ∷ 1 ∷ []

module _ {A U : Type 0} (k : ℕ) (same : Slot → Bool) (body : ℕ → Body) (opt : Options) where
  -- `make_slot`, `set_unique` and `add_slot`: the new slot is the thread's own until it is added.
  pub add_new : World A U → World A U × Option ℕ
  add_new w =
      let a = w.allocated in
      let fresh = make_slot k (body a) opt.type opt.queue opt.gid in
      let s = record fresh { m_unique = has_flag opt.type unique_connection } in
      let (σ, groups) = add_slot (update w.slots a s) (w.signals k).m_slots a in
      (
        set_signal (record w { slots = σ; allocated = suc a }) k
            (record (w.signals k) { m_slots = groups }),
        some a,
      )

  -- One step of a thread that connects to signal `k`.
  pub advance_connect : ConnectPlace → World A U → World A U × ConnectPlace
  advance_connect searching w =
      (w, deciding (get_slot (λ b. same (w.slots b)) (w.signals k).m_slots))
  advance_connect (deciding o) w = (w, if is_unique w o then over none else adding)
  advance_connect adding w = let (w', conn) = add_new w in (w', over conn)
  advance_connect (over conn) w = (w, over conn)

  -- A step of the thread of number `i`, and the steps of a schedule.
  abbrev pub step_connect : ℕ → World A U × List ConnectPlace → World A U × List ConnectPlace
  step_connect i (w, ps) = elim (get_elem? ps i) [
    | none ↦ (w, ps)
    | some p ↦ let (w', p') = advance_connect p w in (w', set ps i p')
  ]

  abbrev pub run_connects : List ℕ → World A U × List ConnectPlace → World A U × List ConnectPlace
  run_connects [] s = s
  run_connects (i ∷ is) s = run_connects is (step_connect i s)

  -- A thread that connects while no other runs does what `connect_slot` does.
  pub alone-connect_slot :
      (w : World A U)
      → run_connects (0 ∷ 0 ∷ 0 ∷ []) (w, searching ∷ [])
        ≡ (let (v, conn) = connect_slot w k same body opt in (v, over conn ∷ []))
  unfolding advance_connect connect_slot add_new
  alone-connect_slot w = ground arith

  -- The step that adds is a connect whose search finds nothing.
  add_new_lem : (w : World A U) → add_new w ≡ connect_slot w k never body opt
  unfolding add_new connect_slot
  add_new_lem w = rw (get_slot-never (w.signals k).m_slots) refl

  advance_connect-IsValid :
      (p : ConnectPlace) (w : World A U) → IsValid w → IsValid (advance_connect p w).0
  unfolding advance_connect
  advance_connect-IsValid searching w ok = ok
  advance_connect-IsValid (deciding o) w ok = ok
  advance_connect-IsValid adding w ok =
      rw (add_new_lem w) (connect_slot-IsValid w k never body opt ok)
  advance_connect-IsValid (over conn) w ok = ok

  step_connect-IsValid :
      (i : ℕ) (w : World A U) (ps : List ConnectPlace)
      → IsValid w
      → IsValid (step_connect i (w, ps)).0
  step_connect-IsValid i w ps ok = elim (Option-cases (get_elem? ps i)) [
    | inl out ↦ rw (out, step_connect) ok
    | inr (p, there) ↦ rw (there, step_connect) (advance_connect-IsValid p w ok)
  ]

  -- Threads that connect to a signal at once keep the shared state valid, in whatever order they
  -- run: every slot list stays well formed, and only slots that were made stand in one list each.
  pub run_connects-IsValid :
      (schedule : List ℕ) (w : World A U) (ps : List ConnectPlace)
      → IsValid w
      → IsValid (run_connects schedule (w, ps)).0
  run_connects-IsValid [] w ps ok = ok
  run_connects-IsValid (i ∷ is) w ps ok =
      let (w', ps') = step_connect i (w, ps) in
      run_connects-IsValid is w' ps' (step_connect-IsValid i w ps ok)

  search_twice :
      (w : World A U)
      → equal_slots w k same body opt ≡ []
      → run_connects both_search (w, searching ∷ searching ∷ []) ≡ (
          let (v, first_conn) = add_new w in
          let (u, second_conn) = add_new v in (u, over first_conn ∷ over second_conn ∷ []))
  unfolding advance_connect
  search_twice w none_equal =
      let nothing : get_slot (λ b. same (w.slots b)) (w.signals k).m_slots ≡ none =
        get_slot_lem (λ b. same (w.slots b)) (w.signals k).m_slots ∙ ap first none_equal in
      simp nothing refl

  add_new-conn : (w : World A U) → (add_new w).1 ≡ some w.allocated
  unfolding add_new
  add_new-conn w = refl

  add_new-allocated : (w : World A U) → (add_new w).0.allocated ≡ suc w.allocated
  unfolding add_new
  add_new-allocated w = refl

  add_new-Connected : (w : World A U) → Connected w k w.allocated opt (add_new w).0
  add_new-Connected w = rw (add_new_lem w) (
      connect_slot-Connected w k never body opt w.allocated
        (sym (ap (λ r. r.1) (add_new_lem w)) ∙ add_new-conn w))

  add_new-listed :
      (w : World A U) (b : ℕ)
      → elem b (listed (add_new w).0 k) ≡ (w.allocated == b || elem b (listed w k))
  add_new-listed w b =
      rw (add_new-Connected w).groups
        (elem-perm b (place-perm opt.gid w.allocated (w.signals k).m_slots))

  -- Two threads have connected the slots `a` and `suc a`, both are unique ones and both stand in
  -- the signal's list.
  pub record BothConnected (a : ℕ) (v : World A U) (ps : List ConnectPlace) : Type 0 where
    pub places : ps ≡ over (some a) ∷ over (some (suc a)) ∷ []
    pub first_unique : (v.slots a).m_unique ≡ true
    pub second_unique : (v.slots (suc a)).m_unique ≡ true
    pub first_listed : elem a (listed v k) ≡ true
    pub second_listed : elem (suc a) (listed v k) ≡ true

  -- There is an order in which two threads that make the same unique connect at once, where no slot is
  -- equal to theirs before, are both accepted: each gets a connection to a slot of its own, both slots
  -- are unique ones and both stand in the signal's list.
  pub both_connect :
      (w : World A U)
      → equal_slots w k same body opt ≡ []
      → has_flag opt.type unique_connection ≡ true
      → let (v, ps) = run_connects both_search (w, searching ∷ searching ∷ []) in
        BothConnected w.allocated v ps
  both_connect w none_equal unique =
      let v = (add_new w).0 in
      let made = add_new-allocated w in
      let c = add_new-Connected w in
      let d = subst (λ a. Connected v k a opt (add_new v).0) made (add_new-Connected v) in
      let beside = d.beside w.allocated (λ e. omega arith) in
      let here : elem w.allocated (listed v k) ≡ true =
        rw (add_new-listed w w.allocated, ==-refl w.allocated) refl in
      subst (λ s. BothConnected w.allocated s.0 s.1) (sym (search_twice w none_equal))
        (record {
          places = rw (add_new-conn w, add_new-conn v, made) refl;
          first_unique = rw beside (c.unique ∙ unique);
          second_unique = d.unique ∙ unique;
          first_listed = rw (add_new-listed v w.allocated, here) (ground arith);
          second_listed =
              rw (add_new-listed v (suc w.allocated), made, ==-refl (suc w.allocated)) refl;
        })
