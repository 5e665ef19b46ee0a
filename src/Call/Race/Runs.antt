-- ===== src/Call/Race/Runs.antt =====
-- The runs of a slot's function by a thread that calls the slot while no other runs, from the slot's
-- members alone. The program's function counts its runs.
use modern_signal_slot.Base.{
  ℕ, ◌+◌, ◌≡◌, refl, ap, ◌∙◌, Bool, true, false, not, ◌&&◌, none, some, arith, ◌==◌, is_some,
  Bool-cases, Option-cases, inl, inr, ==_iff,
}
use modern_signal_slot.Slot.{
  Slot, Body, slot, slot_extended, slot_pmf, slot_pmf_extended, slot_tracked, direct_connection,
}
use modern_signal_slot.Slot.Pointers.{lock_object}
use modern_signal_slot.World.{World}
use modern_signal_slot.Call.{
  can_emit, set_emitted, effective_type, is_current, invoke, dispatch, post, call_untracked,
}
use modern_signal_slot.Call.Steps.{dispatch-direct}
use modern_signal_slot.Call.Alive.{disconnect_slot-user, set_emitted-user}
use modern_signal_slot.Call.Order.{user_code, tracks_alive}
use modern_signal_slot.Call.Race.{entering, locking, at_emit, guard_of, leave, advance, alone}
use modern_signal_slot.Call.Race.Alone.{
  alone-at_emit, lock_free, lock_there, lock_dead, alone-exchange, enter_off, enter_on,
}
use modern_signal_slot.Call.Race.Window.{count_run}

abbrev pub one_if : Bool → ℕ
one_if true = 1
one_if false = 0

-- The conditions under which a call runs the function at once.
abbrev pub ready : {A U : Type 0} → World A U → Slot → Bool
ready w s =
    (s.m_connected && not s.m_blocked)
    && (tracks_alive w.objects s.body
        && (not (s.m_singleshot && s.m_emitted) && effective_type w s == direct_connection))

module _ {A : Type 0} (assertions : Bool) (a : ℕ) (args : A) where
  abbrev code : Body → A → World A ℕ → World A ℕ
  code = user_code assertions count_run

  invoke-user :
      (w : World A ℕ) → (invoke code w a args).user ≡ w.user + one_if (w.slots a).m_connected
  unfolding invoke
  invoke-user w = ground (arith, disconnect_slot-user (record w { user = w.user + 1 }) a)

  other-user :
      (w : World A ℕ)
      → effective_type w (w.slots a) == direct_connection ≡ false
      → (leave w (dispatch assertions code w a args)).0.user ≡ w.user
  unfolding dispatch post
  other-user w other = ground arith

  dispatch-user :
      (w : World A ℕ)
      → (w.slots a).m_connected ≡ true
      → (leave w (dispatch assertions code w a args)).0.user
        ≡ w.user + one_if (effective_type w (w.slots a) == direct_connection)
  dispatch-user w on = elim (Bool-cases (effective_type w (w.slots a) == direct_connection)) [
    | inl direct ↦
        let e = dispatch-direct assertions code w a args ((==_iff _ _).0 direct) in
        simp direct
          (ap (λ c. (leave w c).0.user) e ∙ invoke-user w ∙ ap (λ b. w.user + one_if b) on)
    | inr other ↦ simp other (omega (arith, other-user w other))
  ]

  set_emitted-same :
      (w : World A ℕ)
      → (((set_emitted w a).slots a).m_connected ≡ (w.slots a).m_connected)
        × (effective_type (set_emitted w a) ((set_emitted w a).slots a)
            ≡ effective_type w (w.slots a))
  unfolding set_emitted effective_type is_current
  set_emitted-same w = ground arith

  untracked-user :
      (w : World A ℕ)
      → (w.slots a).m_connected ≡ true
      → (leave (set_emitted w a) (call_untracked assertions code w a args)).0.user
        ≡ w.user
          + one_if (
              not ((w.slots a).m_singleshot && (w.slots a).m_emitted)
              && effective_type w (w.slots a) == direct_connection)
  unfolding call_untracked can_emit
  untracked-user w on =
      let v = set_emitted w a in
      let (conn, type) = set_emitted-same w in
      elim (Bool-cases ((w.slots a).m_singleshot && (w.slots a).m_emitted)) [
        | inl spent ↦ simp spent (omega arith)
        | inr may ↦ simp may (
            dispatch-user v (conn ∙ on)
            ∙ ap (λ u. u + one_if (effective_type v (v.slots a) == direct_connection))
                (set_emitted-user w a)
            ∙ ap (λ t. w.user + one_if (t == direct_connection)) type)
      ]

  tracks-guard :
      (objects : ℕ → Bool) (b : Body)
      → tracks_alive objects b
        ≡ (elim (guard_of b) [ none ↦ true | some o ↦ is_some (lock_object objects o) ])
  tracks-guard objects (slot c) = refl
  tracks-guard objects (slot_extended c n) = refl
  tracks-guard objects (slot_pmf o c) = refl
  tracks-guard objects (slot_pmf_extended o c n) = refl
  tracks-guard objects (slot_tracked o c) = refl

  abbrev rest_ready : World A ℕ → Bool
  rest_ready w =
      not ((w.slots a).m_singleshot && (w.slots a).m_emitted)
      && effective_type w (w.slots a) == direct_connection

  abbrev after_lock : World A ℕ → ℕ
  after_lock w = (alone assertions code 8 a args (w, locking)).0.user

  goes_on :
      (w : World A ℕ)
      → (w.slots a).m_connected ≡ true
      → advance assertions code a args locking w ≡ (w, at_emit)
      → after_lock w ≡ w.user + one_if (rest_ready w)
  goes_on w on free =
      ap (λ s. (alone assertions code 7 a args s).0.user) free
      ∙ ap (λ s. s.0.user) (alone-at_emit assertions code w a args)
      ∙ untracked-user w on

  locking-user :
      (w : World A ℕ)
      → (w.slots a).m_connected ≡ true
      → after_lock w ≡ w.user + one_if (tracks_alive w.objects (w.slots a).body && rest_ready w)
  locking-user w on = elim (Option-cases (guard_of (w.slots a).body)) [
    | inl free ↦
        let there : tracks_alive w.objects (w.slots a).body ≡ true =
          tracks-guard w.objects (w.slots a).body ∙ rw free refl in
        simp there (goes_on w on (lock_free assertions code w a args free))
    | inr (o, guarded) ↦
        let tracks : tracks_alive w.objects (w.slots a).body ≡ is_some (lock_object w.objects o) =
          tracks-guard w.objects (w.slots a).body ∙ rw guarded refl in
        elim (Option-cases (lock_object w.objects o)) [
          | inl dead ↦
              let gone : tracks_alive w.objects (w.slots a).body ≡ false = tracks ∙ rw dead refl in
              let e : after_lock w ≡ w.user =
                ap (λ s. (alone assertions code 7 a args s).0.user)
                  (lock_dead assertions code w a args guarded dead)
                ∙ ap (λ s. s.0.user) (alone-exchange assertions code w a args)
                ∙ disconnect_slot-user w a in
              simp gone (omega (arith, e))
          | inr (x, there) ↦
              let alive : tracks_alive w.objects (w.slots a).body ≡ true = tracks ∙ rw there refl in
              simp alive (goes_on w on (lock_there assertions code w a args guarded there))
        ]
  ]

  -- A thread that calls a slot while no other runs has run the slot's function, within ten steps,
  -- exactly once if the slot is connected and not blocked, its tracked object, if it has one, is
  -- alive, it is not a singleshot slot that has emitted, and its connection type is a direct one
  -- here; and never in any other case. The function changes only the program's state.
  pub alone_runs :
      (w : World A ℕ)
      → (alone assertions code 10 a args (w, entering)).0.user
        ≡ w.user + one_if (ready w (w.slots a))
  alone_runs w = elim (Bool-cases ((w.slots a).m_connected && not (w.slots a).m_blocked)) [
    | inl on ↦ simp on (
        ap (λ s. (alone assertions code 8 a args s).0.user) (enter_on assertions code w a args on)
        ∙ locking-user w (ground arith))
    | inr off ↦
        simp off (omega (arith, ap (λ s. s.0.user) (enter_off assertions code w a args off)))
  ]
