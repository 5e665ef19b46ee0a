-- ===== src/Signal/Sweep.antt =====
-- `disconnect_if`: its loop over one group ends within its fuel, and takes out exactly the slots
-- that the condition names.
use mathlib.Core.List.Perm
use modern_signal_slot.Base.{
  ℕ, zero, suc, ◌+◌, ◌≤◌, ◌<◌, ℤ, ◌≡◌, refl, inl, inr, Bool, true, false, not, List, Perm, some,
  arith, length, get_elem?, get_elem?-lt, get_elem?-none, keep, keep-eq_self, keep-perm,
  Option-cases, Bool-cases, length-perm, dec_lt,
}
use modern_signal_slot.Slot.{Slots}
use modern_signal_slot.Signal.{erase_at, sweep}
use modern_signal_slot.Signal.WellFormed.{Indexed}
use modern_signal_slot.Signal.Same.{SameBut, SameBut-refl, SameBut-trans}
use modern_signal_slot.Signal.Erase.{
  erase_at-perm, erase_at-Indexed, erase_at-SameBut, erase_at-before,
}

module _ (cond : ℕ → Bool) (gid : ℤ) where
  abbrev others : ℕ → Bool
  others a = not (cond a)

  -- The result of the loop from a state in which the slots before `i` are to stay.
  pub record Swept (σ : Slots) (slts : List ℕ) (count : ℕ) (r : Slots × List ℕ × ℕ) : Type 0 where
    pub indexed : Indexed r.0 (record { slts = r.1; gid = gid })
    pub same : SameBut gid σ r.0
    pub left : Perm r.1 (keep others slts)
    pub counted : r.2 + length r.1 ≡ count + length slts

  abbrev Passed : List ℕ → ℕ → Type 0
  Passed slts i = (j a : ℕ) → j < i → get_elem? slts j ≡ some a → others a ≡ true

  stop :
      (σ : Slots) (slts : List ℕ) (i count : ℕ)
      → Indexed σ (record { slts = slts; gid = gid })
      → Passed slts i
      → length slts ≤ i
      → Swept σ slts count (σ, slts, count)
  stop σ slts i count ok passed le = record {
    indexed = ok;
    same = SameBut-refl gid σ;
    left =
        rw (keep-eq_self others slts (λ j a h. passed j a (omega (arith, get_elem?-lt slts j h)) h))
          (Perm.refl slts);
    counted = refl;
  }

  move_on :
      (slts : List ℕ) (i x : ℕ)
      → Passed slts i
      → get_elem? slts i ≡ some x
      → cond x ≡ false
      → Passed slts (i + 1)
  move_on slts i x passed e f j a lt h = elim (dec_lt j i) [
    | yes before ↦ passed j a before h
    | no here ↦ let k : j ≡ i = omega arith in ground arith
  ]

  -- One round that removes the slot `x`, from the invariant of the rounds that follow.
  take_out :
      (fuel : ℕ) (σ : Slots) (slts : List ℕ) (i count x : ℕ)
      → Indexed σ (record { slts = slts; gid = gid })
      → Passed slts i
      → length slts ≤ suc fuel + i
      → get_elem? slts i ≡ some x
      → cond x ≡ true
      → let (τ, rest) = erase_at σ slts i x in
        (Indexed τ (record { slts = rest; gid = gid })
          → Passed rest i
          → length rest ≤ fuel + i
          → Swept τ rest (count + 1) (sweep fuel cond τ rest i (count + 1)))
        → Swept σ slts count (sweep fuel cond τ rest i (count + 1))
  take_out fuel σ slts i count x ok passed le e t ih = record {
    indexed = after.indexed;
    same = SameBut-trans σ _ _ (erase_at-SameBut σ slts i x e gid ok) after.same;
    left =
        Perm.trans after.left (Perm.symm (rw t at (keep-perm others (erase_at-perm σ slts i x e))));
    counted = omega (arith, after.counted, shorter);
  }
    where
      shorter : length slts ≡ suc (length (erase_at σ slts i x).1)
      shorter = length-perm (erase_at-perm σ slts i x e)

      after :
          Swept
            (erase_at σ slts i x).0
            (erase_at σ slts i x).1
            (count + 1)
            (sweep fuel cond (erase_at σ slts i x).0 (erase_at σ slts i x).1 i (count + 1))
      after =
          ih (erase_at-Indexed σ slts i x e gid ok)
            (λ j a lt h. passed j a lt (erase_at-before σ slts i x e j a lt h))
            (omega (arith, shorter))

  pub sweep-Swept :
      (fuel : ℕ) (σ : Slots) (slts : List ℕ) (i count : ℕ)
      → Indexed σ (record { slts = slts; gid = gid })
      → Passed slts i
      → length slts ≤ fuel + i
      → Swept σ slts count (sweep fuel cond σ slts i count)
  unfolding sweep
  sweep-Swept zero σ slts i count ok passed le = stop σ slts i count ok passed (omega arith)
  sweep-Swept (suc fuel) σ slts i count ok passed le = elim (Option-cases (get_elem? slts i)) [
    | inl e ↦ rw (e, sweep) (stop σ slts i count ok passed (get_elem?-none slts i e))
    | inr (x, e) ↦ elim (Bool-cases (cond x)) [
      | inl t ↦
          rw (e, t, sweep)
            (take_out fuel σ slts i count x ok passed le e t
              (sweep-Swept fuel (erase_at σ slts i x).0 (erase_at σ slts i x).1 i (count + 1)))
      | inr f ↦
          rw (e, f, sweep)
            (sweep-Swept fuel σ slts (i + 1) count ok
              (λ j a lt h. move_on slts i x passed e f j a lt h) (omega arith))
    ]
  ]
