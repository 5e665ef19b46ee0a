-- ===== src/Signal/Disconnect.antt =====
-- `disconnect_if` over all groups: the list stays well formed, every group loses exactly the slots
-- that the condition names, and their number is returned.
use mathlib.Core.List.Perm
use modern_signal_slot.Base.{
  ℕ, ◌+◌, ◌≡◌, refl, sym, ◌∙◌, subst, ℤ, ◌<ℤ◌, Bool, not, List, [], ◌∷◌, Perm, arith, length,
  length-append, length-perm, keep, keep-append, length-keep-not,
}
use modern_signal_slot.Slot.{Slots}
use modern_signal_slot.Signal.{
  Group, sweep, sweep_all, disconnect_if, slots_of, slot_count, count_from,
}
use modern_signal_slot.Signal.WellFormed.{Above, Ascending, AllIndexed, IsWellFormed}
use modern_signal_slot.Signal.Same.{plain, ne_of_above, AllIndexed-SameBut}
use modern_signal_slot.Signal.Sweep.{Swept, sweep-Swept}

count_from-eq-add :
    (count : ℕ) (gs : List Group) → count_from count gs ≡ count + length (slots_of gs)
unfolding count_from
count_from-eq-add count [] = omega arith
count_from-eq-add count (g ∷ gs) =
    omega (arith, count_from-eq-add (count + length g.slts) gs, length-append g.slts (slots_of gs))

pub slot_count-eq-length : (gs : List Group) → slot_count gs ≡ length (slots_of gs)
unfolding slot_count
slot_count-eq-length gs = omega (arith, count_from-eq-add 0 gs)

module _ (cond : ℕ → Bool) where
  -- The same groups, each with the slots that the condition does not name, in some order.
  abbrev pub Filtered : List Group → List Group → Type 0
  Filtered [] [] = Unit {0}
  Filtered [] (h ∷ hs) = ⊥
  Filtered (g ∷ gs) [] = ⊥
  Filtered (g ∷ gs) (h ∷ hs) =
      (h.gid ≡ g.gid) × Perm h.slts (keep (λ a. not (cond a)) g.slts) × Filtered gs hs

  Filtered-Above : (z : ℤ) (gs hs : List Group) → Filtered gs hs → Above z gs → Above z hs
  Filtered-Above z [] [] f a = tt
  Filtered-Above z [] (h ∷ hs) f a = absurd f
  Filtered-Above z (g ∷ gs) [] f a = absurd f
  Filtered-Above z (g ∷ gs) (h ∷ hs) f a =
      (subst (λ w. z <ℤ w) (sym f.0) a.0, Filtered-Above z gs hs f.2 a.1)

  Filtered-Ascending : (gs hs : List Group) → Filtered gs hs → Ascending gs → Ascending hs
  Filtered-Ascending [] [] f a = tt
  Filtered-Ascending [] (h ∷ hs) f a = absurd f
  Filtered-Ascending (g ∷ gs) [] f a = absurd f
  Filtered-Ascending (g ∷ gs) (h ∷ hs) f a = (
    subst (λ w. Above w hs) (sym f.0) (Filtered-Above g.gid gs hs f.2 a.0),
    Filtered-Ascending gs hs f.2 a.1,
  )

  Filtered-perm :
      (gs hs : List Group)
      → Filtered gs hs
      → Perm (slots_of hs) (keep (λ a. not (cond a)) (slots_of gs))
  Filtered-perm [] [] f = Perm.nil
  Filtered-perm [] (h ∷ hs) f = absurd f
  Filtered-perm (g ∷ gs) [] f = absurd f
  Filtered-perm (g ∷ gs) (h ∷ hs) f =
      rw (keep-append (λ a. not (cond a)) g.slts (slots_of gs))
        (Perm.append f.1 (Filtered-perm gs hs f.2))

  record AllSwept (σ : Slots) (gs : List Group) (count : ℕ) (r : Slots × List Group × ℕ)
      : Type 0 where
    indexed : AllIndexed r.0 r.1
    frame : (a : ℕ) → Above (σ a).m_group gs → r.0 a ≡ σ a
    same : (a : ℕ) → plain (r.0 a) ≡ plain (σ a)
    filtered : Filtered gs r.1
    counted : r.2 + length (slots_of r.1) ≡ count + length (slots_of gs)

  -- The results for one group and for the groups behind it, put together.
  join-AllSwept :
      (σ : Slots) (g : Group) (gs : List Group) (count : ℕ) (q : Slots × List ℕ × ℕ)
      (r : Slots × List Group × ℕ)
      → Above g.gid gs
      → Swept cond g.gid σ g.slts count q
      → AllSwept q.0 gs q.2 r
      → AllSwept σ (g ∷ gs) count (r.0, record { slts = q.1; gid = g.gid } ∷ r.1, r.2)
  join-AllSwept σ g gs count q r above first rest = record {
    indexed = (
      λ i a h.
          let (index, group) = first.indexed i a h in
          rw (rest.frame a (subst (λ z. Above z gs) (sym group) above)) (index, group),
      rest.indexed,
    );
    frame = λ a h.
        let kept = first.same.others a (λ e. ne_of_above (σ a).m_group g.gid h.0 (sym e)) in
        rest.frame a (subst (λ s. Above s.m_group gs) (sym kept) h.1) ∙ kept;
    same = λ a. rest.same a ∙ first.same.same a;
    filtered = (refl, first.left, rest.filtered);
    counted = omega (
      arith,
      first.counted,
      rest.counted,
      length-append q.1 (slots_of r.1),
      length-append g.slts (slots_of gs),
    );
  }

  sweep_all-AllSwept :
      (σ : Slots) (gs : List Group) (count : ℕ)
      → Ascending gs
      → AllIndexed σ gs
      → AllSwept σ gs count (sweep_all cond σ gs count)
  unfolding sweep_all
  sweep_all-AllSwept σ [] count up ok = record {
    indexed = tt;
    frame = λ a h. refl;
    same = λ a. refl;
    filtered = tt;
    counted = refl;
  }
  sweep_all-AllSwept σ (g ∷ gs) count up ok =
      let first =
        sweep-Swept cond g.gid (length g.slts) σ g.slts 0 count ok.0
          (λ j a lt. absurd (omega arith)) (omega arith) in
      let q = sweep (length g.slts) cond σ g.slts 0 count in
      join-AllSwept σ g gs count q (sweep_all cond q.0 gs q.2) up.0 first (
        sweep_all-AllSwept q.0 gs q.2 up.1 (AllIndexed-SameBut g.gid σ q.0 gs first.same up.0 ok.1))

  disconnect_if-AllSwept :
      (σ : Slots) (gs : List Group) → IsWellFormed σ gs → AllSwept σ gs 0 (disconnect_if cond σ gs)
  unfolding disconnect_if
  disconnect_if-AllSwept σ gs w = sweep_all-AllSwept σ gs 0 w.ascending w.indexed

  -- On a well-formed slot list `disconnect_if` leaves a well-formed one.
  pub disconnect_if-IsWellFormed :
      (σ : Slots) (gs : List Group)
      → IsWellFormed σ gs
      → let (τ, hs, n) = disconnect_if cond σ gs in IsWellFormed τ hs
  disconnect_if-IsWellFormed σ gs w =
      let s = disconnect_if-AllSwept σ gs w in
      record { ascending = Filtered-Ascending gs _ s.filtered w.ascending; indexed = s.indexed }

  -- On a well-formed slot list `disconnect_if` keeps the groups and their ids, takes out of each
  -- group the slots for which the condition holds and no others, changes nothing of any slot but
  -- its index, and returns the number of slots for which the condition holds.
  pub disconnect_if-exact :
      (σ : Slots) (gs : List Group)
      → IsWellFormed σ gs
      → let (τ, hs, n) = disconnect_if cond σ gs in
        Filtered gs hs
        × ((a : ℕ) → plain (τ a) ≡ plain (σ a))
        × (n ≡ length (keep cond (slots_of gs)))
  disconnect_if-exact σ gs w =
      let s = disconnect_if-AllSwept σ gs w in
      (
        s.filtered,
        s.same,
        omega (
          arith,
          s.counted,
          length-perm (Filtered-perm gs _ s.filtered),
          length-keep-not cond (slots_of gs),
        ),
      )
