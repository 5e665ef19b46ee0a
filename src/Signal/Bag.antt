-- ===== src/Signal/Bag.antt =====
-- An abstract signal: how often each slot stands in the group of each id. It forgets the order in a
-- group, the indices and the empty groups.
use modern_signal_slot.Base.{
  ℕ, suc, ◌-◌, ℤ, ◌==ℤ◌, ==ℤ_iff, ◌≡◌, refl, ap, ◌∙◌, subst, fun_ext, inl, inr, Bool, not, ◌&&◌,
  List, [], ◌∷◌, arith, ◌==◌, if◌then◌else◌, Bool-cases, occurrences, occurrences-append,
  occurrences-perm, occurrences-keep, occurrences_none,
}
use modern_signal_slot.Slot.{Slots}
use modern_signal_slot.Signal.{Group, add_slot, clean, disconnect_if, disconnect_group}
use modern_signal_slot.Signal.WellFormed.{IsWellFormed}
use modern_signal_slot.Signal.Same.{same-group}
use modern_signal_slot.Signal.View.{
  group_slots, group_slots-Indexed, disconnect_group_lem, disconnect_group-IsWellFormed,
}
use modern_signal_slot.Signal.Add.{Absent, add_slot_lem, add_slot-IsWellFormed}
use modern_signal_slot.Signal.Clean.{
  clean-IsWellFormed, clean-view, clean-own, clean-plain, clean_group-cases,
}
use modern_signal_slot.Signal.Erase.{erase_at-perm}
use modern_signal_slot.Signal.Disconnect.{Filtered, disconnect_if-exact, disconnect_if-IsWellFormed}

-- The changes of a slot list: `add_slot`, `disconnect_if`, `disconnect` of a group, `clean`.
pub data Change : Type 0 where
  adds cleans : ℕ → Change
  removes : (ℕ → Bool) → Change
  empties : ℤ → Change

pub change : Slots × List Group → Change → Slots × List Group
change (σ, gs) (adds s) = add_slot σ gs s
change (σ, gs) (cleans s) = clean σ gs s
change (σ, gs) (removes p) = let (τ, hs, n) = disconnect_if p σ gs in (τ, hs)
change (σ, gs) (empties z) = (σ, (disconnect_group z gs).0)

pub changes : Slots × List Group → List Change → Slots × List Group
changes s [] = s
changes s (c ∷ cs) = changes (change s c) cs

abbrev pub Bag : Type 0
Bag = ℤ → ℕ → ℕ

abbrev pub bag : List Group → Bag
bag gs z a = occurrences a (group_slots z gs)

-- What a change means, where `group` tells the group of each slot.
abbrev pub spec : (ℕ → ℤ) → Bag → Change → Bag
spec group b (adds s) z a = if group s ==ℤ z && s == a then suc (b z a) else b z a
spec group b (cleans s) z a = if group s ==ℤ z && s == a then b z a - 1 else b z a
spec group b (removes p) z a = if p a then 0 else b z a
spec group b (empties y) z a = if y ==ℤ z then 0 else b z a

abbrev pub specs : (ℕ → ℤ) → Bag → List Change → Bag
specs group b [] = b
specs group b (c ∷ cs) = specs group (spec group b c) cs

abbrev pub groups_of : Slots → ℕ → ℤ
groups_of σ s = (σ s).m_group

-- A slot that is added is in no group.
abbrev pub Fits : Slots × List Group → Change → Type 0
Fits (σ, gs) (adds s) = Absent s gs
Fits (σ, gs) (cleans s) = Unit {0}
Fits (σ, gs) (removes p) = Unit {0}
Fits (σ, gs) (empties z) = Unit {0}

abbrev pub AllFit : Slots × List Group → List Change → Type 0
AllFit s [] = Unit {0}
AllFit s (c ∷ cs) = Fits s c × AllFit (change s c) cs

Filtered-bag :
    (p : ℕ → Bool) (gs hs : List Group) (z : ℤ) (a : ℕ)
    → Filtered p gs hs
    → bag hs z a ≡ (if p a then 0 else bag gs z a)
Filtered-bag p [] [] z a f = ground arith
Filtered-bag p [] (h ∷ hs) z a f = absurd f
Filtered-bag p (g ∷ gs) [] z a f = absurd f
Filtered-bag p (g ∷ gs) (h ∷ hs) z a f = ground (
  arith,
  f.0,
  occurrences-perm a f.1,
  occurrences-keep (λ b. not (p b)) a g.slts,
  Filtered-bag p gs hs z a f.2,
)

clean-bag :
    (σ : Slots) (gs : List Group) (s : ℕ)
    → IsWellFormed σ gs
    → (a : ℕ)
    → bag (clean σ gs s).1 (σ s).m_group a
      ≡ (if s == a then bag gs (σ s).m_group a - 1 else bag gs (σ s).m_group a)
clean-bag σ gs s ok a =
    let slts = group_slots (σ s).m_group gs in
    rw (clean-own σ s gs) (elim (clean_group-cases σ s slts) [
      | inl (found, e) ↦
          rw e (ground (arith, occurrences-perm a (erase_at-perm σ slts (σ s).m_index s found)))
      | inr (away, e) ↦ rw e (
          ground (
            arith,
            occurrences_none s slts
                (λ i h. away (rw (group_slots-Indexed σ gs (σ s).m_group ok.indexed i s h).0 h)),
          ))
    ])

-- One change and what it means.
change-bag :
    (σ : Slots) (gs : List Group) (c : Change)
    → IsWellFormed σ gs
    → Fits (σ, gs) c
    → (z : ℤ) (a : ℕ) → bag (change (σ, gs) c).1 z a ≡ spec (groups_of σ) (bag gs) c z a
unfolding change
change-bag σ gs (adds s) ok new z a =
    let (_, view) = add_slot_lem σ gs s ok.ascending in
    ground (arith, view z, occurrences-append a (group_slots z gs) (s ∷ []))
change-bag σ gs (cleans s) ok new z a = elim (Bool-cases ((σ s).m_group ==ℤ z)) [
  | inl here ↦
      let e : (σ s).m_group ≡ z = (==ℤ_iff (σ s).m_group z).0 here in
      rw here (
        subst (λ y. bag (clean σ gs s).1 y a ≡ (if s == a then bag gs y a - 1 else bag gs y a)) e
          (clean-bag σ gs s ok a))
  | inr other ↦ rw other (ap (occurrences a) (clean-view σ s gs z (λ e. ground arith)))
]
change-bag σ gs (removes p) ok new z a = Filtered-bag p gs _ z a (disconnect_if-exact p σ gs ok).0
change-bag σ gs (empties y) ok new z a = ground (arith, disconnect_group_lem y gs z)

change-IsWellFormed :
    (σ : Slots) (gs : List Group) (c : Change)
    → IsWellFormed σ gs
    → Fits (σ, gs) c
    → IsWellFormed (change (σ, gs) c).0 (change (σ, gs) c).1
unfolding change
change-IsWellFormed σ gs (adds s) ok new = add_slot-IsWellFormed σ gs s ok new
change-IsWellFormed σ gs (cleans s) ok new = clean-IsWellFormed σ gs s ok
change-IsWellFormed σ gs (removes p) ok new = disconnect_if-IsWellFormed p σ gs ok
change-IsWellFormed σ gs (empties y) ok new = disconnect_group-IsWellFormed y σ gs ok

change-groups_of :
    (σ : Slots) (gs : List Group) (c : Change)
    → IsWellFormed σ gs
    → Fits (σ, gs) c
    → groups_of (change (σ, gs) c).0 ≡ groups_of σ
unfolding change
change-groups_of σ gs (adds s) ok new =
    let (store, _) = add_slot_lem σ gs s ok.ascending in fun_ext λ a. rw store (ground arith)
change-groups_of σ gs (cleans s) ok new =
    fun_ext λ a. same-group σ (clean σ gs s).0 a (clean-plain σ gs s a)
change-groups_of σ gs (removes p) ok new =
    fun_ext λ a. same-group σ (disconnect_if p σ gs).0 a ((disconnect_if-exact p σ gs ok).1 a)
change-groups_of σ gs (empties y) ok new = refl

-- Refinement: after any sequence of `add_slot`, `clean`, `disconnect_if` and `disconnect` of a group
-- on a well-formed slot list, where a slot that is added is in no group, each slot stands in each
-- group as often as the sequence says of the bags alone: an addition adds the slot once to its own
-- group, a clean takes it out of its own group, and the others take out what they name. The order in
-- a group, the indices and the search for the group do not show.
pub changes-bag :
    (σ : Slots) (gs : List Group) (cs : List Change)
    → IsWellFormed σ gs
    → AllFit (σ, gs) cs
    → bag (changes (σ, gs) cs).1 ≡ specs (groups_of σ) (bag gs) cs
unfolding changes
changes-bag σ gs [] ok fit = refl
changes-bag σ gs (c ∷ cs) ok (fits, rest) =
    let (τ, hs) = change (σ, gs) c in
    let one : bag hs ≡ spec (groups_of σ) (bag gs) c =
      fun_ext λ z. fun_ext λ a. change-bag σ gs c ok fits z a in
    let later = changes-bag τ hs cs (change-IsWellFormed σ gs c ok fits) rest in
    later
    ∙ ap (λ (g : ℕ → ℤ). specs g (bag hs) cs) (change-groups_of σ gs c ok fits)
    ∙ ap (λ (b : Bag). specs (groups_of σ) b cs) one
