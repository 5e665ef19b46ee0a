-- ===== src/Signal/Same.antt =====
-- How far an operation may change the store: only the indices of the slots of some groups.
use modern_signal_slot.Base.{ℤ, ℕ, ◌≡◌, ◌≢◌, refl, ◌<ℤ◌, sym, ap, ◌∙◌, List, [], ◌∷◌, arith}
use modern_signal_slot.Slot.{Slot, Slots}
use modern_signal_slot.Signal.{Group}
use modern_signal_slot.Signal.WellFormed.{Indexed, Above, AllIndexed}

-- A slot without its index.
abbrev pub plain : Slot → Slot
plain s = record s { m_index = 0 }

-- `τ` differs from `σ` at most in the indices of slots of the group `gid`.
pub record SameBut (gid : ℤ) (σ τ : Slots) : Type 0 where
  pub others : (a : ℕ) → (σ a).m_group ≢ gid → τ a ≡ σ a
  pub same : (a : ℕ) → plain (τ a) ≡ plain (σ a)

pub same-group : (σ τ : Slots) (a : ℕ) → plain (τ a) ≡ plain (σ a) → (τ a).m_group ≡ (σ a).m_group
same-group σ τ a e = ap (λ s. s.m_group) e

pub SameBut-refl : (gid : ℤ) (σ : Slots) → SameBut gid σ σ
SameBut-refl gid σ = record { others = λ a h. refl; same = λ a. refl }

pub SameBut-trans : {gid : ℤ} (σ τ υ : Slots) → SameBut gid σ τ → SameBut gid τ υ → SameBut gid σ υ
SameBut-trans σ τ υ h k = record {
  others = λ a n. k.others a (λ e. n (sym (same-group σ τ a (h.same a)) ∙ e)) ∙ h.others a n;
  same = λ a. k.same a ∙ h.same a;
}

pub ne_of_above : (a b : ℤ) → a <ℤ b → b ≢ a
ne_of_above a b h e = ground arith

-- Groups with other ids do not notice.
pub Indexed-SameBut :
    (gid : ℤ) (σ τ : Slots) (g : Group) → SameBut gid σ τ → g.gid ≢ gid → Indexed σ g → Indexed τ g
Indexed-SameBut gid σ τ g s other ok i a h =
    let (index, group) = ok i a h in rw (s.others a (λ e. other (sym group ∙ e))) (index, group)

pub AllIndexed-SameBut :
    (gid : ℤ) (σ τ : Slots) (gs : List Group)
    → SameBut gid σ τ
    → Above gid gs
    → AllIndexed σ gs
    → AllIndexed τ gs
AllIndexed-SameBut gid σ τ [] s above ok = tt
AllIndexed-SameBut gid σ τ (g ∷ gs) s above ok = (
  Indexed-SameBut gid σ τ g s (ne_of_above gid g.gid above.0) ok.0,
  AllIndexed-SameBut gid σ τ gs s above.1 ok.1,
)
