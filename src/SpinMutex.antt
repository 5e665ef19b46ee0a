-- ===== src/SpinMutex.antt =====
-- core/signal.hpp, `spin_mutex`, between any threads: a step is one access to the atomic state.
use modern_signal_slot.Base.{
  ℕ, ◌≡◌, ◌≢◌, refl, Bool, true, false, arith, if◌then◌else◌, ◌==◌, Bool-cases, inl, inr,
}

-- Where a thread is: outside, in the inner loop of `lock`, about to call `try_lock` in it, or
-- between the end of a lock and its `unlock`.
pub data Place : Type 0 where
  outside looking trying inside : Place

-- `try_lock`: what it returns and the state behind it.
unfoldable pub try_lock : Bool → Bool × Bool
try_lock state = (state, false)

pub unlock : Bool
unlock = true

pub record Mutex : Type 0 where
  pub state : Bool
  pub places : ℕ → Place

abbrev pub move : Mutex → ℕ → Place → Mutex
move m t p = record m { places = λ u. if t == u then p else m.places u }

pub data Step (m n : Mutex) : Type 0 where
  begin_lock : (t : ℕ) → m.places t ≡ outside → n ≡ move m t looking → Step m n
  look :
      (t : ℕ) → m.places t ≡ looking → n ≡ move m t (if m.state then trying else looking) → Step m n
  exchange :
      (t : ℕ)
      → m.places t ≡ trying
      → n
        ≡ move
            (record m { state = (try_lock m.state).1 })
            t
            (if (try_lock m.state).0 then inside else looking)
      → Step m n
  try_once :
      (t : ℕ)
      → m.places t ≡ outside
      → n
        ≡ move
            (record m { state = (try_lock m.state).1 })
            t
            (if (try_lock m.state).0 then inside else outside)
      → Step m n
  unlocks :
      (t : ℕ) → m.places t ≡ inside → n ≡ move (record m { state = unlock }) t outside → Step m n

abbrev pub free_mutex : Mutex
free_mutex = record { state = true; places = λ t. outside }

pub data Reach : Mutex → Type 0 where
  start : Reach free_mutex
  next : {m n : Mutex} → Reach m → Step m n → Reach n

-- While the mutex is free nobody is inside, and at most one thread is.
record IsExclusive (m : Mutex) : Type 0 where
  free : (t : ℕ) → m.places t ≡ inside → m.state ≡ false
  one : (t u : ℕ) → m.places t ≡ inside → m.places u ≡ inside → t ≡ u

Step-IsExclusive : {m n : Mutex} → Step m n → IsExclusive m → IsExclusive n
unfolding try_lock unlock
Step-IsExclusive (begin_lock t at e) x =
    rw e (record {
      free = λ u h. ground (arith, x.free u);
      one = λ u v h k. ground (arith, x.one u v);
    })
Step-IsExclusive (look t at e) x =
    rw e (record {
      free = λ u h. ground (arith, x.free u);
      one = λ u v h k. ground (arith, x.one u v);
    })
Step-IsExclusive (exchange t at e) x =
    rw e (record {
      free = λ u h. refl;
      one = λ u v h k. ground (arith, x.one u v, x.free u, x.free v);
    })
Step-IsExclusive (try_once t at e) x =
    rw e (record {
      free = λ u h. refl;
      one = λ u v h k. ground (arith, x.one u v, x.free u, x.free v);
    })
Step-IsExclusive (unlocks t at e) x = rw e (record {
  free = λ u h. ground (arith, x.one u t);
  one = λ u v h k. ground (arith, x.one u v, x.one u t);
})

Reach-IsExclusive : {m : Mutex} → Reach m → IsExclusive m
Reach-IsExclusive start = record { free = λ t h. cc; one = λ t u h k. cc }
Reach-IsExclusive (next r st) = Step-IsExclusive st (Reach-IsExclusive r)

-- Mutual exclusion: in no state that threads can reach through `lock`, `try_lock` and the `unlock`
-- of a thread that holds the mutex do two different threads hold it.
pub mutual_exclusion :
    {m : Mutex} (t u : ℕ) → Reach m → t ≢ u → m.places t ≡ inside → m.places u ≢ inside
mutual_exclusion t u r ne h k = ne ((Reach-IsExclusive r).one t u h k)

abbrev Held : Mutex → Type 0
Held m = (t : ℕ) × (m.places t ≡ inside)

-- A thread that is inside and not the one that moves is still inside.
others_stay :
    (m : Mutex) (t : ℕ) (p : Place) (s : Bool)
    → m.places t ≢ inside
    → Held m
    → Held (move (record m { state = s }) t p)
others_stay m t p s out (u, h) = (u, ground arith)

Step-Held : {m n : Mutex} → Step m n → (m.state ≡ false → Held m) → n.state ≡ false → Held n
unfolding try_lock unlock
Step-Held {m} (begin_lock t at e) x f =
    rw e (others_stay m t looking m.state (λ h. cc) (x (rw e at f)))
Step-Held {m} (look t at e) x f = rw e (others_stay m t _ m.state (λ h. cc) (x (rw e at f)))
Step-Held {m} (exchange t at e) x f = elim (Bool-cases m.state) [
  | inl unlocked ↦ rw (e, unlocked) (t, ground arith)
  | inr shut ↦ rw e (others_stay m t _ false (λ h. cc) (x shut))
]
Step-Held {m} (try_once t at e) x f = elim (Bool-cases m.state) [
  | inl unlocked ↦ rw (e, unlocked) (t, ground arith)
  | inr shut ↦ rw e (others_stay m t _ false (λ h. cc) (x shut))
]
Step-Held (unlocks t at e) x f = cc

-- The mutex is never left locked: in every state that threads can reach in this way in which it
-- is not free, some thread is inside and can unlock it.
pub never_left_locked : {m : Mutex} → Reach m → m.state ≡ false → (t : ℕ) × (m.places t ≡ inside)
never_left_locked start f = cc
never_left_locked (next r st) f = Step-Held st (never_left_locked r) f
