-- ===== src/TaskQueueManager/Shutdown/Joined.antt =====
-- The queues that the destruction of the registry is done with: their workers have ended.
use modern_signal_slot.Base.{
  ℕ, ◌≡◌, refl, sym, ◌∙◌, ap, Bool, true, false, List, [], ◌∷◌, arith, ◌==◌, elem, Bool-cases, inl,
  inr, ==_iff,
}
use modern_signal_slot.TaskQueueManager.Shutdown.{
  WorkerPlace, idle, inside, locked, finished, ClearPlace, before_clear, deleting, joining, cleared,
  Registry, Step, clear_lock, clear_delete, clear_join, clear_unlock, work_take, work_end, work_on,
  work_lock, work_unlock, work_return, Leads, here, there, Reach, begins, next,
}

-- The queues that are left to delete or to join.
abbrev pub left : List ℕ → ClearPlace → List ℕ
left all before_clear = all
left all (deleting qs) = qs
left all (joining q qs) = q ∷ qs
left all cleared = []

abbrev is_finished : WorkerPlace → Bool
is_finished idle = false
is_finished (inside ts) = false
is_finished (locked ts) = false
is_finished finished = true

-- A queue is left, or its worker has ended.
abbrev Joined : Registry → Type 0
Joined s =
    (q : ℕ)
    → elem q s.queues ≡ true
    → elem q (left s.queues s.clearing) ≡ false
    → is_finished (s.workers q) ≡ true

Step-Joined : {s u : Registry} → Step s u → Joined s → Joined u
Step-Joined (clear_lock a b e) j = rw e (λ r i n. ground (arith, j r))
Step-Joined (clear_delete q qs a e) j = rw e (λ r i n. ground (arith, j r))
Step-Joined {s} (clear_join q qs a b e) j = rw e (λ r i n. elim (Bool-cases (q == r)) [
  | inl same ↦ ap is_finished (ap s.workers (sym ((==_iff q r).0 same)) ∙ b)
  | inr other ↦ ground (arith, j r)
])
Step-Joined (clear_unlock a e) j = rw e (λ r i n. ground (arith, j r))
Step-Joined (work_take q ts a b e) j = rw e (λ r i n. ground (arith, j r))
Step-Joined (work_end q a b e) j = rw e (λ r i n. ground (arith, j r))
Step-Joined (work_on q ts a e) j = rw e (λ r i n. ground (arith, j r))
Step-Joined (work_lock q ts a b e) j = rw e (λ r i n. ground (arith, j r))
Step-Joined (work_unlock q ts a e) j = rw e (λ r i n. ground (arith, j r))
Step-Joined (work_return q a e) j = rw e (λ r i n. ground (arith, j r))

Reach-Joined : {s : Registry} → Reach s → Joined s
Reach-Joined (begins m c w) = λ q i n. ground (arith, c)
Reach-Joined (next r st) = Step-Joined st (Reach-Joined r)

-- No step makes or forgets a queue.
Step-queues : {s u : Registry} → Step s u → u.queues ≡ s.queues
Step-queues (clear_lock a b e) = rw e refl
Step-queues (clear_delete q qs a e) = rw e refl
Step-queues (clear_join q qs a b e) = rw e refl
Step-queues (clear_unlock a e) = rw e refl
Step-queues (work_take q ts a b e) = rw e refl
Step-queues (work_end q a b e) = rw e refl
Step-queues (work_on q ts a e) = rw e refl
Step-queues (work_lock q ts a b e) = rw e refl
Step-queues (work_unlock q ts a e) = rw e refl
Step-queues (work_return q a e) = rw e refl

Leads-queues : {s u : Registry} → Leads s u → u.queues ≡ s.queues
Leads-queues here = refl
Leads-queues (there st path) = Leads-queues path ∙ Step-queues st

Reach-Leads : {s u : Registry} → Reach s → Leads s u → Reach u
Reach-Leads r here = r
Reach-Leads r (there st path) = Reach-Leads (next r st) path

ended : (p : WorkerPlace) → is_finished p ≡ true → p ≡ finished
ended idle e = cc
ended (inside ts) e = cc
ended (locked ts) e = cc
ended finished e = refl

-- Once `clear` has returned, the workers of all queues have ended.
pub cleared-finished :
    {s u : Registry}
    → Reach s
    → Leads s u
    → u.clearing ≡ cleared
    → (q : ℕ) → elem q s.queues ≡ true
    → u.workers q ≡ finished
cleared-finished {s} {u} r path c q i =
    let known : elem q u.queues ≡ true = rw (Leads-queues path) i in
    let none_left : elem q (left u.queues u.clearing) ≡ false = rw c refl in
    ended (u.workers q) (Reach-Joined (Reach-Leads r path) q known none_left)
