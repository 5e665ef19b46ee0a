-- ===== src/TaskQueueManager/Shutdown/Ends.antt =====
-- The destruction of the registry ends when no running task calls the registry any more.
use modern_signal_slot.Base.{
  ℕ, ◌≡◌, refl, sym, ◌∙◌, ap, subst, true, false, List, [], ◌∷◌, arith, ◌==◌, ==-refl,
  if◌then◌else◌, Bool-cases, inl, inr, ==_iff, elem,
}
use modern_signal_slot.TaskQueueManager.Shutdown.Joined.{cleared-finished}
use modern_signal_slot.TaskQueueManager.Shutdown.Stuck.{Inv, Reach-Inv}
use modern_signal_slot.TaskQueueManager.Shutdown.{
  TaskStep, asks, works, WorkerPlace, idle, inside, locked, finished, ClearPlace, before_clear,
  deleting, joining, cleared, nobody, Registry, at_worker, Step, clear_delete, clear_join,
  clear_unlock, work_end, work_on, work_unlock, work_return, Leads, here, there, Reach, has_lock,
}

-- What is left of a task calls the registry nowhere.
abbrev pub IsQuietTask : List TaskStep → Type 0
IsQuietTask [] = Unit {0}
IsQuietTask (asks ∷ ts) = ⊥
IsQuietTask (works ∷ ts) = IsQuietTask ts

abbrev pub IsQuiet : WorkerPlace → Type 0
IsQuiet idle = Unit {0}
IsQuiet (inside ts) = IsQuietTask ts
IsQuiet (locked ts) = IsQuietTask ts
IsQuiet finished = Unit {0}

-- A state that follows, in which the worker has ended; of the rest only the mutex may have changed.
record Ended (q : ℕ) (s u : Registry) : Type 0 where
  path : Leads s u
  over : u.workers q ≡ finished
  clearing : u.clearing ≡ s.clearing
  others : (r : ℕ) → (q == r) ≡ false → u.workers r ≡ s.workers r

take_first :
    (q : ℕ) (p : WorkerPlace) {s v u : Registry}
    → Step s v
    → v.clearing ≡ s.clearing
    → ((r : ℕ) → (q == r) ≡ false → v.workers r ≡ s.workers r)
    → Ended q v u
    → Ended q s u
take_first q p st same others e = record {
  path = there st e.path;
  over = e.over;
  clearing = e.clearing ∙ same;
  others = λ r ne. e.others r ne ∙ others r ne;
}

module _ (q : ℕ) where
  abbrev CanEnd : Registry → Type 0
  CanEnd s = (u : Registry) × Ended q s u

  move_worker :
      (s : Registry) (p : WorkerPlace) {v : Registry}
      → Step s v
      → v.clearing ≡ s.clearing
      → v.workers ≡ (at_worker s q p).workers
      → CanEnd v
      → CanEnd s
  move_worker s p {v} st same w (u, e) =
      (u, take_first q p st same (λ r ne. ap (λ f. f r) w ∙ ground arith) e)

  at_own : (s : Registry) (p : WorkerPlace) → (at_worker s q p).workers q ≡ p
  at_own s p = rw (==-refl q) refl

  ends_idle : (s : Registry) → s.workers q ≡ idle → s.quit q ≡ true → CanEnd s
  ends_idle s at stop =
      move_worker s finished (work_end q at stop refl) refl refl (
        _,
        record { path = here; over = at_own s finished; clearing = refl; others = λ r ne. refl },
      )

  ends_inside :
      (ts : List TaskStep) (s : Registry)
      → s.workers q ≡ inside ts
      → s.quit q ≡ true
      → IsQuietTask ts
      → CanEnd s
  ends_inside [] s at stop quiet =
      move_worker s idle (work_return q at refl) refl refl
        (ends_idle (at_worker s q idle) (at_own s idle) stop)
  ends_inside (asks ∷ ts) s at stop quiet = absurd quiet
  ends_inside (works ∷ ts) s at stop quiet =
      move_worker s (inside ts) (work_on q ts at refl) refl refl
        (ends_inside ts (at_worker s q (inside ts)) (at_own s (inside ts)) stop quiet)

  worker_ends :
      (p : WorkerPlace) (s : Registry) → s.workers q ≡ p → s.quit q ≡ true → IsQuiet p → CanEnd s
  worker_ends idle s at stop quiet = ends_idle s at stop
  worker_ends (inside ts) s at stop quiet = ends_inside ts s at stop quiet
  worker_ends (locked ts) s at stop quiet =
      move_worker s (inside ts) (work_unlock q ts at refl) refl refl (
        ends_inside ts (record (at_worker s q (inside ts)) { mutex = nobody })
          (at_own s (inside ts)) stop quiet)
  worker_ends finished s at stop quiet =
      (s, record { path = here; over = at; clearing = refl; others = λ r ne. refl })

Leads-append : {s u v : Registry} → Leads s u → Leads u v → Leads s v
Leads-append here path = path
Leads-append (there st rest) path = there st (Leads-append rest path)

abbrev CanClear : Registry → Type 0
CanClear s = (u : Registry) × Leads s u × (u.clearing ≡ cleared)

abbrev AllQuiet : Registry → Type 0
AllQuiet s = (q : ℕ) → IsQuiet (s.workers q)

Ended-AllQuiet : (q : ℕ) {s u : Registry} → Ended q s u → AllQuiet s → AllQuiet u
Ended-AllQuiet q {s} {u} e quiet = λ r. elim (Bool-cases (q == r)) [
  | inl same ↦ subst (λ p. IsQuiet p) (sym (ap u.workers (sym ((==_iff q r).0 same)) ∙ e.over)) tt
  | inr other ↦ subst (λ p. IsQuiet p) (sym (e.others r other)) (quiet r)
]

-- A state that follows, in which the queues `qs` are left to delete.
abbrev CanDelete : List ℕ → Registry → Type 0
CanDelete qs s = (u : Registry) × Leads s u × (u.clearing ≡ deleting qs) × AllQuiet u

join_ends :
    (q : ℕ) (qs : List ℕ) (s : Registry)
    → s.clearing ≡ joining q qs
    → s.quit q ≡ true
    → AllQuiet s
    → CanDelete qs s
join_ends q qs s at stop quiet =
    let (u, e) = worker_ends q (s.workers q) s refl stop (quiet q) in
    let st : Step u (record u { clearing = deleting qs }) =
      clear_join q qs (e.clearing ∙ at) e.over refl in
    (_, Leads-append e.path (there st here), refl, Ended-AllQuiet q e quiet)

deleting_ends : (qs : List ℕ) (s : Registry) → s.clearing ≡ deleting qs → AllQuiet s → CanClear s
deleting_ends [] s at quiet = (_, there (clear_unlock at refl) here, refl)
deleting_ends (q ∷ qs) s at quiet =
    let told : Registry = record s {
      clearing = joining q qs;
      quit = λ r. if q == r then true else s.quit r;
    } in
    let st : Step s told = clear_delete q qs at refl in
    let (u, path, at', quiet') = join_ends q qs told refl (rw (==-refl q) refl) quiet in
    let (v, path', over) = deleting_ends qs u at' quiet' in
    (v, there st (Leads-append path path'), over)

clearing_ends :
    (p : ClearPlace) (s : Registry)
    → s.clearing ≡ p
    → has_lock p ≡ true
    → Inv s
    → AllQuiet s
    → CanClear s
clearing_ends before_clear s at lock inv quiet = cc
clearing_ends (deleting qs) s at lock inv quiet = deleting_ends qs s at quiet
clearing_ends (joining q qs) s at lock inv quiet =
    let (u, path, at', quiet') = join_ends q qs s at (inv.told q qs at) quiet in
    let (v, path', over) = deleting_ends qs u at' quiet' in (v, Leads-append path path', over)
clearing_ends cleared s at lock inv quiet = cc

-- Once `clear` has the mutex, and no task that runs will call the registry, it can always end: from
-- every such state that the registry and the workers reach, further steps lead to one in which
-- `clear` has returned, and in which the worker of every queue of the registry has ended.
pub can_clear :
    {s : Registry}
    → Reach s
    → has_lock s.clearing ≡ true
    → ((q : ℕ) → IsQuiet (s.workers q))
    → (u : Registry) × Leads s u
      × (u.clearing ≡ cleared)
      × ((q : ℕ) → elem q s.queues ≡ true → u.workers q ≡ finished)
can_clear {s} r lock quiet =
    let (u, path, over) = clearing_ends s.clearing s refl lock (Reach-Inv r) quiet in
    (u, path, over, cleared-finished r path over)
