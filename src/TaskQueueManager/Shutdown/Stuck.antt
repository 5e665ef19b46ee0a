-- ===== src/TaskQueueManager/Shutdown/Stuck.antt =====
-- The destruction of the registry against a task that calls it.
use modern_signal_slot.Base.{ℕ, ◌≡◌, ◌≢◌, refl, Bool, true, false, List, ◌∷◌, arith, ◌==◌}
use modern_signal_slot.TaskQueueManager.Shutdown.{
  TaskStep, asks, WorkerPlace, idle, inside, locked, finished, joining, cleared, Owner, nobody,
  clearer, worker, Registry, Step, clear_lock, clear_delete, clear_join, clear_unlock, work_take,
  work_end, work_on, work_lock, work_unlock, work_return, Leads, here, there, Reach, begins, next,
  has_lock,
}

abbrev by_clearer : Owner → Bool
by_clearer nobody = false
by_clearer clearer = true
by_clearer (worker q) = false

abbrev owned_by : ℕ → Owner → Bool
owned_by q nobody = false
owned_by q clearer = false
owned_by q (worker r) = r == q

abbrev is_locked : WorkerPlace → Bool
is_locked idle = false
is_locked (inside ts) = false
is_locked (locked ts) = true
is_locked finished = false

-- The mutex has one owner, and a worker that is joined has been told to quit.
pub record Inv (s : Registry) : Type 0 where
  pub holder : by_clearer s.mutex ≡ has_lock s.clearing
  pub work : (q : ℕ) → owned_by q s.mutex ≡ is_locked (s.workers q)
  pub told : (q : ℕ) (qs : List ℕ) → s.clearing ≡ joining q qs → s.quit q ≡ true

clearer_alone : (m : Owner) (q : ℕ) → by_clearer m ≡ true → owned_by q m ≡ false
clearer_alone nobody q h = refl
clearer_alone clearer q h = refl
clearer_alone (worker r) q h = cc

worker_alone :
    (m : Owner) (p q : ℕ)
    → owned_by p m ≡ true
    → (by_clearer m ≡ false) × ((p == q) ≡ false → owned_by q m ≡ false)
worker_alone nobody p q h = cc
worker_alone clearer p q h = cc
worker_alone (worker r) p q h = (refl, λ other. ground arith)

Step-Inv : {s u : Registry} → Step s u → Inv s → Inv u
Step-Inv (clear_lock a b e) inv =
    rw e (record { holder = refl; work = λ q. ground (arith, inv.work q); told = λ q qs f. cc })
Step-Inv (clear_delete p ps a e) inv =
    rw e (record {
      holder = ground (arith, inv.holder);
      work = inv.work;
      told = λ q qs f. ground arith;
    })
Step-Inv (clear_join p ps a b e) inv =
    rw e (record { holder = ground (arith, inv.holder); work = inv.work; told = λ q qs f. cc })
Step-Inv {s} (clear_unlock a e) inv = rw e (record {
  holder = refl;
  work = λ q. ground (arith, inv.work q, inv.holder, clearer_alone s.mutex q);
  told = λ q qs f. cc;
})
Step-Inv (work_take p task a b e) inv = rw e (record {
  holder = inv.holder;
  work = λ q. ground (arith, inv.work q, inv.work p);
  told = inv.told;
})
Step-Inv (work_end p a b e) inv = rw e (record {
  holder = inv.holder;
  work = λ q. ground (arith, inv.work q, inv.work p);
  told = inv.told;
})
Step-Inv (work_on p rest a e) inv = rw e (record {
  holder = inv.holder;
  work = λ q. ground (arith, inv.work q, inv.work p);
  told = inv.told;
})
Step-Inv (work_lock p rest a b e) inv = rw e (record {
  holder = ground (arith, inv.holder);
  work = λ q. ground (arith, inv.work q, inv.work p);
  told = inv.told;
})
Step-Inv {s} (work_unlock p rest a e) inv = rw e (record {
  holder = ground (arith, inv.holder, inv.work p, worker_alone s.mutex p p);
  work = λ q. ground (arith, inv.work q, inv.work p, worker_alone s.mutex p q);
  told = inv.told;
})
Step-Inv (work_return p a e) inv = rw e (record {
  holder = inv.holder;
  work = λ q. ground (arith, inv.work q, inv.work p);
  told = inv.told;
})

pub Reach-Inv : {s : Registry} → Reach s → Inv s
Reach-Inv (begins free before all) = record {
  holder = rw (free, before) refl;
  work = λ q. rw (free, all q) refl;
  told = λ q qs f. cc;
}
Reach-Inv (next r st) = Step-Inv st (Reach-Inv r)

-- The destructor joins the worker of a queue, and the task of that worker is about to call the
-- registry.
pub record IsStuck (q : ℕ) (s : Registry) : Type 0 where
  pub left : List ℕ
  pub joins : s.clearing ≡ joining q left
  pub rest : List TaskStep
  pub asking : s.workers q ≡ inside (asks ∷ rest)

Step-IsStuck : (q : ℕ) {s u : Registry} → Step s u → Inv s → IsStuck q s → IsStuck q u
Step-IsStuck q (clear_lock a b e) inv k = absurd (ground (arith, k.joins))
Step-IsStuck q (clear_delete p ps a e) inv k = absurd (ground (arith, k.joins))
Step-IsStuck q (clear_join p ps a b e) inv k = absurd (ground (arith, k.joins, k.asking))
Step-IsStuck q (clear_unlock a e) inv k = absurd (ground (arith, k.joins))
Step-IsStuck q (work_take p task a b e) inv k =
    rw e
      (record { left = k.left; joins = k.joins; rest = k.rest; asking = ground (arith, k.asking) })
Step-IsStuck q (work_end p a b e) inv k =
    rw e
      (record { left = k.left; joins = k.joins; rest = k.rest; asking = ground (arith, k.asking) })
Step-IsStuck q (work_on p rest a e) inv k =
    rw e
      (record { left = k.left; joins = k.joins; rest = k.rest; asking = ground (arith, k.asking) })
Step-IsStuck q (work_lock p rest a b e) inv k = absurd (ground (arith, k.joins, inv.holder))
Step-IsStuck q (work_unlock p rest a e) inv k =
    rw e
      (record { left = k.left; joins = k.joins; rest = k.rest; asking = ground (arith, k.asking) })
Step-IsStuck q (work_return p a e) inv k =
    rw e
      (record { left = k.left; joins = k.joins; rest = k.rest; asking = ground (arith, k.asking) })

Leads-IsStuck : (q : ℕ) {s u : Registry} → Leads s u → Inv s → IsStuck q s → IsStuck q u
Leads-IsStuck q here inv k = k
Leads-IsStuck q (there st rest) inv k =
    Leads-IsStuck q rest (Step-Inv st inv) (Step-IsStuck q st inv k)

-- If the destructor of the registry joins the worker of a queue while a task of that worker is about
-- to call `queue` or `hasQueue`, it never ends: in every state that follows it still joins the same
-- worker, and the task still waits for the mutex.
pub never_cleared :
    (q : ℕ) {s u : Registry}
    → Reach s
    → IsStuck q s
    → Leads s u
    → IsStuck q u × (u.clearing ≢ cleared)
never_cleared q r k path =
    let k' = Leads-IsStuck q path (Reach-Inv r) k in (k', λ e. ground (arith, k'.joins))
