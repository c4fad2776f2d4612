-- ===== src/Server/ThreadPool/Wakeups.antt =====
-- No wake-up of `ThreadPool` is lost: who waits has something to wait for.
use flex_ql_dl.Base.{
  ℕ, zero, suc, ◌+◌, ◌-◌, ◌<◌, ◌≡◌, refl, ap, inl, inr, false, List, [], ◌∷◌, arith, ◌==◌,
  Bool-cases, ◌&&◌, length, length-append,
}
use flex_ql_dl.Server.ThreadPool.{
  ThreadPool, new, submit, wake_one, notify_one, next_task, return_task, end_task, notify_done,
  is_empty, all_done, wait_all, look, request_stop, notify_stop, Go, takes, returns, ends, notifies,
  notifies_done, looks, Step, goes, submits, waits, stops, notifies_stop, wakes, wakes_waiter,
  Steps, start, step,
}
use flex_ql_dl.Server.ThreadPool.Accounts.{Accounts, Step-Accounts}

-- The workers that do not wait.
abbrev pub busy_workers : ThreadPool → ℕ
busy_workers p = p.awake + length p.running + p.returned + p.finishing

-- Until the pool stops there is a worker; and where something is queued, one that does not wait, or
-- a call that wakes one. Whoever waits in `wait_all` has tasks to wait for, or is about to be woken.
pub record NoneLost (p : ThreadPool) : Type 0 where
  pub staffed : p.stop ≡ false → 0 < p.asleep + busy_workers p
  pub woken : p.stop ≡ false → 0 < length p.queue → 0 < p.notifying + busy_workers p
  pub heard : 0 < p.waiting → 0 < length p.queue + p.active + p.finishing

next_task-NoneLost :
    (queue : List ℕ) (p : ThreadPool)
    → p.queue ≡ queue
    → 0 < p.awake
    → NoneLost p
    → NoneLost (next_task queue p)
unfolding next_task
next_task-NoneLost [] p e h n =
    let was = ap length e in
    elim (Bool-cases p.stop) [
      | inl s ↦ rw s (record { staffed = λ r. cc; woken = λ r. cc; heard = n.heard })
      | inr s ↦ rw s (record {
        staffed = λ r. omega arith;
        woken = λ r some_task. omega (arith, was, some_task);
        heard = n.heard;
      })
    ]
next_task-NoneLost (task ∷ queue) p e h n = record {
  staffed = λ r. omega arith;
  woken = λ r some_task. omega arith;
  heard = λ w. omega arith;
}

notify_one-NoneLost :
    (n : ℕ) (p : ThreadPool)
    → p.asleep ≡ n
    → NoneLost p
    → NoneLost (wake_one n (record p { notifying = p.notifying - 1 }))
notify_one-NoneLost zero p e n = record {
  staffed = n.staffed;
  woken = λ r some_task. let s = n.staffed r in omega (arith, s, e);
  heard = n.heard;
}
notify_one-NoneLost (suc m) p e n = record {
  staffed = λ r. omega arith;
  woken = λ r some_task. omega arith;
  heard = n.heard;
}

wake_one-NoneLost : (n : ℕ) (p : ThreadPool) → p.asleep ≡ n → NoneLost p → NoneLost (wake_one n p)
wake_one-NoneLost zero p e n = n
wake_one-NoneLost (suc m) p e n = record {
  staffed = λ r. omega arith;
  woken = λ r some_task. omega arith;
  heard = n.heard;
}

all_done-none :
    (queue : List ℕ) (active : ℕ)
    → (is_empty queue && active == 0) ≡ false
    → 0 < length queue + active
all_done-none [] active h = ground (arith, h)
all_done-none (x ∷ queue) active h = omega arith

Go-NoneLost : (p q : ThreadPool) → Go p q → Accounts p → NoneLost p → NoneLost q
unfolding notify_one return_task end_task notify_done look all_done
Go-NoneLost p _ (takes h) a n = next_task-NoneLost p.queue p refl h n
Go-NoneLost p _ (returns front back task e) a n = record {
  staffed = λ r. omega arith;
  woken = λ r some_task. omega arith;
  heard = n.heard;
}
Go-NoneLost p _ (ends h) a n = record {
  staffed = λ r. omega arith;
  woken = λ r some_task. omega arith;
  heard = λ w. omega arith;
}
Go-NoneLost p _ (notifies h) a n = notify_one-NoneLost p.asleep p refl n
Go-NoneLost p _ (notifies_done h) a n = record {
  staffed = λ r. omega arith;
  woken = λ r some_task. omega arith;
  heard = λ w. absurd (omega (arith, w));
}
Go-NoneLost p _ (looks h) a n = elim (Bool-cases (all_done p)) [
  | inl d ↦ rw d (record { staffed = n.staffed; woken = n.woken; heard = n.heard })
  | inr d ↦
      let some_task = all_done-none p.queue p.active d in
      rw d (record { staffed = n.staffed; woken = n.woken; heard = λ w. omega (arith, some_task) })
]

pub Step-NoneLost : (p q : ThreadPool) → Step p q → Accounts p → NoneLost p → NoneLost q
unfolding submit wait_all request_stop notify_stop
Step-NoneLost p q (goes g) a n = Go-NoneLost p q g a n
Step-NoneLost p _ (submits task) a n = record {
  staffed = n.staffed;
  woken = λ r some_task. omega arith;
  heard =
      λ w. let h = n.heard w in let l = length-append p.queue (task ∷ []) in omega (arith, h, l);
}
Step-NoneLost p _ waits a n = record { staffed = n.staffed; woken = n.woken; heard = n.heard }
Step-NoneLost p _ stops a n = record { staffed = λ r. cc; woken = λ r. cc; heard = n.heard }
Step-NoneLost p _ (notifies_stop h) a n = record {
  staffed = λ r. let s = n.staffed r in omega (arith, s);
  woken = λ r some_task. let s = n.woken r some_task in omega (arith, s);
  heard = n.heard;
}
Step-NoneLost p _ (wakes h) a n = wake_one-NoneLost p.asleep p refl n
Step-NoneLost p _ (wakes_waiter h) a n = record {
  staffed = n.staffed;
  woken = n.woken;
  heard = λ w. n.heard (omega (arith, h));
}

Steps-NoneLost : (p q : ThreadPool) → Steps p q → Accounts p → NoneLost p → NoneLost q
Steps-NoneLost p _ start a n = n
Steps-NoneLost p r (step {q = q} s rest) a n =
    Steps-NoneLost q r rest (Step-Accounts p q s a) (Step-NoneLost p q s a n)

pub reached-NoneLost :
    (hardware num_threads : ℕ) (p : ThreadPool) → Steps (new hardware num_threads) p → NoneLost p
unfolding new
reached-NoneLost hardware num_threads p steps =
    Steps-NoneLost (new hardware num_threads) p steps (record { busy = refl; kept = λ t. refl })
      (record {
        staffed = λ r. ground arith;
        woken = λ r some_task. absurd (omega (arith, some_task));
        heard = λ w. absurd (omega (arith, w));
      })
