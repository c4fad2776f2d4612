-- ===== src/Server/ThreadPool/Accounts.antt =====
-- No task is lost or run twice, and `wait_all` waits for all.
use flex_ql_dl.Base.{
  ℕ, zero, suc, ◌+◌, ◌≡◌, refl, ap, inl, inr, true, List, [], ◌∷◌, arith, ◌==◌, Bool-cases, ◌&&◌,
  ==_iff, length, length-append, count, count-append,
}
use flex_ql_dl.Server.ThreadPool.{
  ThreadPool, new, submit, wake_one, notify_one, next_task, return_task, end_task, notify_done,
  is_empty, all_done, wait_all, look, request_stop, notify_stop, Go, takes, returns, ends, notifies,
  notifies_done, looks, Step, goes, submits, waits, stops, notifies_stop, wakes, wakes_waiter,
  Steps, start, step,
}

-- Each submitted task is queued, runs, or has run, and `active` counts the busy workers.
pub record Accounts (p : ThreadPool) : Type 0 where
  pub busy : p.active ≡ length p.running + p.returned
  pub kept : (t : ℕ) → count t p.submitted ≡ count t p.queue + count t p.running + count t p.done

next_task-Accounts :
    (queue : List ℕ) (p : ThreadPool) → p.queue ≡ queue → Accounts p → Accounts (next_task queue p)
unfolding next_task
next_task-Accounts [] p e a = elim (Bool-cases p.stop) [
  | inl s ↦ rw s (record { busy = a.busy; kept = a.kept })
  | inr s ↦ rw s (record { busy = a.busy; kept = a.kept })
]
next_task-Accounts (task ∷ queue) p e a = record {
  busy = omega (arith, a.busy);
  kept = λ t. let k = a.kept t in let c = ap (count t) e in ground (arith, k, c);
}

wake_one-Accounts : (n : ℕ) (p : ThreadPool) → Accounts p → Accounts (wake_one n p)
wake_one-Accounts zero p a = a
wake_one-Accounts (suc n) p a = record { busy = a.busy; kept = a.kept }

Go-Accounts : (p q : ThreadPool) → Go p q → Accounts p → Accounts q
unfolding notify_one return_task end_task notify_done look
Go-Accounts p _ (takes h) a = next_task-Accounts p.queue p refl a
Go-Accounts p _ (returns front back task e) a = record {
  busy =
      let was = ap length e in
      let before = length-append front (task ∷ back) in
      let after = length-append front back in omega (arith, a.busy, was, before, after);
  kept = λ t.
      let k = a.kept t in
      let was = ap (count t) e in
      let before = count-append t front (task ∷ back) in
      let after = count-append t front back in ground (arith, k, was, before, after);
}
Go-Accounts p _ (ends h) a = record { busy = omega (arith, h, a.busy); kept = a.kept }
Go-Accounts p _ (notifies h) a =
    wake_one-Accounts p.asleep _ (record { busy = a.busy; kept = a.kept })
Go-Accounts p _ (notifies_done h) a = record { busy = a.busy; kept = a.kept }
Go-Accounts p _ (looks h) a = elim (Bool-cases (all_done p)) [
  | inl d ↦ rw d (record { busy = a.busy; kept = a.kept })
  | inr d ↦ rw d (record { busy = a.busy; kept = a.kept })
]

pub Step-Accounts : (p q : ThreadPool) → Step p q → Accounts p → Accounts q
unfolding submit wait_all request_stop notify_stop
Step-Accounts p q (goes g) a = Go-Accounts p q g a
Step-Accounts p _ (submits task) a = record {
  busy = a.busy;
  kept =
      λ t. let k = a.kept t in let c = count-append t p.queue (task ∷ []) in ground (arith, k, c);
}
Step-Accounts p _ waits a = record { busy = a.busy; kept = a.kept }
Step-Accounts p _ stops a = record { busy = a.busy; kept = a.kept }
Step-Accounts p _ (notifies_stop h) a = record { busy = a.busy; kept = a.kept }
Step-Accounts p _ (wakes h) a = wake_one-Accounts p.asleep p a
Step-Accounts p _ (wakes_waiter h) a = record { busy = a.busy; kept = a.kept }

pub Steps-Accounts : (p q : ThreadPool) → Steps p q → Accounts p → Accounts q
Steps-Accounts p _ start a = a
Steps-Accounts p r (step {q = q} s rest) a = Steps-Accounts q r rest (Step-Accounts p q s a)

all_done-empty :
    (queue : List ℕ) (active : ℕ)
    → (is_empty queue && active == 0) ≡ true
    → (queue ≡ []) × (active ≡ 0)
all_done-empty [] active h = (refl, (==_iff active 0).0 h)
all_done-empty (x ∷ queue) active h = absurd (ground (arith, h))

count-empty : (t : ℕ) (l : List ℕ) → length l ≡ 0 → count t l ≡ 0
count-empty t [] h = refl
count-empty t (x ∷ l) h = absurd (omega (arith, h))

pub Accounts-done :
    (p : ThreadPool)
    → Accounts p
    → all_done p ≡ true
    → (t : ℕ) → count t p.done ≡ count t p.submitted
unfolding all_done
Accounts-done p a finished t =
    let (no_queue, idle) = all_done-empty p.queue p.active finished in
    let queued = ap (count t) no_queue in
    let ran = count-empty t p.running (omega (arith, a.busy, idle)) in
    let k = a.kept t in omega (arith, k, queued, ran)

pub reached-Accounts :
    (hardware num_threads : ℕ) (p : ThreadPool) → Steps (new hardware num_threads) p → Accounts p
unfolding new
reached-Accounts hardware num_threads p steps =
    Steps-Accounts (new hardware num_threads) p steps (record { busy = refl; kept = λ t. refl })

-- From a new pool on, whatever the threads do and whoever submits: when `wait_all` may return,
-- every submitted task has run exactly as often as it was submitted.
pub wait_all-done :
    (hardware num_threads : ℕ) (p : ThreadPool)
    → Steps (new hardware num_threads) p
    → all_done p ≡ true
    → (t : ℕ) → count t p.done ≡ count t p.submitted
wait_all-done hardware num_threads p steps =
    Accounts-done p (reached-Accounts hardware num_threads p steps)
