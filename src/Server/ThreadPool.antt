-- ===== src/Server/ThreadPool.antt =====
-- `ThreadPool` (include/server/thread_pool.h, src/server/thread_pool.cpp), as the sections that
-- its mutex makes one step each, and the wake-ups behind them. A task is a number. `submitted` and
-- `done` are kept for the theorems only, and `active_` is not bounded.
pub mod Accounts
pub mod Wakeups
pub mod Progress
use flex_ql_dl.Base.{
  ℕ, zero, suc, ◌+◌, ◌-◌, ◌<◌, ◌≡◌, Bool, true, false, ◌&&◌, List, [], ◌∷◌, ◌++◌, ◌==◌,
  if◌then◌else◌,
}

pub record ThreadPool : Type 0 where
  pub queue : List ℕ
  pub stop : Bool
  pub active : ℕ
  -- The workers that are about to look at the queue, those that wait on `cv_`, the tasks that run,
  -- the workers whose task has returned, and those that are about to call `cv_done_.notify_all`.
  pub awake : ℕ
  pub asleep : ℕ
  pub running : List ℕ
  pub returned : ℕ
  pub finishing : ℕ
  -- The calls of `submit` that are about to call `cv_.notify_one`, and whether the destructor is
  -- about to call `cv_.notify_all`.
  pub notifying : ℕ
  pub closing : Bool
  -- The calls of `wait_all` that are about to look, and those that wait on `cv_done_`.
  pub looking : ℕ
  pub waiting : ℕ
  pub submitted : List ℕ
  pub done : List ℕ

-- The constructor, for what `hardware_concurrency` says.
unfoldable pub new : ℕ → ℕ → ThreadPool
new hardware num_threads = record {
  queue = [];
  stop = false;
  active = 0;
  awake = (if num_threads == 0 then (if hardware == 0 then 1 else hardware) else num_threads);
  asleep = 0;
  running = [];
  returned = 0;
  finishing = 0;
  notifying = 0;
  closing = false;
  looking = 0;
  waiting = 0;
  submitted = [];
  done = [];
}

-- The section of `submit`, with the call of `notify_one` still to come.
unfoldable pub submit : ℕ → ThreadPool → ThreadPool
submit task p = record p {
  queue = p.queue ++ task ∷ [];
  notifying = p.notifying + 1;
  submitted = task ∷ p.submitted;
}

-- One worker that waits on `cv_` goes on, if there is one.
abbrev pub wake_one : ℕ → ThreadPool → ThreadPool
wake_one zero p = p
wake_one (suc asleep) p = record p { asleep = asleep; awake = p.awake + 1 }

-- `cv_.notify_one()`
unfoldable pub notify_one : ThreadPool → ThreadPool
notify_one p = wake_one p.asleep (record p { notifying = p.notifying - 1 })

-- The first section of `worker_loop`, for the queue: the worker waits, leaves, or takes a task.
unfoldable pub next_task : List ℕ → ThreadPool → ThreadPool
next_task [] p =
    if p.stop
    then record p { awake = p.awake - 1 }
    else record p { awake = p.awake - 1; asleep = p.asleep + 1 }
next_task (task ∷ queue) p = record p {
  queue = queue;
  active = p.active + 1;
  awake = p.awake - 1;
  running = task ∷ p.running;
}

-- `task()` has returned, for the tasks that run on.
unfoldable pub return_task : ℕ → List ℕ → ThreadPool → ThreadPool
return_task task others p = record p {
  running = others;
  returned = p.returned + 1;
  done = task ∷ p.done;
}

-- The second section of `worker_loop`, with the call of `notify_all` still to come.
unfoldable pub end_task : ThreadPool → ThreadPool
end_task p = record p {
  active = p.active - 1;
  returned = p.returned - 1;
  finishing = p.finishing + 1;
}

-- `cv_done_.notify_all()`, behind which the worker begins again.
unfoldable pub notify_done : ThreadPool → ThreadPool
notify_done p = record p {
  finishing = p.finishing - 1;
  awake = p.awake + 1;
  looking = p.looking + p.waiting;
  waiting = 0;
}

abbrev pub is_empty : List ℕ → Bool
is_empty [] = true
is_empty (x ∷ l) = false

-- What `wait_all` waits for.
unfoldable pub all_done : ThreadPool → Bool
all_done p = is_empty p.queue && p.active == 0

-- A call of `wait_all` begins.
unfoldable pub wait_all : ThreadPool → ThreadPool
wait_all p = record p { looking = p.looking + 1 }

-- It looks: it returns, or waits.
unfoldable pub look : ThreadPool → ThreadPool
unfolding all_done
look p =
    if all_done p
    then record p { looking = p.looking - 1 }
    else record p { looking = p.looking - 1; waiting = p.waiting + 1 }

-- The section of the destructor, and its `cv_.notify_all()`.
unfoldable pub request_stop : ThreadPool → ThreadPool
request_stop p = record p { stop = true; closing = true }

unfoldable pub notify_stop : ThreadPool → ThreadPool
notify_stop p = record p { closing = false; awake = p.awake + p.asleep; asleep = 0 }

-- How the calls that are under way and the workers go on, whichever thread is next.
pub data Go : ThreadPool → ThreadPool → Type 0 where
  takes : {p : ThreadPool} → 0 < p.awake → Go p (next_task p.queue p)
  returns :
      {p : ThreadPool} (front back : List ℕ) (task : ℕ)
      → p.running ≡ front ++ task ∷ back
      → Go p (return_task task (front ++ back) p)
  ends : {p : ThreadPool} → 0 < p.returned → Go p (end_task p)
  notifies : {p : ThreadPool} → 0 < p.notifying → Go p (notify_one p)
  notifies_done : {p : ThreadPool} → 0 < p.finishing → Go p (notify_done p)
  looks : {p : ThreadPool} → 0 < p.looking → Go p (look p)

-- What can happen next: that, a new call of a member, the end of the destructor's section, or a
-- wait that ends with no wake-up.
pub data Step : ThreadPool → ThreadPool → Type 0 where
  goes : {p q : ThreadPool} → Go p q → Step p q
  submits : {p : ThreadPool} (task : ℕ) → Step p (submit task p)
  waits : {p : ThreadPool} → Step p (wait_all p)
  stops : {p : ThreadPool} → Step p (request_stop p)
  notifies_stop : {p : ThreadPool} → p.closing ≡ true → Step p (notify_stop p)
  wakes : {p : ThreadPool} → 0 < p.asleep → Step p (wake_one p.asleep p)
  wakes_waiter :
      {p : ThreadPool}
      → 0 < p.waiting
      → Step p (record p { waiting = p.waiting - 1; looking = p.looking + 1 })

pub data Steps : ThreadPool → ThreadPool → Type 0 where
  start : {p : ThreadPool} → Steps p p
  step : {p q r : ThreadPool} → Step p q → Steps q r → Steps p r
