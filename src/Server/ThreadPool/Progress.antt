-- ===== src/Server/ThreadPool/Progress.antt =====
-- The workers of the pool finish what was submitted, and every call of `wait_all` returns.
use flex_ql_dl.Base.{
  ℕ, zero, suc, ◌+◌, ◌-◌, ◌*◌, ◌<◌, ◌≤◌, ◌≡◌, ◌⊎◌, refl, ap, ◌∙◌, inl, inr, true, false, List, [],
  ◌∷◌, arith, Bool-cases, length, length-append, count,
}
use flex_ql_dl.Server.ThreadPool.{
  ThreadPool, new, wake_one, notify_one, next_task, return_task, end_task, notify_done, all_done,
  look, Go, takes, returns, ends, notifies, notifies_done, looks, goes, Steps,
}
use flex_ql_dl.Server.ThreadPool.Accounts.{Accounts, Step-Accounts, Accounts-done, reached-Accounts}
use flex_ql_dl.Server.ThreadPool.Wakeups.{NoneLost, Step-NoneLost, reached-NoneLost}

-- No call of `wait_all` is left, and the tasks that ran are these.
abbrev pub Finished : List ℕ → ThreadPool → Type 0
Finished tasks p =
    (all_done p ≡ true)
    × (p.looking ≡ 0)
    × (p.waiting ≡ 0)
    × ((t : ℕ) → count t p.done ≡ count t tasks)

-- However the threads go on, it ends, and where none can go on the pool has finished.
pub data Drains (tasks : List ℕ) : ThreadPool → Type 0 where
  drained :
      {p : ThreadPool}
      → ((q : ThreadPool) → Go p q → Drains tasks q)
      → Finished tasks p ⊎ ((q : ThreadPool) × Go p q)
      → Drains tasks p

-- A pool that runs.
record IsRunning (tasks : List ℕ) (p : ThreadPool) : Type 0 where
  accounts : Accounts p
  none_lost : NoneLost p
  runs : p.stop ≡ false
  same : p.submitted ≡ tasks

-- The steps that are left for what is queued and for the workers.
abbrev work : ThreadPool → ℕ
work p =
    4 * length p.queue
    + 4 * length p.running
    + 3 * p.returned
    + 2 * p.finishing
    + p.awake
    + 2 * p.notifying

-- A step leaves less work, or as much and a call of `wait_all` less that is about to look.
record Advances (p q : ThreadPool) : Type 0 where
  runs : q.stop ≡ p.stop
  same : q.submitted ≡ p.submitted
  less : (work q < work p) ⊎ ((work q ≤ work p) × (q.looking < p.looking))

next_task-Advances :
    (queue : List ℕ) (p : ThreadPool)
    → p.queue ≡ queue
    → 0 < p.awake
    → p.stop ≡ false
    → Advances p (next_task queue p)
unfolding next_task
next_task-Advances [] p e h r =
    let was = ap length e in
    rw r (record { runs = refl; same = refl; less = inl (omega (arith, h, was)) })
next_task-Advances (task ∷ queue) p e h r =
    let was = ap length e in record { runs = refl; same = refl; less = inl (omega (arith, h, was)) }

notify_one-Advances :
    (n : ℕ) (p : ThreadPool)
    → 0 < p.notifying
    → Advances p (wake_one n (record p { notifying = p.notifying - 1 }))
notify_one-Advances zero p h = record { runs = refl; same = refl; less = inl (omega (arith, h)) }
notify_one-Advances (suc m) p h = record { runs = refl; same = refl; less = inl (omega (arith, h)) }

Go-Advances : (p q : ThreadPool) → Go p q → p.stop ≡ false → Advances p q
unfolding notify_one return_task end_task notify_done look
Go-Advances p _ (takes h) r = next_task-Advances p.queue p refl h r
Go-Advances p _ (returns front back task e) r =
    let was = ap length e in
    let before = length-append front (task ∷ back) in
    let after = length-append front back in
    record { runs = refl; same = refl; less = inl (omega (arith, was, before, after)) }
Go-Advances p _ (ends h) r = record { runs = refl; same = refl; less = inl (omega (arith, h)) }
Go-Advances p _ (notifies h) r = notify_one-Advances p.asleep p h
Go-Advances p _ (notifies_done h) r = record {
  runs = refl;
  same = refl;
  less = inl (omega (arith, h));
}
Go-Advances p _ (looks h) r = elim (Bool-cases (all_done p)) [
  | inl d ↦ rw d (record { runs = refl; same = refl; less = inr (omega arith, omega (arith, h)) })
  | inr d ↦ rw d (record { runs = refl; same = refl; less = inr (omega arith, omega (arith, h)) })
]

Go-IsRunning : (tasks : List ℕ) (p q : ThreadPool) → Go p q → IsRunning tasks p → IsRunning tasks q
Go-IsRunning tasks p q g r =
    let a = Go-Advances p q g r.runs in
    record {
      accounts = Step-Accounts p q (goes g) r.accounts;
      none_lost = Step-NoneLost p q (goes g) r.accounts r.none_lost;
      runs = a.runs ∙ r.runs;
      same = a.same ∙ r.same;
    }

List-cases : (l : List ℕ) → (l ≡ []) ⊎ ((x : ℕ) × (m : List ℕ) × (l ≡ x ∷ m))
List-cases [] = inl refl
List-cases (x ∷ m) = inr (x, m, refl)

ℕ-cases : (n : ℕ) → (n ≡ 0) ⊎ (0 < n)
ℕ-cases zero = inl refl
ℕ-cases (suc n) = inr (omega arith)

-- Where no thread can go on.
all_finished :
    (tasks : List ℕ) (p : ThreadPool)
    → IsRunning tasks p
    → p.notifying ≡ 0
    → p.finishing ≡ 0
    → p.returned ≡ 0
    → p.running ≡ []
    → p.awake ≡ 0
    → p.looking ≡ 0
    → Finished tasks p
unfolding all_done
all_finished tasks p r a b c d e f =
    let no_run = ap length d in
    let idle : p.active ≡ 0 = omega (arith, r.accounts.busy, no_run, c) in
    elim (List-cases p.queue) [
      | inr (task, queue, queued) ↦
          let was = ap length queued in
          let awake = r.none_lost.woken r.runs (omega (arith, was)) in
          absurd (omega (arith, awake, a, b, c, no_run, e))
      | inl no_queue ↦
          let finished : all_done p ≡ true = rw (no_queue, idle) refl in
          let was = ap length no_queue in
          elim (ℕ-cases p.waiting) [
            | inl none ↦ (
              finished,
              f,
              none,
              λ t. Accounts-done p r.accounts finished t ∙ ap (count t) r.same,
            )
            | inr some_call ↦
                let h = r.none_lost.heard some_call in absurd (omega (arith, h, was, idle, b))
          ]
    ]

advance :
    (tasks : List ℕ) (p : ThreadPool)
    → IsRunning tasks p
    → Finished tasks p ⊎ ((q : ThreadPool) × Go p q)
advance tasks p r = elim (ℕ-cases p.notifying) [
  | inr h ↦ inr (_, notifies h)
  | inl a ↦ elim (ℕ-cases p.finishing) [
    | inr h ↦ inr (_, notifies_done h)
    | inl b ↦ elim (ℕ-cases p.returned) [
      | inr h ↦ inr (_, ends h)
      | inl c ↦ elim (List-cases p.running) [
        | inr (task, others, e) ↦ inr (_, returns [] others task e)
        | inl d ↦ elim (ℕ-cases p.awake) [
          | inr h ↦ inr (_, takes h)
          | inl e ↦ elim (ℕ-cases p.looking) [
            | inr h ↦ inr (_, looks h)
            | inl f ↦ inl (all_finished tasks p r a b c d e f)
          ]
        ]
      ]
    ]
  ]
]

-- By the calls that are about to look, when pools with less work drain.
drain_looking :
    (tasks : List ℕ) (n m : ℕ)
    → ((q : ThreadPool) → IsRunning tasks q → work q < n → Drains tasks q)
    → (p : ThreadPool) → IsRunning tasks p
    → work p ≤ n
    → p.looking ≤ m
    → Drains tasks p
drain_looking tasks n zero below p r small few =
    drained
      (λ q g. elim (Go-Advances p q g r.runs).less [
        | inl less ↦ below q (Go-IsRunning tasks p q g r) (omega (arith, less, small))
        | inr fewer ↦ absurd (let h = fewer.1 in omega (arith, h, few))
      ])
      (advance tasks p r)
drain_looking tasks n (suc m) below p r small few =
    drained
      (λ q g. elim (Go-Advances p q g r.runs).less [
        | inl less ↦ below q (Go-IsRunning tasks p q g r) (omega (arith, less, small))
        | inr fewer ↦
            let le = fewer.0 in
            let h = fewer.1 in
            drain_looking tasks n m below q (Go-IsRunning tasks p q g r) (omega (arith, le, small))
              (omega (arith, h, few))
      ])
      (advance tasks p r)

drain : (tasks : List ℕ) (n : ℕ) (p : ThreadPool) → IsRunning tasks p → work p < n → Drains tasks p
drain tasks zero p r small = absurd (omega (arith, small))
drain tasks (suc n) p r small =
    drain_looking tasks n p.looking (drain tasks n) p r (omega (arith, small)) (omega arith)

-- From every pool that was reached from a new one, whatever the threads did and whoever called, as
-- long as it was not told to stop: however its threads go on from there, with no other call and no
-- wake-up but those of the code, they come to an end, and never to a halt before it. At the end
-- every call of `wait_all` has returned, and every task has run exactly as often as it was
-- submitted.
pub drains :
    (hardware num_threads : ℕ) (p : ThreadPool)
    → Steps (new hardware num_threads) p
    → p.stop ≡ false
    → Drains p.submitted p
drains hardware num_threads p steps runs =
    drain p.submitted (suc (work p)) p
      (record {
        accounts = reached-Accounts hardware num_threads p steps;
        none_lost = reached-NoneLost hardware num_threads p steps;
        runs = runs;
        same = refl;
      })
      (omega arith)
