-- ===== src/Server/Tests.antt =====
-- A run of the thread pool, and the theorem at a concrete run.
use flex_ql_dl.Base.{◌≡◌, refl, true, false, List, [], ◌∷◌, ◌++◌, none, some, arith, count}
use flex_ql_dl.Server.Run
use flex_ql_dl.Server.Run.{Server, Event, accepted, stopped, clients_of, in_flight, run-clients_of}
use flex_ql_dl.Server.ThreadPool.{
  ThreadPool, new, submit, notify_one, next_task, return_task, end_task, notify_done, all_done,
  wait_all, look, goes, submits, waits, takes, returns, ends, notifies, looks, Steps, start, step,
}
use flex_ql_dl.Server.ThreadPool.Accounts.{wait_all-done}
use flex_ql_dl.Server.ThreadPool.Progress.{Drains, drains}

program : Unit {0}
unfolding new submit notify_one next_task return_task end_task notify_done all_done wait_all look
program = tt

-- Of four workers one waits, a task is submitted to wake it, and `wait_all` is called.
abbrev given : ThreadPool
unfolding program
given = wait_all (submit 7 (next_task [] (new 4 0)))

run_given : Steps (new 4 0) given
unfolding program
run_given = step (goes (takes (omega arith))) (step (submits 7) (step waits start))

abbrev finished : ThreadPool
unfolding program
finished = end_task (return_task 7 [] (next_task (7 ∷ []) (look (notify_one given))))

run : Steps given finished
unfolding program
run = step (goes (notifies (omega arith))) (
    step (goes (looks (omega arith))) (
      step (goes (takes (omega arith)))
        (step (goes (returns [] [] 7 refl)) (step (goes (ends (omega arith))) start))))

run_all : Steps (new 4 0) finished
unfolding program
run_all = step (goes (takes (omega arith))) (step (submits 7) (step waits run))

finished-all_done : all_done finished ≡ true
unfolding program
finished-all_done = refl

-- `wait_all` waits, until the worker wakes it.
heard : (finished.waiting ≡ 1) × ((look (notify_done finished)).looking ≡ 0)
unfolding program
heard = (refl, refl)

wait_all-done_example : count 7 finished.done ≡ count 7 finished.submitted
wait_all-done_example = wait_all-done 4 0 finished run_all finished-all_done 7

drains_example : Drains given.submitted given
unfolding program
drains_example = drains 4 0 given run_given refl

-- Two clients, the second behind a failure, then a stop while a third call is under way.
abbrev events : List Event
events = accepted (some 4) ∷ accepted none ∷ accepted (some 5) ∷ []

abbrev later : List Event
later = accepted (some 6) ∷ accepted (some 7) ∷ []

abbrev server : Server
server = record { running = false; waiting = false; listening = true; clients = [] }

run-clients_of_example :
    (Run.run true (events ++ stopped ∷ later) server).clients
    ≡ [] ++ (clients_of events ++ in_flight later)
run-clients_of_example = run-clients_of events later server tt

handed_over : [] ++ (clients_of events ++ in_flight later) ≡ 4 ∷ 5 ∷ 6 ∷ []
handed_over = refl
