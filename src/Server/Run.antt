-- ===== src/Server/Run.antt =====
-- The start and the end of the server: the constructor, `run` and `stop` of src/server/server.cpp,
-- and src/server/main_server.cpp. What the operating system answers are arguments; `std::atoi` and
-- `std::stoul`, for which `none` is an exception, are parameters. The line on `std::cout` is left out.
use flex_ql_dl.Base.{
  ℕ, ◌≡◌, refl, sym, ap, ◌∙◌, Bool, true, false, List, [], ◌∷◌, ◌++◌, Option, none, some,
  if◌then◌else◌, Text, same_text, Outcome, done, aborted, ◌>>=◌,
}
use mathlib.Core.List.{append_assoc, append-nil}

-- The flag, whether `run` is in a call of `accept`, whether there is a socket to listen on, and the
-- clients that were handed to the pool.
pub record Server : Type 0 where
  pub running : Bool
  pub waiting : Bool
  pub listening : Bool
  pub clients : List ℕ

-- `exit(1)` when there is no socket, or no address for it.
abbrev pub new : Bool → Bool → Outcome Server
new opened bound =
    if opened
    then if bound
      then done (record { running = false; waiting = false; listening = true; clients = [] })
      else aborted
    else aborted

abbrev pub stop : Server → Server
stop s = record s { running = false; listening = false }

-- What happens while `run` waits: `accept` gives a client or fails, or another thread calls `stop`.
pub data Event : Type 0 where
  accepted : Option ℕ → Event
  stopped : Event

abbrev pub handed : Option ℕ → List ℕ
handed none = []
handed (some fd) = fd ∷ []

-- A call of `accept` that was begun is waited for, and its client is taken; then the flag is tested.
abbrev pub accept_client : Option ℕ → Server → Server
accept_client fd s =
    if s.waiting then record s { clients = s.clients ++ handed fd; waiting = s.running } else s

unfoldable pub accept_loop : List Event → Server → Server
accept_loop [] s = s
accept_loop (accepted fd ∷ events) s = accept_loop events (accept_client fd s)
accept_loop (stopped ∷ events) s = accept_loop events (stop s)

unfoldable pub run : Bool → List Event → Server → Server
unfolding accept_loop
run listens events s =
    if listens then accept_loop events (record s { running = true; waiting = true }) else s

-- The clients of the events before a stop, and of the call that a stop did not end.
abbrev pub clients_of : List Event → List ℕ
clients_of [] = []
clients_of (accepted fd ∷ events) = handed fd ++ clients_of events
clients_of (stopped ∷ events) = clients_of events

abbrev pub in_flight : List Event → List ℕ
in_flight [] = []
in_flight (accepted fd ∷ events) = handed fd
in_flight (stopped ∷ events) = in_flight events

abbrev pub NoStop : List Event → Type 0
NoStop [] = Unit
NoStop (accepted fd ∷ events) = NoStop events
NoStop (stopped ∷ events) = ⊥

ended :
    (events : List Event) (s : Server)
    → s.waiting ≡ false
    → (accept_loop events s).clients ≡ s.clients
unfolding accept_loop
ended [] s h = refl
ended (accepted fd ∷ events) s h =
    ap
      (λ b.
        let t : Server = record s { clients = s.clients ++ handed fd; waiting = s.running } in
        (accept_loop events (if b then t else s)).clients)
      h
    ∙ ended events s h
ended (stopped ∷ events) s h = ended events (stop s) h

accept_loop-in_flight :
    (events : List Event) (s : Server)
    → s.running ≡ false
    → s.waiting ≡ true
    → (accept_loop events s).clients ≡ s.clients ++ in_flight events
unfolding accept_loop
accept_loop-in_flight [] s off on = sym (append-nil s.clients)
accept_loop-in_flight (accepted fd ∷ events) s off on =
    let t : Server = record s { clients = s.clients ++ handed fd; waiting = s.running } in
    ap (λ b. (accept_loop events (if b then t else s)).clients) on ∙ ended events t off
accept_loop-in_flight (stopped ∷ events) s off on = accept_loop-in_flight events (stop s) refl on

accept_loop-clients_of :
    (before after : List Event) (s : Server)
    → NoStop before
    → s.running ≡ true
    → s.waiting ≡ true
    → (accept_loop (before ++ stopped ∷ after) s).clients
      ≡ s.clients ++ (clients_of before ++ in_flight after)
unfolding accept_loop
accept_loop-clients_of [] after s h on waits = accept_loop-in_flight after (stop s) refl waits
accept_loop-clients_of (accepted fd ∷ before) after s h on waits =
    let t : Server = record s { clients = s.clients ++ handed fd; waiting = s.running } in
    ap (λ b. (accept_loop (before ++ stopped ∷ after) (if b then t else s)).clients) waits
    ∙ accept_loop-clients_of before after t h on on
    ∙ append_assoc s.clients (handed fd) (clients_of before ++ in_flight after)
    ∙ ap (λ l. s.clients ++ l)
        (sym (append_assoc (handed fd) (clients_of before) (in_flight after)))
accept_loop-clients_of (stopped ∷ before) after s h on waits = absurd h

-- A server that listens hands each client that it accepts to the pool, once and in their order,
-- whatever calls of `accept` fail in between. From the call of `stop` on it hands over no other than
-- the client of the call of `accept` that was under way.
pub run-clients_of :
    (before after : List Event) (s : Server)
    → NoStop before
    → (run true (before ++ stopped ∷ after) s).clients
      ≡ s.clients ++ (clients_of before ++ in_flight after)
unfolding run
run-clients_of before after s h =
    accept_loop-clients_of before after (record s { running = true; waiting = true }) h refl refl

pub record Options : Type 0 where
  pub host : Text
  pub port : ℕ
  pub data_dir : Text
  pub threads : ℕ

abbrev pub defaults : Options
defaults = record {
  host = b'1' ∷ b'2' ∷ b'7' ∷ b'.' ∷ b'0' ∷ b'.' ∷ b'0' ∷ b'.' ∷ b'1' ∷ [];
  port = 9000;
  data_dir = b'.' ∷ b'/' ∷ b'd' ∷ b'a' ∷ b't' ∷ b'a' ∷ [];
  threads = 0;
}

abbrev pub host_flag : Text
host_flag = b'-' ∷ b'-' ∷ b'h' ∷ b'o' ∷ b's' ∷ b't' ∷ []

abbrev pub port_flag : Text
port_flag = b'-' ∷ b'-' ∷ b'p' ∷ b'o' ∷ b'r' ∷ b't' ∷ []

abbrev pub data_dir_flag : Text
data_dir_flag = b'-' ∷ b'-' ∷ b'd' ∷ b'a' ∷ b't' ∷ b'a' ∷ b'-' ∷ b'd' ∷ b'i' ∷ b'r' ∷ []

abbrev pub threads_flag : Text
threads_flag = b'-' ∷ b'-' ∷ b't' ∷ b'h' ∷ b'r' ∷ b'e' ∷ b'a' ∷ b'd' ∷ b's' ∷ []

module _ (atoi : Text → ℕ) (stoul : Text → Option ℕ) where
  -- An option with a word behind it.
  abbrev pub set_option : Text → Text → Options → Option (Outcome Options)
  set_option arg value o =
      if same_text arg host_flag
      then some (done (record o { host = value }))
      else if same_text arg port_flag
      then some (done (record o { port = atoi value }))
      else if same_text arg data_dir_flag
      then some (done (record o { data_dir = value }))
      else if same_text arg threads_flag
      then some (elim (stoul value) [ none ↦ aborted | some n ↦ done (record o { threads = n }) ])
      else none

  -- The loop over the arguments: others are passed over. An exception is not caught.
  unfoldable pub read_options : List Text → Options → Outcome Options
  unfolding same_text
  read_options [] o = done o
  read_options (arg ∷ []) o = done o
  read_options (arg ∷ value ∷ args) o = elim (set_option arg value o) [
    | some next ↦ next >>= read_options args
    | none ↦ read_options (value ∷ args) o
  ]

  -- `main`: with what `socket` and `bind` answer for the options.
  unfoldable pub server_main :
      (Options → Bool × Bool × Bool) → List Event → List Text → Outcome Server
  unfolding read_options run
  server_main calls events args = read_options args defaults >>= λ o.
      let (opened, bound, listens) = calls o in
      new opened bound >>= λ s. done (run listens events s)
