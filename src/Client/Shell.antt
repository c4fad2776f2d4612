-- ===== src/Client/Shell.antt =====
-- The program of the client: src/client/main_client.cpp, with `flexql_open` and `flexql_close` of
-- src/client/flexql.cpp. The other end of the connection is the interface `Peer`; what
-- `std::getline` reads from the terminal is a list of lines, and `std::atoi` a parameter.
pub mod Talk
pub mod Script
mod Tests
use flex_ql_dl.Base.{
  ℕ, Bool, true, false, ◌&&◌, ◌||◌, List, [], ◌∷◌, ◌++◌, map, Option, none, some, if◌then◌else◌,
  ◌==◌, Text, c_str, same_text, to_string,
}
use flex_ql_dl.Storage.Row.Values.{extended}
use flex_ql_dl.Server.Connection.{newline, value_text}
use flex_ql_dl.Client.{Progress, flexql_ok, flexql_error, request, flexql_exec}

-- What is sent is answered by chunks, unless `send` fails.
pub record Peer : Type 1 where
  pub State : Type 0
  pub answer : Text → State → (Bool × List Text) × State

-- What stands on `std::cout` and on `std::cerr`.
pub record Screen : Type 0 where
  pub out : Text
  pub err : Text

abbrev pub prompt_text : Text
prompt_text = b'F' ∷ b'l' ∷ b'e' ∷ b'x' ∷ b'Q' ∷ b'L' ∷ b'>' ∷ 32 ∷ []

abbrev pub bar_text : Text
bar_text = 32 ∷ 124 ∷ 32 ∷ []

abbrev pub exit_text : Text
exit_text = b'e' ∷ b'x' ∷ b'i' ∷ b't' ∷ []

abbrev pub quit_text : Text
quit_text = b'q' ∷ b'u' ∷ b'i' ∷ b't' ∷ []

abbrev pub error_text : Text
error_text = b'E' ∷ b'r' ∷ b'r' ∷ b'o' ∷ b'r' ∷ b':' ∷ 32 ∷ []

abbrev pub unknown_text : Text
unknown_text = b'u' ∷ b'n' ∷ b'k' ∷ b'n' ∷ b'o' ∷ b'w' ∷ b'n' ∷ []

abbrev pub with_bars : List Text → Text
with_bars [] = []
with_bars (v ∷ []) = v
with_bars (v ∷ w ∷ l) = v ++ bar_text ++ with_bars (w ∷ l)

-- `print_row`
abbrev pub print_row : List (Option Text) → Text
print_row row = with_bars (map value_text row) ++ newline ∷ []

abbrev pub print_all : List (List Text) → Text
print_all [] = []
print_all (row ∷ rows) = print_row (map some row) ++ print_all rows

abbrev pub prompted : Screen → Screen
prompted s = record s { out = s.out ++ prompt_text }

-- What the callback prints, and what is said when the code is not 0.
abbrev pub said : ℕ → Progress → Screen → Screen
said code p s = record {
  out = s.out ++ print_all p.rows;
  err =
      if code == flexql_ok
      then s.err
      else s.err
        ++ error_text
        ++ (elim p.errmsg [ none ↦ unknown_text | some msg ↦ msg ])
        ++ newline ∷ [];
}

pub data Command : Type 0 where
  blank leave query : Command

abbrev pub command : Text → Command
command [] = blank
command (c ∷ line) =
    if same_text (c ∷ line) exit_text || same_text (c ∷ line) quit_text then leave else query

module _ (p : Peer) where
  open p use {State, answer}

  -- The other end, the accumulator of the connection, and the screen.
  pub record Session : Type 0 where
    pub state : State
    pub acc : Text
    pub screen : Screen

  -- `flexql_exec(db, line.c_str(), print_row, nullptr, &errmsg)`; an empty text is not sent.
  abbrev pub exec_text : Text → Session → Session
  exec_text [] s = record s {
    screen = said flexql_ok (record { error_seen = false; errmsg = none; rows = [] }) s.screen;
  }
  exec_text (c ∷ sql) s =
      let ((sent, chunks), state) = answer (request (c ∷ sql)) s.state in
      let (code, progress, acc) = flexql_exec s.acc (c ∷ sql) sent chunks in
      record { state = state; acc = acc; screen = said code progress s.screen }

  abbrev pub exec_line : Text → Session → Session
  exec_line line s = exec_text (c_str line) s

  -- The loop of `main`: the prompt, then a line, until there is none or one that says to leave.
  unfoldable pub run_shell : List Text → Session → Session
  unfolding c_str same_text flexql_exec request
  run_shell [] s = record s { screen = prompted s.screen }
  run_shell (line ∷ lines) s =
      let s' : Session = record s { screen = prompted s.screen } in
      elim (command line) [
        | blank ↦ run_shell lines s'
        | leave ↦ s'
        | query ↦ run_shell lines (exec_line line s')
      ]

-- `--host` and `--port` with a word behind them; others are passed over.
abbrev pub host_text : Text
host_text = b'-' ∷ b'-' ∷ b'h' ∷ b'o' ∷ b's' ∷ b't' ∷ []

abbrev pub port_text : Text
port_text = b'-' ∷ b'-' ∷ b'p' ∷ b'o' ∷ b'r' ∷ b't' ∷ []

unfoldable pub read_args : (Text → ℕ) → Text × ℕ → List Text → Text × ℕ
unfolding same_text
read_args atoi o [] = o
read_args atoi o (arg ∷ []) = o
read_args atoi (host, port) (arg ∷ value ∷ args) =
    let as_host = read_args atoi (value, port) args in
    let as_port = read_args atoi (host, atoi value) args in
    let other = read_args atoi (host, port) (value ∷ args) in
    if same_text arg host_text then as_host else if same_text arg port_text then as_port else other

abbrev pub defaults : Text × ℕ
defaults = (b'1' ∷ b'2' ∷ b'7' ∷ b'.' ∷ b'0' ∷ b'.' ∷ b'0' ∷ b'.' ∷ b'1' ∷ [], 5433)

-- A connection is its accumulator; `opened` and `connected` say whether the calls of the operating
-- system succeed.
abbrev pub flexql_open : Bool → Bool → ℕ × Option Text
flexql_open opened connected =
    if opened && connected then (flexql_ok, some []) else (flexql_error, none)

abbrev pub flexql_close : Option Text → ℕ × Option Text
flexql_close db = (flexql_ok, none)

abbrev pub address_text : Text × ℕ → Text
address_text (host, port) = host ++ b':' ∷ to_string port

abbrev pub connected_text : Text
connected_text =
    b'F' ∷ b'l' ∷ b'e' ∷ b'x' ∷ b'Q' ∷ b'L' ∷ 32 ∷ b'c' ∷ b'o' ∷ b'n' ∷ b'n' ∷ b'e' ∷ b'c' ∷ b't'
    ∷ b'e' ∷ b'd' ∷ 32 ∷ b't' ∷ b'o' ∷ 32 ∷ []

abbrev pub refused_text : Text
refused_text =
    b'C' ∷ b'a' ∷ b'n' ∷ b'n' ∷ b'o' ∷ b't' ∷ 32 ∷ b'c' ∷ b'o' ∷ b'n' ∷ b'n' ∷ b'e' ∷ b'c' ∷ b't'
    ∷ 32 ∷ b't' ∷ b'o' ∷ 32 ∷ []

abbrev pub code_text : Text
code_text = 32 ∷ b'(' ∷ b'c' ∷ b'o' ∷ b'd' ∷ b'e' ∷ b'=' ∷ []

-- `main`: what it returns, the other end and the screen.
unfoldable pub client_main :
    (p : Peer)
    → (Text → ℕ)
    → (Text → ℕ → Bool × Bool)
    → List Text
    → List Text
    → p.State
    → ℕ × p.State × Screen
unfolding run_shell read_args to_string
client_main p atoi connect args lines state =
    let address = read_args atoi defaults args in
    let (opened, connected) = connect address.0 address.1 in
    let (code, db) = flexql_open opened connected in
    elim db [
      | none ↦ (
        1,
        state,
        record {
          out = [];
          err =
              refused_text
              ++ address_text address
              ++ code_text
              ++ to_string (extended code)
              ++ b')' ∷ newline ∷ [];
        },
      )
      | some acc ↦
          let screen : Screen = record {
            out = connected_text ++ address_text address ++ newline ∷ [];
            err = [];
          } in
          let s = run_shell p lines (record { state = state; acc = acc; screen = screen }) in
          (0, s.state, s.screen)
    ]
