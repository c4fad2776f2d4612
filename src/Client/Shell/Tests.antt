-- ===== src/Client/Shell/Tests.antt =====
-- The client's program at concrete inputs.
use flex_ql_dl.Base.{
  ℕ, suc, ◌≡◌, refl, true, false, List, [], ◌∷◌, map, some, none, if◌then◌else◌, Text, c_str,
  join_with, same_text,
}
use flex_ql_dl.Server.Stream.{receive}
use flex_ql_dl.Server.Stream.Chunks.{received}
use flex_ql_dl.Server.Connection.{Engine, replied, row_line, answer_text, serve, handle_client}
use flex_ql_dl.Client.{request, read_line, read_answer, flexql_exec}
use flex_ql_dl.Client.Shell.{Screen, run_shell, read_args, host_text, port_text, defaults}
use flex_ql_dl.Client.Shell.Talk.{Typed, typed_line, server_peer, talk, run_shell-talk}

program : Unit {0}
unfolding serve handle_client receive received answer_text row_line join_with c_str flexql_exec
    read_answer request run_shell same_text
program = tt

-- An executor that answers "hi" and a null value and counts.
abbrev engine : Engine
engine = record {
  State = ℕ;
  Statement = Text;
  parse = λ sql. sql;
  is_known = λ sql. true;
  exec = λ sql n. (
    replied ((some (b'h' ∷ b'i' ∷ []) ∷ none ∷ []) ∷ [])
        (if same_text sql (b'b' ∷ []) then b'n' ∷ b'o' ∷ [] else []),
    suc n,
  );
}

abbrev whole : Text → List Text
whole t = t ∷ []

-- `a;` and `b`
abbrev lines : List Typed
lines =
    record { first = b'a'; rest = []; closed = true }
    ∷ record { first = b'b'; rest = []; closed = false }
    ∷ []

abbrev blank_screen : Screen
blank_screen = record { out = []; err = [] }

run_shell-talk_example :
    run_shell
      (server_peer engine whole)
      (map typed_line lines)
      (record { state = 0; acc = []; screen = blank_screen })
    ≡ record {
      state = (talk engine whole lines 0 blank_screen).0;
      acc = [];
      screen = (talk engine whole lines 0 blank_screen).1;
    }
unfolding program
run_shell-talk_example = run_shell-talk engine whole lines 0 blank_screen (
  ((refl, tt), (refl, (refl, tt)), refl, refl, refl, refl),
  (
    (
      (
        (refl, (refl, tt)),
        (refl, (refl, tt)),
        ((refl, (refl, (refl, (refl, tt)))), (refl, (refl, (refl, (refl, tt)))), refl),
      ),
      tt,
    ),
    tt,
    refl,
  ),
  (
    ((refl, tt), (refl, tt), refl, refl, refl, refl),
    (
      (
        (
          (refl, (refl, tt)),
          (refl, (refl, tt)),
          ((refl, (refl, (refl, (refl, tt)))), (refl, (refl, (refl, (refl, tt)))), refl),
        ),
        tt,
      ),
      (refl, (refl, (refl, tt)), refl),
      refl,
    ),
    tt,
  ),
)

-- The server answers both statements of `a;b`, but the client reads one answer: the other stays in
-- the accumulator, and is taken for the answer to what is asked next.
abbrev second_answer : Text
second_answer =
    b'E' ∷ b'R' ∷ b'R' ∷ b'O' ∷ b'R' ∷ b':' ∷ 32 ∷ b'x' ∷ 10 ∷ b'E' ∷ b'N' ∷ b'D' ∷ 10 ∷ []

out_of_step :
    (flexql_exec [] (b'a' ∷ 59 ∷ b'b' ∷ []) true ((b'E' ∷ b'N' ∷ b'D' ∷ 10 ∷ second_answer) ∷ [])).2
    ≡ second_answer
unfolding program read_line
out_of_step = refl

options :
    read_args (λ l. 7) defaults (port_text ∷ (b'7' ∷ []) ∷ host_text ∷ (b'h' ∷ []) ∷ [])
    ≡ ((b'h' ∷ []), 7)
unfolding read_args same_text
options = refl
