-- ===== src/Client/Tests.antt =====
-- Runs of the client and of the server, and the theorems at concrete inputs.
use mathlib.Core.List.{append-nil}
use flex_ql_dl.Base.{
  ap, ◌∙◌, Bool, false, inr, arith, map, ◌++◌, count, Without, Bool-cases, c_str-Without, ◌==◌, ℕ,
  suc, ◌≡◌, refl, true, inl, List, [], ◌∷◌, some, none, Text, c_str, join_with, same_text, update,
  if◌then◌else◌,
}
use flex_ql_dl.Index.IndexManager.{no_indexes}
use flex_ql_dl.Storage.Table
use flex_ql_dl.Parser.Words.{
  words, strip_right, strip_left, before_first, behind_last, strip_delimiters,
}
use flex_ql_dl.Parser.Parse.{parse, parse_words, parse_delete}
use flex_ql_dl.Executor.Database.{Env, Database, succeeded, exec_delete}
use flex_ql_dl.Executor.Select.{exec}
use flex_ql_dl.Client.Sql.{sql_engine, sql_answer}
use flex_ql_dl.Server.Stream.{receive}
use flex_ql_dl.Server.Stream.Chunks.{received, verdict}
use flex_ql_dl.Server.Connection.{
  Engine, replied, semicolon, row_line, answer_text, serve, handle_client,
}
use flex_ql_dl.Server.Connection.Statements.{
  statements_text, serve_all, with_rest, handle_client-serve_all,
}
use flex_ql_dl.Client.{request, read_line, read_answer, return_code, flexql_exec}
use flex_ql_dl.Client.Answers.{understood, flexql_exec-answer_text}
use flex_ql_dl.Client.Shell.{Screen, run_shell}
use flex_ql_dl.Client.Shell.Talk.{Typed, sql_of, typed_line, server_peer}
use flex_ql_dl.Client.Shell.Script.{Entry, IsEntry, Cuts, printed, run_shell-Runs}
use flex_ql_dl.Client.EndToEnd.{query_answer}

program : Unit {0}
unfolding serve_all serve handle_client receive received statements_text answer_text row_line
    join_with c_str flexql_exec read_answer request
program = tt

engine_program : Unit {0}
unfolding parse words strip_right strip_left before_first behind_last parse_words parse_delete
    strip_delimiters same_text exec exec_delete Table.clear
engine_program = tt

-- An executor that answers "hi" and a null value and counts.
abbrev engine : Engine
engine = record {
  State = ℕ;
  Statement = Text;
  parse = λ sql. sql;
  is_known = λ sql. true;
  exec = λ sql n. (replied ((some (b'h' ∷ b'i' ∷ []) ∷ none ∷ []) ∷ []) [], suc n);
}

abbrev query : Text
query = b'a' ∷ []

-- `a;a;b` in three chunks, the second with a '\0' in it.
abbrev chunks : List Text
chunks = (b'a' ∷ []) ∷ (59 ∷ b'a' ∷ 0 ∷ 59 ∷ []) ∷ (59 ∷ b'b' ∷ []) ∷ []

handle_client-serve_all_example :
    verdict semicolon (serve engine) (handle_client engine 0 chunks)
    ≡ with_rest engine (b'b' ∷ []) (serve_all engine (0, []) (query ∷ query ∷ []))
unfolding program
handle_client-serve_all_example =
    handle_client-serve_all engine 0 (query ∷ query ∷ []) (b'b' ∷ []) chunks
      ((refl, tt), ((refl, tt), tt)) (refl, tt) refl

abbrev values : List (List Text)
values = ((b'h' ∷ b'i' ∷ []) ∷ (b'N' ∷ b'U' ∷ b'L' ∷ b'L' ∷ []) ∷ []) ∷ []

-- The answer in two chunks, cut in the middle of the row.
abbrev answer : List Text
answer =
    (b'R' ∷ b'O' ∷ b'W' ∷ 32 ∷ b'h' ∷ [])
    ∷ (b'i' ∷ 9 ∷ b'N' ∷ b'U' ∷ b'L' ∷ b'L' ∷ 10 ∷ b'E' ∷ b'N' ∷ b'D' ∷ 10 ∷ [])
    ∷ []

flexql_exec-answer_text_example :
    flexql_exec [] query true answer
    ≡ (return_code (understood values []), understood values [], [])
unfolding program
flexql_exec-answer_text_example =
    flexql_exec-answer_text b'a' [] values [] answer
      (
        (
          (refl, (refl, tt)),
          (refl, (refl, tt)),
          ((refl, (refl, (refl, (refl, tt)))), (refl, (refl, (refl, (refl, tt)))), refl),
        ),
        tt,
      )
      tt refl

query_answer_example :
    let r = flexql_exec [] query true answer in
    (verdict semicolon (serve engine) (handle_client engine 0 ((b'a' ∷ []) ∷ (59 ∷ []) ∷ []))
      ≡ inl ((1, answer_text values []), []))
    × (r.0 ≡ return_code (understood values []))
    × (r.1 ≡ understood values [])
unfolding program
query_answer_example =
    query_answer engine 0 1 b'a' [] ((some (b'h' ∷ b'i' ∷ []) ∷ none ∷ []) ∷ []) []
      ((b'a' ∷ []) ∷ (59 ∷ []) ∷ []) answer (refl, tt) refl refl
      (
        (
          (refl, (refl, tt)),
          (refl, (refl, tt)),
          ((refl, (refl, (refl, (refl, tt)))), (refl, (refl, (refl, (refl, tt)))), refl),
        ),
        tt,
      )
      tt refl refl

-- White space at the end of a line is not part of it: a last value that is empty is lost.
empty_value_lost :
    read_line (understood [] []) (b'R' ∷ b'O' ∷ b'W' ∷ 32 ∷ b'x' ∷ 9 ∷ [])
    ≡ inl (understood (((b'x' ∷ []) ∷ []) ∷ []) [])
unfolding program
empty_value_lost = refl

-- `DELETE FROM T`
abbrev delete_sql : Text
delete_sql =
    b'D' ∷ b'E' ∷ b'L' ∷ b'E' ∷ b'T' ∷ b'E' ∷ 32 ∷ b'F' ∷ b'R' ∷ b'O' ∷ b'M' ∷ 32 ∷ b'T' ∷ []

abbrev env : Env
env = record {
  disk = record { column_file = λ _. none; index_file = λ _. none; same_file = same_text };
  data_dir = [];
  junk = 0;
  fuel = 0;
  stof = λ _. none;
  sort = λ before rows. rows;
}

abbrev database : Database
database = record {
  tables = λ n. if same_text n (b'T' ∷ []) then some 0 else none;
  heap = λ _. record { schema = []; columns = []; index_manager = no_indexes };
  next = 1;
  files = [];
}

abbrev emptied : Database
emptied = record database { heap = update database.heap 0 (database.heap 0) }

sql_answer_example :
    let r = flexql_exec [] delete_sql true ((b'E' ∷ b'N' ∷ b'D' ∷ 10 ∷ []) ∷ []) in
    let e = sql_engine env in
    (verdict semicolon (serve e) (handle_client e database (delete_sql ∷ (59 ∷ []) ∷ []))
      ≡ inl ((emptied, answer_text [] []), []))
    × (r.0 ≡ return_code (understood [] []))
    × (r.1 ≡ understood [] [])
unfolding program engine_program
sql_answer_example =
    sql_answer env database emptied b'D'
      (b'E' ∷ b'L' ∷ b'E' ∷ b'T' ∷ b'E' ∷ 32 ∷ b'F' ∷ b'R' ∷ b'O' ∷ b'M' ∷ 32 ∷ b'T' ∷ [])
      (succeeded []) (delete_sql ∷ (59 ∷ []) ∷ []) ((b'E' ∷ b'N' ∷ b'D' ∷ 10 ∷ []) ∷ [])
      (
        refl,
        (
          refl,
          (
            refl,
            (refl, (refl, (refl, (refl, (refl, (refl, (refl, (refl, (refl, (refl, tt)))))))))),
          ),
        ),
      )
      refl refl tt tt refl refl

-- `DELETE FROM T;` and `DELETE FROM T`, typed one after the other.
abbrev typed : Bool → Typed
typed closed = record {
  first = b'D';
  rest = b'E' ∷ b'L' ∷ b'E' ∷ b'T' ∷ b'E' ∷ 32 ∷ b'F' ∷ b'R' ∷ b'O' ∷ b'M' ∷ 32 ∷ b'T' ∷ [];
  closed = closed;
}

abbrev entries : List Entry
entries = (typed true, []) ∷ (typed false, []) ∷ []

without : (c : ℕ) (l : Text) → count c l ≡ 0 → Without c l
without c [] h = tt
without c (d ∷ l) h = elim (Bool-cases (d == c)) [
  | inl same ↦ absurd (omega (arith, rw same at h))
  | inr other ↦ (other, without c l (rw other at h))
]

entry : (closed : Bool) → IsEntry (typed closed, [])
unfolding program
entry true = (
  without semicolon (sql_of (typed true)) refl,
  without 0 (sql_of (typed true)) refl,
  refl,
  refl,
  tt,
  without 0 (answer_text [] []) refl,
)
entry false = (
  without semicolon (sql_of (typed false)) refl,
  without 0 (sql_of (typed false)) refl,
  refl,
  refl,
  tt,
  without 0 (answer_text [] []) refl,
)

one_chunk : Cuts (λ l. l ∷ [])
unfolding program
one_chunk l h = ap (λ t. t ++ []) (c_str-Without l h) ∙ append-nil l

abbrev blank : Screen
blank = record { out = []; err = [] }

run_shell-Runs_example :
    run_shell
      (server_peer (sql_engine env) (λ l. l ∷ []))
      (map typed_line (map (λ x. x.0) entries))
      (record { state = database; acc = []; screen = blank })
    ≡ record {
      state = record emptied { heap = update emptied.heap 0 (emptied.heap 0) };
      acc = [];
      screen = printed entries blank;
    }
unfolding program engine_program
run_shell-Runs_example =
    run_shell-Runs env (λ l. l ∷ []) one_chunk entries database
      (record emptied { heap = update emptied.heap 0 (emptied.heap 0) }) blank
      (entry true, (entry false, tt)) (emptied, refl, refl, (_, refl, refl, refl))
