-- ===== src/Client/Sql.antt =====
-- A query through the server to the parser and the executor: src/server/server.cpp with
-- src/parser/parser.cpp and src/executor/executor.cpp behind it.
use mathlib.Core.Path.{ap₂, subst}
use flex_ql_dl.Base.{
  ℕ, ◌≡◌, refl, sym, ap, ◌∙◌, inl, Bool, true, false, List, [], ◌∷◌, map, some, All, Text, Without,
  Outcome, done, aborted, fault, starved, unmodelled,
}
use flex_ql_dl.Parser.Ast.{StatementType, none_type, Statement}
use flex_ql_dl.Parser.Parse.{parse}
use flex_ql_dl.Executor.Database.{Env, Database, Answer}
use flex_ql_dl.Executor.Select.{exec}
use flex_ql_dl.Server.Stream.Chunks.{received, verdict}
use flex_ql_dl.Server.Connection.{
  Reply, Engine, replied, threw, semicolon, value_text, answer_text, serve, handle_client,
}
use flex_ql_dl.Client.{request, return_code, flexql_exec}
use flex_ql_dl.Client.Answers.{IsPlain, IsPlainError, understood}
use flex_ql_dl.Client.EndToEnd.{query_answer}

-- The type is not NONE.
abbrev pub has_type : StatementType → Bool
has_type none_type = false
has_type _ = true

-- The callback of the executor gets texts that are not null. Whatever is no answer ends the
-- server, fuel that is not enough and what is not modelled
-- included.
abbrev pub reply : Database → Outcome (Answer × Database) → Reply × Database
reply db (done (answer, db')) = (replied (map (map some) answer.rows) answer.err, db')
reply db aborted = (threw, db)
reply db fault = (threw, db)
reply db starved = (threw, db)
reply db unmodelled = (threw, db)

abbrev pub sql_engine : Env → Engine
sql_engine env = record {
  State = Database;
  Statement = Statement;
  parse = parse;
  is_known = λ s. has_type s.type;
  exec = λ s db. reply db (exec env s db);
}

values_some : (row : List Text) → map value_text (map some row) ≡ row
values_some [] = refl
values_some (v ∷ row) = ap (λ l. v ∷ l) (values_some row)

pub rows_some : (rows : List (List Text)) → map (map value_text) (map (map some) rows) ≡ rows
rows_some [] = refl
rows_some (row ∷ rows) = ap₂ ◌∷◌ (values_some row) (rows_some rows)

-- A query with no semicolon, in whatever chunks it and its answer arrive: when the parser gives a
-- statement of a type and the executor an answer, the server is left with the executor's tables,
-- and the client's callback gets the rows of the answer, and `errmsg` its error text. The rows and
-- the text are ones that lines can carry.
pub sql_answer :
    (env : Env) (db db' : Database) (c : ℕ) (sql : Text) (answer : Answer) (there back : List Text)
    → Without semicolon (c ∷ sql)
    → has_type (parse (c ∷ sql)).type ≡ true
    → exec env (parse (c ∷ sql)) db ≡ done (answer, db')
    → All IsPlain answer.rows
    → IsPlainError answer.err
    → received there ≡ request (c ∷ sql)
    → received back ≡ answer_text answer.rows answer.err
    → let r = flexql_exec [] (c ∷ sql) true back in
      let e = sql_engine env in
      (verdict semicolon (serve e) (handle_client e db there)
        ≡ inl ((db', answer_text answer.rows answer.err), []))
      × (r.0 ≡ return_code (understood answer.rows answer.err))
      × (r.1 ≡ understood answer.rows answer.err)
sql_answer env db db' c sql answer there back h known done' plain error asked told =
    let e = sql_engine env in
    let texts = map (map some) answer.rows in
    let same = rows_some answer.rows in
    subst
      (λ v.
        let r = flexql_exec [] (c ∷ sql) true back in
        (verdict semicolon (serve e) (handle_client e db there)
          ≡ inl ((db', answer_text v answer.err), []))
        × (r.0 ≡ return_code (understood v answer.err))
        × (r.1 ≡ understood v answer.err))
      same
      (query_answer e db db' c sql texts answer.err there back h known (ap (reply db) done')
        (subst (All IsPlain) (sym same) plain) error asked
        (told ∙ ap (λ v. answer_text v answer.err) (sym same)))
