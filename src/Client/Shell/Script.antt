-- ===== src/Client/Shell/Script.antt =====
-- Statements that are typed into src/client/main_client.cpp, with src/server/server.cpp,
-- src/parser/parser.cpp and src/executor/executor.cpp behind it.
use mathlib.Core.Path.{subst}
use flex_ql_dl.Base.{
  ℕ, ◌≡◌, refl, sym, ap, ◌∙◌, Bool, true, false, List, [], ◌∷◌, ◌++◌, map, some, All, All-append,
  Text, Without, same_text, ◌==◌, done,
}
use flex_ql_dl.Server.Stream.Chunks.{received}
use flex_ql_dl.Server.Connection.{replied, semicolon, answer_text}
use flex_ql_dl.Parser.Words.Plain.{strip_right_end}
use flex_ql_dl.Parser.Words.{words}
use flex_ql_dl.Parser.Print.{closed}
use flex_ql_dl.Parser.Parse.{is_end, parse_clean, parse}
use flex_ql_dl.Executor.Database.{Env, Database, succeeded}
use flex_ql_dl.Executor.Select.{exec}
use flex_ql_dl.Executor.Script.{run}
use flex_ql_dl.Client.{request}
use flex_ql_dl.Client.Answers.{IsPlain}
use flex_ql_dl.Client.EndToEnd.{last_is-Without}
use flex_ql_dl.Client.Sql.{has_type, reply, sql_engine, rows_some}
use flex_ql_dl.Client.Shell.{Screen, exit_text, quit_text, prompted, print_all, run_shell}
use flex_ql_dl.Client.Shell.Talk.{
  Typed, sql_of, typed_line, shown, server_peer, talk, IsAsked, IsTold, AllTold, run_shell-talk,
}

-- A statement that is typed, and the rows that it gives.
abbrev pub Entry : Type 0
Entry = Typed × List (List Text)

-- From one state of the tables to another, each statement in turn returns 0 with its rows.
abbrev pub Runs : Env → List Entry → Database → Database → Type 0
Runs env [] db db' = db ≡ db'
Runs env ((l, texts) ∷ entries) db db' =
    (next : Database) × (has_type (parse (sql_of l)).type ≡ true)
    × (run env (closed (sql_of l)) db ≡ done (succeeded texts, next))
    × Runs env entries next db'

-- The statement is one text with no semicolon or '\0', and its rows are ones that lines can carry.
abbrev pub IsEntry : Entry → Type 0
IsEntry (l, texts) =
    Without semicolon (sql_of l)
    × Without 0 (sql_of l)
    × (same_text (typed_line l) exit_text ≡ false)
    × (same_text (typed_line l) quit_text ≡ false)
    × All IsPlain texts
    × Without 0 (answer_text texts [])

-- The screen behind the statements: prompts and rows.
abbrev pub printed : List Entry → Screen → Screen
printed [] s = prompted s
printed ((l, texts) ∷ entries) s =
    let p = prompted s in printed entries (record p { out = p.out ++ print_all texts })

-- Chunks are what was sent.
abbrev pub Cuts : (Text → List Text) → Type 0
Cuts cut = (l : Text) → Without 0 l → received (cut l) ≡ l

parse_closed : (sql : Text) → parse (closed sql) ≡ parse sql
unfolding parse
parse_closed sql = ap (λ c. parse_clean c (words c)) (strip_right_end is_end sql b';' refl)

request_closed : (sql : Text) → Without semicolon sql → request sql ≡ closed sql
unfolding request
request_closed sql h = rw (last_is-Without semicolon sql h) refl

typed_line-Without :
    (c : ℕ) (rest : Text) (end : Bool)
    → Without 0 (c ∷ rest)
    → Without 0 (typed_line (record { first = c; rest = rest; closed = end }))
typed_line-Without c rest true h =
    All-append (λ d. (d == 0) ≡ false) (c ∷ rest) (semicolon ∷ []) h (refl, tt)
typed_line-Without c rest false h = h

module _ (env : Env) (cut : Text → List Text) (cuts : Cuts cut) where
  IsEntry-IsAsked :
      (l : Typed) (texts : List (List Text))
      → IsEntry (l, texts)
      → has_type (parse (sql_of l)).type ≡ true
      → IsAsked (sql_engine env) cut l
  IsEntry-IsAsked l texts h known =
      let sent = request_closed (sql_of l) h.0 in
      let visible = All-append (λ d. (d == 0) ≡ false) (sql_of l) (semicolon ∷ []) h.1 (refl, tt) in
      (
        h.0,
        typed_line-Without l.first l.rest l.closed h.1,
        h.2,
        h.3,
        known,
        ap (λ t. received (cut t)) sent ∙ cuts (closed (sql_of l)) visible ∙ sym sent,
      )

  IsEntry-IsTold :
      (l : Typed) (texts : List (List Text))
      → IsEntry (l, texts)
      → IsTold (sql_engine env) cut (replied (map (map some) texts) [])
  IsEntry-IsTold l texts h =
      subst (λ v. All IsPlain v × Unit × (received (cut (answer_text v [])) ≡ answer_text v []))
        (sym (rows_some texts)) (h.4, tt, cuts (answer_text texts []) h.5)

  executed :
      (l : Typed) (texts : List (List Text)) (db next : Database)
      → run env (closed (sql_of l)) db ≡ done (succeeded texts, next)
      → reply db (exec env (parse (sql_of l)) db) ≡ (replied (map (map some) texts) [], next)
  executed l texts db next done' =
      ap (λ s. reply db (exec env s db)) (sym (parse_closed (sql_of l))) ∙ ap (reply db) done'

  AllTold-Runs :
      (entries : List Entry) (db db' : Database)
      → All IsEntry entries
      → Runs env entries db db'
      → AllTold (sql_engine env) cut (map (λ x. x.0) entries) db
  AllTold-Runs [] db db' h r = tt
  AllTold-Runs ((l, texts) ∷ entries) db db' h (next, known, done', rest) =
      let e = sql_engine env in
      let r = reply db (exec env (parse (sql_of l)) db) in
      let both : IsTold e cut r.0 × AllTold e cut (map (λ x. x.0) entries) r.1 =
        subst (λ r. IsTold e cut r.0 × AllTold e cut (map (λ x. x.0) entries) r.1)
          (sym (executed l texts db next done'))
          (IsEntry-IsTold l texts h.0, AllTold-Runs entries next db' h.1 rest) in
      (IsEntry-IsAsked l texts h.0 known, both.0, both.1)

  talk-Runs :
      (entries : List Entry) (db db' : Database) (screen : Screen)
      → Runs env entries db db'
      → talk (sql_engine env) cut (map (λ x. x.0) entries) db screen ≡ (db', printed entries screen)
  talk-Runs [] db db' screen r = ap (λ d. (d, prompted screen)) r
  talk-Runs ((l, texts) ∷ entries) db db' screen (next, known, done', rest) =
      let e = sql_engine env in
      let p = prompted screen in
      ap (λ r. talk e cut (map (λ x. x.0) entries) r.1 (shown r.0 p))
        (executed l texts db next done')
      ∙ ap (λ v. talk e cut (map (λ x. x.0) entries) next (record p { out = p.out ++ print_all v }))
          (rows_some texts)
      ∙ talk-Runs entries next db' (record p { out = p.out ++ print_all texts }) rest

  -- Statements that are typed one after another, each with a semicolon at its end or without, and that
  -- the parser knows and the executor runs with success: however requests and answers are cut into
  -- chunks, the server is left with the executor's tables, and the screen shows before each
  -- statement the prompt and behind it its rows, with no error. No statement has a semicolon or a
  -- '\0' in it or is one that leaves, and the rows are ones that lines can carry.
  pub run_shell-Runs :
      (entries : List Entry) (db db' : Database) (screen : Screen)
      → All IsEntry entries
      → Runs env entries db db'
      → run_shell
          (server_peer (sql_engine env) cut)
          (map typed_line (map (λ x. x.0) entries))
          (record { state = db; acc = []; screen = screen })
        ≡ record { state = db'; acc = []; screen = printed entries screen }
  run_shell-Runs entries db db' screen h r =
      run_shell-talk (sql_engine env) cut (map (λ x. x.0) entries) db screen
        (AllTold-Runs entries db db' h r)
      ∙ ap (λ t. record { state = t.0; acc = []; screen = t.1 }) (talk-Runs entries db db' screen r)
