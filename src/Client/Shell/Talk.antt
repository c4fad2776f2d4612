-- ===== src/Client/Shell/Talk.antt =====
-- A talk of the client's program with the server: src/client/main_client.cpp and
-- src/client/flexql.cpp with src/server/server.cpp behind them.
use flex_ql_dl.Base.{
  ℕ, ◌≡◌, ◌⊎◌, refl, ap, ◌∙◌, inl, inr, Bool, true, false, List, [], ◌∷◌, ◌++◌, map, Option, All,
  if◌then◌else◌, Text, c_str-Without, same_text, Without,
}
use flex_ql_dl.Server.Stream.Chunks.{received, verdict}
use flex_ql_dl.Server.Connection.{
  Engine, Reply, replied, threw, Served, newline, semicolon, value_text, answer_text, serve,
  handle_client,
}
use flex_ql_dl.Client.{last_is, request, return_code, flexql_exec}
use flex_ql_dl.Client.Answers.{IsPlain, IsPlainError, understood, flexql_exec-answer_text}
use flex_ql_dl.Client.EndToEnd.{last_is-Without, query_answer}
use flex_ql_dl.Client.Shell.{
  Peer, Screen, prompted, print_all, said, error_text, exit_text, quit_text, exec_text, exec_line,
  run_shell,
}

-- A line that is typed: a statement, with or without a semicolon at its end.
pub record Typed : Type 0 where
  pub first : ℕ
  pub rest : Text
  pub closed : Bool

abbrev pub sql_of : Typed → Text
sql_of l = l.first ∷ l.rest

abbrev pub typed_line : Typed → Text
typed_line l = l.first ∷ (if l.closed then l.rest ++ semicolon ∷ [] else l.rest)

abbrev pub values_of : List (List (Option Text)) → List (List Text)
values_of rows = map (map value_text) rows

-- What is printed of a reply.
abbrev pub shown : Reply → Screen → Screen
shown threw s = s
shown (replied rows err) s = record {
  out = s.out ++ print_all (values_of rows);
  err = elim err [ [] ↦ s.err | ◌∷◌ c l ↦ s.err ++ error_text ++ (c ∷ l) ++ newline ∷ [] ];
}

-- The server's end of a connection. `cut` is how a text arrives in chunks. Each request ends with a
-- semicolon, so the loop of `handle_client` keeps nothing of it.
abbrev pub answered :
    {S : Type 0}
    → (Text → List Text)
    → ((S × Text) × Text) ⊎ ((S × Text) × Text)
    → (Bool × List Text) × S
answered cut (inl ((s, sent), acc)) = ((true, cut sent), s)
answered cut (inr ((s, sent), acc)) = ((true, cut sent), s)

module _ (e : Engine) (cut : Text → List Text) where
  abbrev pub server_peer : Peer
  server_peer = record { State = e.State; answer = λ q s. answered cut (handle_client e s (cut q)) }

  -- The statements are executed in turn, and what each gives is shown.
  abbrev pub talk : List Typed → e.State → Screen → e.State × Screen
  talk [] s screen = (s, prompted screen)
  talk (l ∷ ls) s screen =
      let (reply, s') = e.exec (e.parse (sql_of l)) s in talk ls s' (shown reply (prompted screen))

  -- The statement is one that is sent whole, and that the parser knows.
  abbrev pub IsAsked : Typed → Type 0
  IsAsked l =
      Without semicolon (sql_of l)
      × Without 0 (typed_line l)
      × (same_text (typed_line l) exit_text ≡ false)
      × (same_text (typed_line l) quit_text ≡ false)
      × (e.is_known (e.parse (sql_of l)) ≡ true)
      × (received (cut (request (sql_of l))) ≡ request (sql_of l))

  -- The reply is one that lines can carry.
  abbrev pub IsTold : Reply → Type 0
  IsTold threw = ⊥
  IsTold (replied rows err) =
      All IsPlain (values_of rows)
      × IsPlainError err
      × (received (cut (answer_text (values_of rows) err)) ≡ answer_text (values_of rows) err)

  abbrev pub AllTold : List Typed → e.State → Type 0
  AllTold [] s = Unit
  AllTold (l ∷ ls) s =
      let r = e.exec (e.parse (sql_of l)) s in IsAsked l × IsTold r.0 × AllTold ls r.1

  last_is-append : (l : Text) → last_is semicolon (l ++ semicolon ∷ []) ≡ true
  last_is-append [] = refl
  last_is-append (c ∷ []) = refl
  last_is-append (c ∷ d ∷ l) = last_is-append (d ∷ l)

  request-typed_line :
      (c : ℕ) (rest : Text) (closed : Bool)
      → Without semicolon (c ∷ rest)
      → let l : Typed = record { first = c; rest = rest; closed = closed } in
        request (typed_line l) ≡ request (sql_of l)
  unfolding request
  request-typed_line c rest true h =
      rw (last_is-append (c ∷ rest), last_is-Without semicolon (c ∷ rest) h) refl
  request-typed_line c rest false h = refl

  served :
      (x : (Served e × Text) ⊎ (Served e × Text)) (s : e.State) (sent : Text)
      → verdict semicolon (serve e) x ≡ inl ((s, sent), [])
      → answered cut x ≡ ((true, cut sent), s)
  served (inl y) s sent h = ap (λ z. ((true, cut z.0.1), z.0.0)) (ap (left_of ((s, sent), [])) h)
    where
      left_of : {A B : Type 0} → A → A ⊎ B → A
      left_of d (inl a) = a
      left_of d (inr b) = d
  served (inr y) s sent h = cc

  said-understood :
      (rows : List (List (Option Text))) (err : Text) (screen : Screen)
      → said
          (return_code (understood (values_of rows) err))
          (understood (values_of rows) err)
          screen
        ≡ shown (replied rows err) screen
  said-understood rows [] screen = refl
  said-understood rows (c ∷ err) screen = refl

  -- A line is answered by what the server's executor gives, and the connection is left clean.
  exec_line-typed_line :
      (l : Typed) (s s' : e.State) (rows : List (List (Option Text))) (err : Text) (screen : Screen)
      → IsAsked l
      → e.exec (e.parse (sql_of l)) s ≡ (replied rows err, s')
      → IsTold (replied rows err)
      → exec_line server_peer (typed_line l) (record { state = s; acc = []; screen = screen })
        ≡ record { state = s'; acc = []; screen = shown (replied rows err) screen }
  exec_line-typed_line l s s' rows err screen asked done told =
      let line = typed_line l in
      let values = values_of rows in
      let ask = cut (request (sql_of l)) in
      let back = cut (answer_text values err) in
      let (answer, _, _) =
        query_answer e s s' l.first l.rest rows err ask back asked.0 asked.4 done told.0 told.1
          asked.5 told.2 in
      let same = request-typed_line l.first l.rest l.closed asked.0 in
      let peer : answered cut (handle_client e s (cut (request line))) ≡ ((true, back), s') =
        ap (λ q. answered cut (handle_client e s (cut q))) same
        ∙ served (handle_client e s ask) s' (answer_text values err) answer in
      let got =
        flexql_exec-answer_text l.first (if l.closed then l.rest ++ semicolon ∷ [] else l.rest)
          values err back told.0 told.1 told.2 in
      ap (λ t. exec_text server_peer t (record { state = s; acc = []; screen = screen }))
        (c_str-Without line asked.1)
      ∙ ap
          (λ a.
            let r = flexql_exec [] line a.0.0 a.0.1 in
            record { state = a.1; acc = r.2; screen = said r.0 r.1 screen })
          peer
      ∙ ap (λ r. record { state = s'; acc = r.2; screen = said r.0 r.1 screen }) got
      ∙ ap (λ v. record { state = s'; acc = []; screen = v }) (said-understood rows err screen)

  exec_line-shown :
      (l : Typed) (s : e.State) (screen : Screen)
      → IsAsked l
      → let r = e.exec (e.parse (sql_of l)) s in
        IsTold r.0
        → exec_line server_peer (typed_line l) (record { state = s; acc = []; screen = screen })
          ≡ record { state = r.1; acc = []; screen = shown r.0 screen }
  exec_line-shown l s screen asked told = step (e.exec (e.parse (sql_of l)) s) refl told
    where
      step :
          (r : Reply × e.State)
          → e.exec (e.parse (sql_of l)) s ≡ r
          → IsTold r.0
          → exec_line server_peer (typed_line l) (record { state = s; acc = []; screen = screen })
            ≡ record { state = r.1; acc = []; screen = shown r.0 screen }
      step (threw, s') done told = absurd told
      step (replied rows err, s') done told =
          exec_line-typed_line l s s' rows err screen asked done told

  -- Lines that are typed at the prompt, each a statement that the parser knows, with or without a
  -- semicolon at its end, and not one that leaves: however requests and answers are cut into chunks,
  -- the server executes the statements in turn, and the screen shows for each the prompt, the rows
  -- and the error text that the executor gave, and a last prompt. The rows and the error texts are
  -- ones that lines can carry, and no statement ends the server.
  pub run_shell-talk :
      (ls : List Typed) (s : e.State) (screen : Screen)
      → AllTold ls s
      → run_shell server_peer (map typed_line ls) (record { state = s; acc = []; screen = screen })
        ≡ record { state = (talk ls s screen).0; acc = []; screen = (talk ls s screen).1 }
  unfolding run_shell
  run_shell-talk [] s screen h = refl
  run_shell-talk (l ∷ ls) s screen h =
      let (asked, told, later) = h in
      rw (asked.2, asked.3, run_shell)
        (ap (run_shell server_peer (map typed_line ls))
            (exec_line-shown l s (prompted screen) asked told)
          ∙ run_shell-talk ls _ _ later)
