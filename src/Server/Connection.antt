-- ===== src/Server/Connection.antt =====
-- A connection of the server: `server_exec_callback` and `Server::handle_client` of
-- src/server/server.cpp. `send` is what is sent in order; the source does not look at what it
-- returns. The parser and the executor are the interface `Engine`.
pub mod Statements
use flex_ql_dl.Base.{
  ℕ, ◌⊎◌, inl, inr, Bool, true, false, List, [], ◌∷◌, ◌++◌, map, Option, none, some, if◌then◌else◌,
  Text, join_with,
}
use flex_ql_dl.Server.Stream.{receive}

-- What `exec` does: it calls the callback for rows, and sets the text of an error, or an exception
-- leaves it (and with it the thread, which ends the program).
pub data Reply : Type 0 where
  replied : List (List (Option Text)) → Text → Reply
  threw : Reply

pub record Engine : Type 1 where
  pub State : Type 0
  pub Statement : Type 0
  pub parse : Text → Statement
  -- The type of the statement is CREATE, INSERT, SELECT or DELETE.
  pub is_known : Statement → Bool
  pub exec : Statement → State → Reply × State

abbrev pub end_text : Text
end_text = b'E' ∷ b'N' ∷ b'D' ∷ []

abbrev pub row_mark : Text
row_mark = b'R' ∷ b'O' ∷ b'W' ∷ 32 ∷ []

abbrev pub error_mark : Text
error_mark = b'E' ∷ b'R' ∷ b'R' ∷ b'O' ∷ b'R' ∷ b':' ∷ []

abbrev pub invalid_sql : Text
invalid_sql = b'I' ∷ b'n' ∷ b'v' ∷ b'a' ∷ b'l' ∷ b'i' ∷ b'd' ∷ 32 ∷ b'S' ∷ b'Q' ∷ b'L' ∷ []

abbrev pub tab : ℕ
tab = 9

abbrev pub newline : ℕ
newline = 10

abbrev pub semicolon : ℕ
semicolon = 59

abbrev pub value_text : Option Text → Text
value_text none = b'N' ∷ b'U' ∷ b'L' ∷ b'L' ∷ []
value_text (some v) = v

-- `server_exec_callback`: the line of a row.
unfoldable pub row_line : List Text → Text
row_line values = row_mark ++ join_with tab values ++ newline ∷ []

unfoldable pub rows_text : List (List Text) → Text
unfolding row_line
rows_text [] = []
rows_text (row ∷ rows) = row_line row ++ rows_text rows

-- All that is sent for a statement.
unfoldable pub answer_text : List (List Text) → Text → Text
unfolding rows_text
answer_text rows [] = rows_text rows ++ (end_text ++ newline ∷ [])
answer_text rows (c ∷ err) =
    rows_text rows ++ (error_mark ++ 32 ∷ (c ∷ err) ++ newline ∷ []) ++ (end_text ++ newline ∷ [])

module _ (e : Engine) where
  open e use {State, parse, is_known, exec}

  -- The state of the executor, and the bytes that were sent.
  abbrev pub Served : Type 0
  Served = State × Text

  abbrev pub send_reply : Reply × State → Text → Served ⊎ Served
  send_reply (threw, s) sent = inr (s, sent)
  send_reply (replied rows err, s) sent =
      inl (s, sent ++ answer_text (map (map value_text) rows) err)

  -- A statement: it is parsed, refused or executed, and answered.
  unfoldable pub serve : Served → Text → Served ⊎ Served
  serve (s, sent) sql =
      let statement = parse sql in
      send_reply (if is_known statement then exec statement s else (replied [] invalid_sql, s)) sent

  -- The loop over what `recv` gives, until the client is gone.
  unfoldable pub handle_client : State → List Text → (Served × Text) ⊎ (Served × Text)
  unfolding serve
  handle_client s chunks = receive semicolon serve (s, []) [] chunks
