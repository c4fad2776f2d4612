-- ===== src/Client/Answers.antt =====
-- What the client makes of the lines of the server.
use mathlib.Core.List.{append_assoc, append-nil}
use flex_ql_dl.Base.{
  ℕ, ◌≡◌, refl, sym, ap, ◌∙◌, inl, inr, true, false, List, [], ◌∷◌, ◌++◌, none, some, ◌==◌, All,
  All-append, Text, is_space, same_text, strip_prefix, trim_left, trim_right, getlines, join_with,
  Without,
}
use flex_ql_dl.Base.Visible.{
  EndsVisible, trim_right-EndsVisible, append-EndsVisible, cons-EndsVisible, getlines-append,
  getlines_last,
}
use flex_ql_dl.Server.Stream.{drain, receive}
use flex_ql_dl.Server.Stream.Chunks.{received, drain-separator, receive_whole, taken}
use flex_ql_dl.Server.Connection.{
  tab, newline, row_mark, error_mark, end_text, row_line, rows_text, answer_text,
}
use flex_ql_dl.Client.{
  Progress, start, take_line, read_line, return_code, finish, read_answer, flexql_exec,
}

-- The values of a row that a line can carry: there is one at least, no value has a tabulator or a
-- line break, and the last one ends with a visible byte.
abbrev pub IsPlain : List Text → Type 0
IsPlain [] = ⊥
IsPlain (v ∷ []) = Without tab v × Without newline v × EndsVisible v
IsPlain (v ∷ w ∷ l) = Without tab v × Without newline v × IsPlain (w ∷ l)

join_with-EndsVisible : (row : List Text) → IsPlain row → EndsVisible (join_with tab row)
unfolding join_with
join_with-EndsVisible [] h = absurd h
join_with-EndsVisible (v ∷ []) h = h.2
join_with-EndsVisible (v ∷ w ∷ row) h =
    append-EndsVisible v (tab ∷ join_with tab (w ∷ row))
      (cons-EndsVisible tab (join_with tab (w ∷ row)) (join_with-EndsVisible (w ∷ row) h.2))

join_with-Without : (row : List Text) → IsPlain row → Without newline (join_with tab row)
unfolding join_with
join_with-Without [] h = absurd h
join_with-Without (v ∷ []) h = h.1
join_with-Without (v ∷ w ∷ row) h =
    All-append (λ d. (d == newline) ≡ false) v (tab ∷ join_with tab (w ∷ row)) h.1
      (refl, join_with-Without (w ∷ row) h.2)

getlines-join_with : (row : List Text) → IsPlain row → getlines tab (join_with tab row) ≡ row
unfolding join_with
getlines-join_with [] h = absurd h
getlines-join_with ([] ∷ []) h = absurd h.2
getlines-join_with ((c ∷ v) ∷ []) h = getlines_last tab c v h.0
getlines-join_with (v ∷ w ∷ row) h =
    getlines-append tab v (join_with tab (w ∷ row)) h.0
    ∙ ap (λ l. v ∷ l) (getlines-join_with (w ∷ row) h.2)

-- Where the client stands when it was given rows, and no error.
abbrev pub given : List (List Text) → Progress
given rows = record { error_seen = false; errmsg = none; rows = rows }

read_line-row :
    (rows : List (List Text)) (row : List Text)
    → IsPlain row
    → read_line (given rows) (row_mark ++ join_with tab row) ≡ inl (given (rows ++ row ∷ []))
unfolding read_line take_line trim_left same_text strip_prefix
read_line-row rows row h =
    let ends = append-EndsVisible row_mark (join_with tab row) (join_with-EndsVisible row h) in
    let kept = trim_right-EndsVisible (row_mark ++ join_with tab row) ends in
    ap (λ l. take_line (given rows) (trim_left l)) kept
    ∙ ap (λ r. inl (given (rows ++ r ∷ []))) (getlines-join_with row h)

drain-rows_text :
    (done rows : List (List Text)) (l : Text)
    → All IsPlain rows
    → drain newline read_line (given done) [] (rows_text rows ++ l)
      ≡ drain newline read_line (given (done ++ rows)) [] l
unfolding rows_text row_line
drain-rows_text done [] l h =
    ap (λ r. drain newline read_line (given r) [] l) (sym (append-nil done))
drain-rows_text done (row ∷ rows) l h =
    let line = row_mark ++ join_with tab row in
    let more = rows_text rows ++ l in
    let ih = drain-rows_text (done ++ row ∷ []) rows l h.1 in
    let visible : Without newline line =
      (refl, (refl, (refl, (refl, join_with-Without row h.0)))) in
    ap (drain newline read_line (given done) []) (
      append_assoc (line ++ newline ∷ []) (rows_text rows) l
      ∙ append_assoc line (newline ∷ []) more)
    ∙ drain-separator newline read_line (given done) line more visible
    ∙ ap (λ r. taken newline read_line r more) (read_line-row done row h.0)
    ∙ ih
    ∙ ap (λ r. drain newline read_line (given r) [] l) (append_assoc done (row ∷ []) rows)

-- What the error text of an answer has to be, to be read back.
abbrev pub IsPlainError : Text → Type 0
IsPlainError [] = Unit
IsPlainError (c ∷ err) = (is_space c ≡ false) × Without newline (c ∷ err) × EndsVisible (c ∷ err)

-- What the client makes of an answer.
abbrev pub understood : List (List Text) → Text → Progress
understood rows [] = given rows
understood rows (c ∷ err) = record { error_seen = true; errmsg = some (c ∷ err); rows = rows }

drain-end : (p : Progress) → drain newline read_line p [] (end_text ++ newline ∷ []) ≡ inr (p, [])
unfolding read_line take_line trim_left trim_right same_text
drain-end p = drain-separator newline read_line p end_text [] (refl, (refl, (refl, tt)))

read_line-error :
    (rows : List (List Text)) (c : ℕ) (err : Text)
    → IsPlainError (c ∷ err)
    → read_line (given rows) (error_mark ++ 32 ∷ c ∷ err) ≡ inl (understood rows (c ∷ err))
unfolding read_line take_line trim_left same_text strip_prefix
read_line-error rows c err h =
    let ends = append-EndsVisible (error_mark ++ 32 ∷ []) (c ∷ err) h.2 in
    let kept = trim_right-EndsVisible (error_mark ++ 32 ∷ c ∷ err) ends in
    ap (λ l. take_line (given rows) (trim_left l)) kept ∙ rw h.0 refl

drain-answer_text :
    (rows : List (List Text)) (err : Text)
    → All IsPlain rows
    → IsPlainError err
    → drain newline read_line start [] (answer_text rows err) ≡ inr (understood rows err, [])
unfolding answer_text
drain-answer_text rows [] h k =
    drain-rows_text [] rows (end_text ++ newline ∷ []) h ∙ drain-end (given rows)
drain-answer_text rows (c ∷ err) h k =
    let line = error_mark ++ 32 ∷ c ∷ err in
    let last = end_text ++ newline ∷ [] in
    let visible : Without newline line =
      (refl, (refl, (refl, (refl, (refl, (refl, (refl, k.1))))))) in
    ap (drain newline read_line start [])
      (append_assoc (rows_text rows) (line ++ newline ∷ []) last)
    ∙ drain-rows_text [] rows ((line ++ newline ∷ []) ++ last) h
    ∙ ap (drain newline read_line (given rows) []) (append_assoc line (newline ∷ []) last)
    ∙ drain-separator newline read_line (given rows) line last visible
    ∙ ap (λ r. taken newline read_line r last) (read_line-error rows c err k)
    ∙ drain-end (understood rows (c ∷ err))

read_answer_nil :
    (chunks : List Text) → read_answer [] chunks ≡ receive newline read_line start [] chunks
unfolding read_answer drain
read_answer_nil chunks = refl

-- A query that is sent, and answered by the rows and the error text that the server writes, in
-- any chunks: the call ends with the code for whether there is an error text, the callback got
-- the rows, `errmsg` the text, and nothing is left over for the next call. The values of the rows
-- are ones that a line can carry, and the error text is one line with visible ends.
pub flexql_exec-answer_text :
    (c : ℕ) (sql : Text) (rows : List (List Text)) (err : Text) (chunks : List Text)
    → All IsPlain rows
    → IsPlainError err
    → received chunks ≡ answer_text rows err
    → flexql_exec [] (c ∷ sql) true chunks
      ≡ (return_code (understood rows err), understood rows err, [])
unfolding flexql_exec
flexql_exec-answer_text c sql rows err chunks h k same = ap finish (
    read_answer_nil chunks
    ∙ receive_whole newline read_line start [] chunks (understood rows err) tt
        (ap (drain newline read_line start []) same ∙ drain-answer_text rows err h k))
