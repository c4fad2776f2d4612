-- ===== src/Client/EndToEnd.antt =====
-- A query from `flexql_exec` through `handle_client` and back.
use mathlib.Core.List.{append-nil}
use flex_ql_dl.Base.{
  ℕ, ◌≡◌, refl, sym, ap, ◌∙◌, inl, true, false, List, [], ◌∷◌, ◌++◌, map, Option, All, Text,
  Without,
}
use flex_ql_dl.Server.Stream.Chunks.{received, verdict}
use flex_ql_dl.Server.Connection.{
  Engine, replied, semicolon, value_text, answer_text, serve, handle_client,
}
use flex_ql_dl.Server.Connection.Statements.{
  statements_text, serve_all, with_rest, handle_client-serve_all,
}
use flex_ql_dl.Client.{last_is, request, return_code, flexql_exec}
use flex_ql_dl.Client.Answers.{IsPlain, IsPlainError, understood, flexql_exec-answer_text}

pub last_is-Without : (c : ℕ) (l : Text) → Without c l → last_is c l ≡ false
last_is-Without c [] h = refl
last_is-Without c (d ∷ []) h = h.0
last_is-Without c (d ∷ e ∷ l) h = last_is-Without c (e ∷ l) h.1

request-statements_text :
    (q : Text) → Without semicolon q → request q ≡ statements_text (q ∷ []) ++ []
unfolding request statements_text
request-statements_text q h =
    rw (last_is-Without semicolon q h) (sym (append-nil (q ++ semicolon ∷ [])))

-- A query with no semicolon that the parser knows: in whatever chunks it arrives, the server
-- executes it once, keeps nothing of it, and answers it; in whatever chunks the answer arrives,
-- the client's callback gets the rows that the executor gave its own, null values as NULL, and the
-- code and `errmsg` tell its error text. The rows and the text are ones that lines can carry.
pub query_answer :
    (e : Engine) (s s' : e.State) (c : ℕ) (sql : Text) (rows : List (List (Option Text)))
    (err : Text) (there back : List Text)
    → Without semicolon (c ∷ sql)
    → e.is_known (e.parse (c ∷ sql)) ≡ true
    → e.exec (e.parse (c ∷ sql)) s ≡ (replied rows err, s')
    → All IsPlain (map (map value_text) rows)
    → IsPlainError err
    → received there ≡ request (c ∷ sql)
    → received back ≡ answer_text (map (map value_text) rows) err
    → let values = map (map value_text) rows in
      let r = flexql_exec [] (c ∷ sql) true back in
      (verdict semicolon (serve e) (handle_client e s there)
        ≡ inl ((s', answer_text values err), []))
      × (r.0 ≡ return_code (understood values err))
      × (r.1 ≡ understood values err)
unfolding serve_all serve
query_answer e s s' c sql rows err there back h known done plain error asked told =
    let q = c ∷ sql in
    let values = map (map value_text) rows in
    let served : serve e (s, []) q ≡ inl (s', answer_text values err) =
      rw (known, done, serve) refl in
    let all : serve_all e (s, []) (q ∷ []) ≡ inl (s', answer_text values err) =
      rw (served, serve_all) refl in
    let answered = flexql_exec-answer_text c sql values err back plain error told in
    (
      handle_client-serve_all e s (q ∷ []) [] there (h, tt) tt (asked ∙ request-statements_text q h)
          ∙ ap (with_rest e []) all,
      ap (λ r. r.0) answered,
      ap (λ r. r.1) answered,
    )
