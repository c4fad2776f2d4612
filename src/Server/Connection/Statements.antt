-- ===== src/Server/Connection/Statements.antt =====
-- What a connection answers does not depend on the chunks, and is what its statements get.
use flex_ql_dl.Base.{◌≡◌, refl, ap, ◌∙◌, ◌⊎◌, inl, inr, List, [], ◌∷◌, ◌++◌, All, Text, Without}
use mathlib.Core.List.{append_assoc}
use flex_ql_dl.Server.Stream.{drain}
use flex_ql_dl.Server.Stream.Chunks.{
  received, cases, verdict, receive-drain, drain-separator, drain_rest,
}
use flex_ql_dl.Server.Connection.{Engine, Served, semicolon, serve, handle_client}

-- The statements one after the other, each with a semicolon behind it.
unfoldable pub statements_text : List Text → Text
statements_text [] = []
statements_text (sql ∷ sqls) = sql ++ semicolon ∷ statements_text sqls

module _ (e : Engine) where
  -- The statements are served in turn, up to one that ends the program.
  unfoldable pub serve_all : Served e → List Text → Served e ⊎ Served e
  serve_all s [] = inl s
  serve_all s (sql ∷ sqls) = elim (serve e s sql) [ inl s' ↦ serve_all s' sqls | inr r ↦ inr r ]

  abbrev pub with_rest : Text → Served e ⊎ Served e → (Served e × Text) ⊎ Served e
  with_rest rest (inl s) = inl (s, rest)
  with_rest rest (inr r) = inr r

  drain-serve_all :
      (s : Served e) (sqls : List Text) (rest : Text)
      → All (Without semicolon) sqls
      → Without semicolon rest
      → verdict semicolon (serve e) (drain semicolon (serve e) s [] (statements_text sqls ++ rest))
        ≡ with_rest rest (serve_all s sqls)
  unfolding statements_text serve_all
  drain-serve_all s [] rest h k =
      ap (verdict semicolon (serve e)) (drain_rest semicolon (serve e) s rest k)
  drain-serve_all s (sql ∷ sqls) rest h k =
      let v = verdict semicolon (serve e) in
      let regroup = append_assoc sql (semicolon ∷ statements_text sqls) rest in
      let first = drain-separator semicolon (serve e) s sql (statements_text sqls ++ rest) h.0 in
      ap (λ l. v (drain semicolon (serve e) s [] l)) regroup
      ∙ ap v first
      ∙ elim (cases (serve e s sql)) [
        | inl (s', e') ↦ rw (e', serve_all) (drain-serve_all s' sqls rest h.1 k)
        | inr (r, e') ↦ rw (e', serve_all) refl
      ]

  -- A connection that receives statements with a semicolon behind each, in any chunks, and then
  -- the start of another, serves the statements in turn and keeps that start; it sends what they
  -- are answered, and stops at a statement whose execution throws.
  pub handle_client-serve_all :
      (s : e.State) (sqls : List Text) (rest : Text) (chunks : List Text)
      → All (Without semicolon) sqls
      → Without semicolon rest
      → received chunks ≡ statements_text sqls ++ rest
      → verdict semicolon (serve e) (handle_client e s chunks)
        ≡ with_rest rest (serve_all (s, []) sqls)
  unfolding handle_client
  handle_client-serve_all s sqls rest chunks h k same =
      receive-drain semicolon (serve e) (s, []) [] chunks tt
      ∙ ap (λ l. verdict semicolon (serve e) (drain semicolon (serve e) (s, []) [] l)) same
      ∙ drain-serve_all (s, []) sqls rest h k
