-- ===== src/Debug/Marks.antt =====
-- The question marks of a formatted statement.
use xlorm.Common.{
  ◌≡◌, refl, ap, ◌∙◌, sym, List, [], ◌∷◌, ◌++◌, false, ◌==◌, drop, All, arith, append-nil,
}
use xlorm.Text.{Text, join, contains_any, has_byte}
use xlorm.Text.Laws.{Lacks}
use xlorm.Value.{Value}
use xlorm.Debug.{Printer, next_literal, format_sql}

abbrev pub mark : Text
mark = b'?' ∷ []

module _ (p : Printer) where
  -- The pieces of a statement with the literals between them, in the order of the arguments; NULL stands
  -- in where they run out.
  unfoldable pub weave : List Text → List Value → Text
  weave [] args = []
  weave (piece ∷ []) args = piece
  weave (piece ∷ next ∷ pieces) args =
      piece ++ (next_literal p args ++ weave (next ∷ pieces) (drop 1 args))

  -- A piece without a question mark stays as it is.
  format_sql-piece :
      (piece rest : Text) (args : List Value)
      → Lacks mark piece
      → format_sql p (piece ++ rest) args ≡ piece ++ format_sql p rest args
  unfolding format_sql contains_any has_byte
  format_sql-piece [] rest args h = refl
  format_sql-piece (c ∷ piece) rest args h =
      rw no_mark (ap (λ r. c ∷ r) (format_sql-piece piece rest args (ground (arith, h))))
    where
      no_mark : (c == b'?') ≡ false
      no_mark = ground (arith, h)

  -- Formatting replaces the question marks of the statement, one after the other, by the texts of the
  -- arguments, and changes nothing else: a question mark in a string argument is not replaced again.
  pub format_sql-weave :
      (pieces : List Text) (args : List Value)
      → All (Lacks mark) pieces
      → format_sql p (join pieces mark) args ≡ weave pieces args
  unfolding weave join format_sql
  format_sql-weave [] args h = refl
  format_sql-weave (piece ∷ []) args (h, _) =
      ap (λ s. format_sql p s args) (sym (append-nil piece))
      ∙ format_sql-piece piece [] args h
      ∙ append-nil piece
  format_sql-weave (piece ∷ next ∷ pieces) args (h, hs) =
      format_sql-piece piece (mark ++ join (next ∷ pieces) mark) args h
      ∙ ap (λ r. piece ++ (next_literal p args ++ r))
          (format_sql-weave (next ∷ pieces) (drop 1 args) hs)
