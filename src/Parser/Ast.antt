-- ===== src/Parser/Ast.antt =====
-- The statements (include/parser/ast.h). All parts of a statement are there at once; its type says
-- which one counts.
use flex_ql_dl.Base.{Bool, List, Text}

pub data StatementType : Type 0 where
  none_type create_type insert_type select_type delete_type : StatementType

pub record Col : Type 0 where
  pub name : Text
  pub type_str : Text

pub record CreateStmt : Type 0 where
  pub table_name : Text
  pub columns : List Col

pub record InsertStmt : Type 0 where
  pub table_name : Text
  pub raw_values : Text

pub record WhereClause : Type 0 where
  pub column_name : Text
  pub op : Text
  pub value_str : Text

pub record OrderBy : Type 0 where
  pub column : Text
  pub ascending : Bool

pub record Join : Type 0 where
  pub table : Text
  pub on_left : Text
  pub on_right : Text

pub record SelectStmt : Type 0 where
  pub columns : List Text
  pub table_name : Text
  pub where_clauses : List WhereClause
  pub join : Join
  pub order_by : OrderBy
  pub has_join : Bool
  pub has_order : Bool

pub record DeleteStmt : Type 0 where
  pub table_name : Text

pub record Statement : Type 0 where
  pub type : StatementType
  pub create_stmt : CreateStmt
  pub insert_stmt : InsertStmt
  pub select_stmt : SelectStmt
  pub delete_stmt : DeleteStmt
