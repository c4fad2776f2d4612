-- ===== src/Executor/Select/ById.antt =====
-- A SELECT by ID answers what a scan of the rows would: src/executor/executor.cpp with the index.
use mathlib.Core.Option
use flex_ql_dl.Storage.Table.{Table}
use flex_ql_dl.Storage.Table.Holds.{Holds}
use flex_ql_dl.Executor.Rows.Indexed.{Indexed}
use flex_ql_dl.Executor.Database.{Database}
