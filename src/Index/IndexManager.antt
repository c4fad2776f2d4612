-- ===== src/Index/IndexManager.antt =====
-- The indexes of a table by name (include/index/index_manager.h, src/index/index_manager.cpp). The
-- file of an index is given by the tree that its constructor made.
use flex_ql_dl.Base.{Option, none, some, if◌then◌else◌, Text, same_text}
use flex_ql_dl.Index.Tree.{BpTree}

abbrev pub IndexManager : Type 0
IndexManager = Text → Option BpTree

abbrev pub no_indexes : IndexManager
no_indexes name = none

-- `indexes[name] = …`, a write through the pointer that `get_index` gives as well.
abbrev pub create_index : IndexManager → Text → BpTree → IndexManager
create_index indexes name tree n = if same_text name n then some tree else indexes n

abbrev pub get_index : IndexManager → Text → Option BpTree
get_index indexes name = indexes name
