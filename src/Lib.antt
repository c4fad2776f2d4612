-- ===== src/Lib.antt =====
-- FlexQL: a small SQL server in C++ with a columnar storage engine (src/, include/).
--
-- A client sends SQL over a socket (src/client, src/server); the parser (src/parser) makes a
-- statement of it; the executor (src/executor) runs the statement on tables (src/storage), each a
-- set of column files and an index on the first column if that is called ID (src/index). Column
-- files and indexes read their pages through an LRU cache (src/cache) in front of a pager that maps
-- a file of 1 GB into memory (src/storage/pager.cpp).
--
-- What is modelled, file by file:
--  - Storage/Pager: `Pager` and the pages of include/storage/page.h. A pointer to a page is its
--    offset in the mapping; the calls of `msync` are recorded.
--  - Cache/Lru and Cache/Manager: `LRUCache` and `CacheManager`, with the pager that they share.
--    Cache/Lru/Invariant, Preserve and Policy hold the invariant, its preservation and the order of
--    eviction; Cache/Manager/Transparent, Durable and Marks what the owners of a cache rely on.
--  - Storage/Column and Storage/Reader: `ColumnStore` and `ColumnReader`. Storage/Column/Represents
--    says when a column holds a list of rows; Open, Write, Append and Lifecycle prove it of the
--    operations; Storage/Reader/Scan and Rows say what is read; Storage/History puts a column beside
--    the list of its rows over any sequence of calls.
--  - Storage/PageOps: the inserts of src/storage/column_ops.cpp.
--  - Storage/Serializer and Storage/BatchBuffer: `Serializer` and `ColumnBatchBuffer`; Serializer/Read
--    is about what is read back.
--  - Index/Node and Index/Tree: `BPTree`. Index/Node/Entries and Insert are about the arrays of a
--    leaf; Index/Tree/Walk puts the walks from the root beside walks over the pages, Leaf and Insert
--    say what `insert` does to `search`, Create is about new pages and `clear`.
--  - Parser/Tokenizer: `Tokenizer`. Span says what its loops take, Total that it ends, RoundTrip that
--    printed tokens are read back.
--  - Storage/Row, Storage/Table and Index/IndexManager: values, tables and the map of the indexes of a
--    table. Storage/Row/Order and Cells are about the comparison of values and what is read back of a
--    stored one, Row/Layout is `Schema::finalize`, and Row/Values the other functions of row.cpp;
--    Storage/Table/Holds says when a table holds a list of rows, Insert what an insert does to them.
--  - Parser/Ast, Keywords, Words and Parse: the statements, and `Parser::parse`. Parse/Valid is
--    about the check at its end. Parser/Print has the texts of statements, Words/Plain and Find what
--    the functions that take a text apart leave of names and where they find words; Parse/Printed and
--    Columns are about INSERT, DELETE and CREATE, Parse/Clauses, Selected, Joined, Sources, Ends and
--    RoundTrip about the parts of a SELECT, and Parser/Sql about all of them.
--  - Executor/Database, Insert, Filter and Select: `Executor`, with a statement as one step. The
--    tables lie in a heap, and a `Table*` is an address of it. Executor/Rows is `materialize_row`, and
--    Executor/HashJoin is `HashJoin::join`; Rows/Held, HashJoin/Build and Nested put them beside the
--    rows that the tables hold, Rows/Lookup says what the index finds, and Rows/Indexed when it has all
--    rows. Select/Query has the filter as a test of each row, Select/Refines, Lookup, Ids and ById what
--    a SELECT answers.
--  - Executor/Database/Create, Insert/Values, Printing and Printed, and Parsed: what the other
--    statements do to the tables; Executor/Session is about statements after one another, and
--    Executor/Script about their texts.
--  - Executor/Scan and Executor/Optimizer: the scans, the nested loop join and `Optimizer`.
--  - Server/ThreadPool: `ThreadPool`, as a relation whose steps are the sections under its mutex
--    and the calls of its condition variables behind them. ThreadPool/Accounts is about the tasks,
--    Wakeups about the waiting threads, and Progress about the threads going on.
--  - Server/Stream and Server/Connection: `Server::handle_client` and its callback. Stream/Chunks and
--    Connection/Statements say that the cut of the input into chunks does not matter. The parser and
--    the executor are the interface `Engine`.
--  - Server/Run: the constructor, `run` and `stop` of `Server`, and src/server/main_server.cpp.
--  - Client: `flexql_exec`. Client/Answers is about the lines that it reads, Client/EndToEnd about a
--    query on its way to the server and back, and Client/Sql about one with the parser and the
--    executor behind the server. Client/Shell is the program src/client/main_client.cpp, and
--    Shell/Talk puts a session of it beside the statements that the server's executor runs, and
--    Shell/Script has the parser and the executor behind it.
--  - Base: the shared names, tests, lists, texts, decimal numbers, memory, and what a call comes to.
--
-- Integers are natural numbers with the wrap-around of the C++ types written out. A pointer that is
-- null is `none`; its use, and `back()` of an empty list, set the field `fault`, which the invariant
-- forbids. The mutexes of the cache make each of its calls one step. The loops of the column reader
-- recur on the number of pages left, so no fuel is needed; the walks of the tree take fuel, for which
-- the height of the tree is enough, and the tokenizer has a pass for each character. The mapping has
-- room for 2^18 pages; the theorems on inserts ask that the rows fit into them, since the code does
-- not check.
--
-- The executor's files are opened by the parameter `Disk`; `std::stof`, `std::sort` and the bytes of
-- a union that was never written are parameters too. What C++ does not define (a null pointer, an
-- index out of range) is the outcome `fault`, an exception that is not caught and `exit` are
-- `aborted`. The fuel of the executor is that of the walks in an index.
--
-- Not modelled: sockets, threads and files as the operating system has them, whose answers are
-- arguments; two statements on one table at the same time, which the code does not keep apart; two
-- columns or indexes that map one file (two columns of one name, or column B_C of table A and column
-- C of table A_B), where the outcome of CREATE is `unmodelled`; src/storage/table_manager.cpp and
-- schema.cpp, which use members that their classes do not have; src/index/btree.cpp, whose header is
-- missing; and src/server/main.cpp, which is not built.
pub mod Base
pub mod Storage
pub mod Cache
pub mod Index
pub mod Parser
pub mod Executor
pub mod Server
pub mod Client
