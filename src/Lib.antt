-- ===== src/Lib.antt =====
-- Skipper-DB: a small row-store SQL database. A statement is parsed (src/parser), checked against
-- the tables' schemas and turned into a logical plan (src/query/mod.rs), lowered to a physical plan
-- (src/query/physical.rs) and run by pull operators (src/query/exec.rs) over tables, which keep each
-- row as an encoded record (src/storage/record.rs) in a slotted page (src/storage/page.rs).
--
-- Which file models what:
--   Base, Base/*            numbers, lists, arrays, bits of a byte, little-endian words, i64, UTF-8,
--                           decimal digits: what the source takes from Rust's standard library
--   Errors, Types           src/error.rs and src/types.rs
--   Fuel                    the outcome of a loop that takes fuel: a Result, or no fuel left
--   Catalog/Schema          src/catalog/schema.rs: Column, Schema, serialize, deserialize. Schema/Accepts
--                           has the bytes that are a schema
--   Storage/Header          src/storage/mod.rs: FileHeader, and init of src/catalog/mod.rs
--   Storage/Record          src/storage/record.rs: encode, decode
--   Storage/Page            src/storage/page.rs: SlottedPage and its methods. Page/Store is what a page
--                           promises (slots that are live or dead, a number of free bytes), and
--                           Page/Refines relates the two; Page/History is about sequences of calls
--   Storage/BTree           src/storage/btree.rs: BTree over a file as a list of pages. BTree/Nodes has the
--                           nodes and their bytes, BTree/Insert has find and insert
--   Storage/Table           src/storage/table.rs: Table, create (create_table) and open (open_table),
--                           get, update and delete; Table/Scan has the scan and its rounds, Table/Indexed
--                           insert, create_index and find_by_key. Table/Stores has the data pages as stores
--                           of slots, Table/Keeps, Table/Refines and Table/Edits relate the file to them,
--                           Table/Listing has the rows of a scan, Table/Rows the rows under their ids,
--                           Table/Head page 0, and Table/History the tables that the methods reach
--   Parser/Ast              src/parser/ast.rs
--   Parser/Lexer            src/parser/lexer.rs: tokenize
--   Parser/State            src/parser/mod.rs: Parser and the methods that take single tokens. A parser is
--                           the tokens from the current one on; State/Streams has the tokens that
--                           end with eof, State/Taken what the methods leave of them
--   Parser/Descent          src/parser/mod.rs: the methods for expressions, and in Descent/Statements those
--                           for statements, and parse. Descent/Loops, Total, Selects and Ends show
--                           that they come to an end; Descent/Spelled and Descent/Inserts have the
--                           tokens that write a CREATE TABLE and an INSERT
--   Query/Plan              src/query/plan.rs: LogicalPlan and its text
--   Query/Planner           src/query/mod.rs: plan and the checks it makes
--   Query/Physical          src/query/physical.rs: PhysicalPlan, from_logical and its text
--   Query/Eval              src/query/exec.rs: eval_scalar, eval_predicate, value_order. Eval/Values has the
--                           order of the values and Eval/Meaning what an expression means, with none
--                           of the code's evaluation in them; Eval/Holds compares the two
--   Query/Sort              src/query/exec.rs: the stable sort of SortOp, as an insertion sort. Sort/Places
--                           is about its own order, Sort/Sorted about that of the values
--   Query/Exec              src/query/exec.rs: the operators and their next. Exec/Reference has the rows
--                           of a whole operator, and Exec/Pulls and Exec/Streams relate the two
--   Query/Build             src/query/exec.rs: build
--   Query/Directory         src/query/exec.rs and src/query/mod.rs: execute, read_table and DirCatalog over
--                           the files of a directory; Directory/Journey is about whole sequences of
--                           statements
--   Query/Select            what a SELECT is to return; Select/Runs relates it to planner and executor
--   Cli                     src/cli/mod.rs: the commands plan, query and explain, from the text of a
--                           statement to the answer; Cli/Creates is about query with a CREATE TABLE
--
-- Conventions. A method that changes its object returns the changed object beside its result. A
-- fallible function returns Result, which has a third constructor, panic, for an index out of range,
-- an overflow that a build with overflow checks reports, and an unwrap of a missing value; so a
-- theorem that gives an ok result says that the code does not panic. Bytes are numbers below 256, a
-- text is the list of its UTF-8 bytes, an i64 is an integer with its bounds as a predicate, and `as
-- u16` and `as u32` are remainders. A decimal number is printed with fuel 20, which is the number of
-- digits of 2 ^ 64.
-- The operators loop until a row comes or their input ends; next and drain take fuel, and running out
-- of it is an outcome of its own; Exec/Reference.enough bounds what a call of next needs. The lexer's
-- loop has one unit of fuel for each byte and one more, and the parser one for each token and one more. The descent of the index has one for each
-- level. A scan takes one
-- for each of its rounds; read_table gives it 65537 for each page, and a page has less slots than that.
-- A usize has 64 bits. A file is a list of whole pages, and a directory a function from paths to files. The
-- planner and build take the schemas and the rows of tables from functions; Query/Directory gives both.
--
-- Not modelled: the arguments of the command line, its log, the directory that it picks, and how it prints
-- a result. Reads and writes of files fail only as a missing file,
-- an existing one, or one that is too short; a file whose length is no multiple of the page size and the
-- directories themselves are left out, and so is what a failing insert into an index has written to the
-- index file before it failed. Log lines and the Display texts of storage errors are left out.
pub mod Base
pub mod Errors
pub mod Fuel
pub mod Types
pub mod Catalog
pub mod Storage
pub mod Parser
pub mod Query
pub mod Cli
