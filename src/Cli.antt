-- ===== src/Cli.antt =====
-- src/cli/mod.rs: what the commands `plan`, `query` and `explain` make of a statement's text, up to the
-- printing. The database's directory is resolved before.
pub mod Creates
mod Tests
use skipper_db.Base.{ℕ, ◌++◌}
use skipper_db.Base.Utf8.{Text, ascii}
use skipper_db.Errors.{Error, ok, err}
use skipper_db.Fuel.{Run, done}
use skipper_db.Fuel
use skipper_db.Errors
use skipper_db.Parser.Lexer.{ParseError}
use skipper_db.Parser.Ast.{Statement}
use skipper_db.Parser.State.{Parsed, parsed, refused}
use skipper_db.Parser.State
use skipper_db.Parser.Descent.Statements.{parse}
use skipper_db.Query.Plan.{LogicalPlan}
use skipper_db.Query.Plan
use skipper_db.Query.Planner.{PlanError, PlanResult, planned, Catalog, plan}
use skipper_db.Query.Planner
use skipper_db.Query.Physical.{PhysicalPlan, from_logical}
use skipper_db.Query.Physical
use skipper_db.Query.Directory.{Files, dir_catalog, QueryResult, execute}

-- How a command ends: with an answer, or with the error of the part that failed.
pub data Outcome {ℓ} (A : Type ℓ) : Type ℓ where
  answered : A → Outcome A
  not_parsed : ParseError → Outcome A
  not_planned : PlanError → Outcome A
  not_run : Error → Outcome A
  panic out_of_fuel : Outcome A

infixl 5 ◌>>=◌ ◌>>◌
abbrev pub ◌>>=◌ {ℓ κ} : {A : Type ℓ} {B : Type κ} → Outcome A → (A → Outcome B) → Outcome B
answered a >>= f = f a
not_parsed e >>= f = not_parsed e
not_planned e >>= f = not_planned e
not_run e >>= f = not_run e
panic >>= f = panic
out_of_fuel >>= f = out_of_fuel

abbrev pub ◌>>◌ {ℓ κ} : {A : Type ℓ} {B : Type κ} → Outcome A → Outcome B → Outcome B
m >> k = m >>= λ _. k

abbrev pub of_parser : Parsed Statement → Outcome Statement
of_parser (parsed s p) = answered s
of_parser (refused e) = not_parsed e
of_parser State.panic = panic
of_parser State.out_of_fuel = out_of_fuel

abbrev pub of_planner : PlanResult LogicalPlan → Outcome LogicalPlan
of_planner (planned node) = answered node
of_planner (Planner.refused e) = not_planned e

abbrev pub of_run {ℓ} : {A : Type ℓ} → Run A → Outcome A
of_run (done (ok a)) = answered a
of_run (done (err e)) = not_run e
of_run (done Errors.panic) = panic
of_run Fuel.out_of_fuel = out_of_fuel

unfoldable pub logical : Text → Files → Text → Outcome LogicalPlan
logical sql files dir = do
  statement ← of_parser (parse sql)
  of_planner (plan statement (dir_catalog files dir))

-- `Commands::Plan`: what is printed.
unfoldable pub plan_command : Text → Files → Text → Outcome Text
plan_command query files dir = do node ← logical query files dir; answered (Plan.write_at node 0)

-- `Commands::Query`: the files afterwards, and what is printed of.
unfoldable pub query_command : ℕ → Text → Files → Text → Outcome (Files × QueryResult)
query_command fuel sql files dir = do
  node ← logical sql files dir
  of_run (execute fuel files dir (from_logical node))

-- `Commands::Explain`: what is printed.
unfoldable pub explain_command : Text → Files → Text → Outcome Text
explain_command sql files dir = do
  node ← logical sql files dir
  answered (
      ascii "Logical Plan:\n"
      ++ (Plan.write_at node 0
          ++ (ascii "Physical Plan:\n" ++ Physical.write_at (from_logical node) 0)))
