-- ===== src/Parser/Ast.antt =====
-- src/parser/ast.rs: statements and expressions.
use skipper_db.Base.{Bool, List, Option}
use skipper_db.Base.Int.{ℤ}
use skipper_db.Base.Utf8.{Text}

pub data DataType : Type 0 where
  int text : DataType

pub record ColumnDef : Type 0 where
  pub name : Text
  pub ty : DataType
  pub nullable : Bool

pub data Literal : Type 0 where
  int : ℤ → Literal
  str : Text → Literal
  null : Literal

pub data CompareOp : Type 0 where
  eq not_eq lt lt_eq gt gt_eq : CompareOp

-- `Exprs` is the `Vec<Expr>` of a function's arguments.
mutual
  pub data Expr : Type 0 where
    column : Text → Expr
    literal : Literal → Expr
    function : Text → Exprs → Expr
    compare : Expr → CompareOp → Expr → Expr
    and or : Expr → Expr → Expr

  pub data Exprs : Type 0 where
    no_exprs : Exprs
    exprs : Expr → Exprs → Exprs

pub record CreateTable : Type 0 where
  pub table : Text
  pub columns : List ColumnDef

pub record Insert : Type 0 where
  pub table : Text
  pub columns : Option (List Text)
  pub values : List Literal

pub record SelectItem : Type 0 where
  pub expr : Expr
  pub alias : Option Text

pub data Projection : Type 0 where
  all : Projection
  items : List SelectItem → Projection

pub record OrderBy : Type 0 where
  pub column : Text
  pub descending : Bool

pub record Select : Type 0 where
  pub projection : Projection
  pub from : Text
  pub filter : Option Expr
  pub order_by : Option OrderBy
  pub limit : Option ℤ

pub data Statement : Type 0 where
  create_table : CreateTable → Statement
  insert : Insert → Statement
  select : Select → Statement
