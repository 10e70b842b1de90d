-- ===== src/PythonAst/Syntax.antt =====
-- What the Python adapter reads of the trees that the module `ast` builds. An expression is the text
-- that `ast.unparse` makes of it, and nothing where that raises.
use ai_project.Prelude.{ℕ, String, Bool, Option, List}

abbrev pub Expr : Type 0
Expr = Option String

-- The called expression of a call.
pub data Func : Type 0 where
  name attribute : String → Func
  expression : Expr → Func

pub record Call : Type 0 where
  pub func : Func
  pub args : ℕ
  pub keywords : ℕ
  pub lineno : ℕ

pub record Arg : Type 0 where
  pub arg : String
  pub annotation : Option Expr

-- `signature` is `ast.unparse` of the arguments, `calls` are the calls that `ast.walk` yields, in its
-- order.
pub record FunctionDef : Type 0 where
  pub name : String
  pub args : List Arg
  pub signature : Expr
  pub returns : Option Expr
  pub decorator_list : List Expr
  pub calls : List Call
  pub is_async : Bool
  pub lineno : ℕ
  pub end_lineno : ℕ

-- A target of an assignment; of a tuple, the names and nothing for any other element.
pub data Target : Type 0 where
  named : String → Target
  tuple : List (Option String) → Target
  other_target : Target

pub data ClassItem : Type 0 where
  method : FunctionDef → ClassItem
  assign : List Target → ℕ → ℕ → ClassItem
  ann_assign : Target → Expr → ℕ → ℕ → ClassItem
  other_item : ClassItem

-- `walked` are the lists of decorators of the functions that are not asynchronous, which `ast.walk`
-- yields anywhere in the class.
pub record ClassDef : Type 0 where
  pub name : String
  pub bases : List Expr
  pub body : List ClassItem
  pub walked : List (List Expr)
  pub lineno : ℕ
  pub end_lineno : ℕ

pub record Alias : Type 0 where
  pub name : String
  pub asname : Option String

-- A child of the module.
pub data Statement : Type 0 where
  class : ClassDef → Statement
  function : FunctionDef → Statement
  import : List Alias → ℕ → ℕ → Statement
  import_from : Option String → List Alias → ℕ → ℕ → Statement
  other_statement : Statement
