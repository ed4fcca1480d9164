-- ===== src/Query/Expr.antt =====
-- storage/src/query/parser.rs: the expressions of PromQL. `ExprType` is `Expr`, whose only field it is;
-- a list of arguments is `Exprs`. An `f64` is its bit pattern.
use chono_db.Prelude.{List, Bool, Option}
use chono_db.Prelude.Int.{ℤ}
use chono_db.Prelude.Text.{Text, codes}
use chono_db.Model.{F64}
use chono_db.Query.Function.{Function}

pub data MatchOp : Type 0 where
  equal : MatchOp
  not_equal : MatchOp
  regex_match : MatchOp
  regex_not_match : MatchOp
  regex : MatchOp
  not_regex : MatchOp

pub record Matcher : Type 0 where
  pub name : Text
  pub value : Text
  pub op : MatchOp

-- `Matcher::eq`
unfoldable pub eq : Text → Text → Matcher
eq name value = record { name = name; value = value; op = equal }

pub record AtModifier : Type 0 where
  pub timestamp : ℤ

pub record VectorSelector : Type 0 where
  pub name : Option Text
  pub matchers : List Matcher
  pub offset : Option ℤ
  pub at : Option AtModifier

pub record MatrixSelector : Type 0 where
  pub vector_selector : VectorSelector
  pub range : ℤ

pub data VectorMatchCardinality : Type 0 where
  one_to_one : VectorMatchCardinality
  many_to_one : VectorMatchCardinality
  one_to_many : VectorMatchCardinality
  many_to_many : VectorMatchCardinality

pub record VectorMatching : Type 0 where
  pub cardinality : VectorMatchCardinality
  pub matching_labels : List Text
  pub on : Bool

pub data UnaryOp : Type 0 where
  add : UnaryOp
  sub : UnaryOp

pub data BinaryOp : Type 0 where
  add : BinaryOp
  sub : BinaryOp
  mul : BinaryOp
  div : BinaryOp
  mod' : BinaryOp
  pow : BinaryOp
  eq' : BinaryOp
  ne : BinaryOp
  lt : BinaryOp
  le : BinaryOp
  gt : BinaryOp
  ge : BinaryOp
  and : BinaryOp
  or : BinaryOp
  unless : BinaryOp

mutual
  pub data Expr : Type 0 where
    vector : VectorSelector → Expr
    matrix : MatrixSelector → Expr
    subquery : Expr → ℤ → ℤ → Expr
    call : Function → Exprs → Expr
    binary : BinaryOp → Expr → Expr → Option VectorMatching → Expr
    unary : UnaryOp → Expr → Expr
    aggregation : Function → Expr → List Text → Bool → Expr
    number_literal : F64 → Expr
    string_literal : Text → Expr

  pub data Exprs : Type 0 where
    no_exprs : Exprs
    more_exprs : Expr → Exprs → Exprs

-- `Display` of the operators.
unfoldable pub fmt_match : MatchOp → Text
fmt_match equal = codes "="
fmt_match not_equal = codes "!="
fmt_match regex_match = codes "=~"
fmt_match regex_not_match = codes "!~"
fmt_match regex = codes "=~"
fmt_match not_regex = codes "!~"

unfoldable pub fmt_unary : UnaryOp → Text
fmt_unary add = codes "+"
fmt_unary sub = codes "-"

unfoldable pub fmt_binary : BinaryOp → Text
fmt_binary add = codes "+"
fmt_binary sub = codes "-"
fmt_binary mul = codes "*"
fmt_binary div = codes "/"
fmt_binary mod' = codes "%"
fmt_binary pow = codes "^"
fmt_binary eq' = codes "=="
fmt_binary ne = codes "!="
fmt_binary lt = codes "<"
fmt_binary le = codes "<="
fmt_binary gt = codes ">"
fmt_binary ge = codes ">="
fmt_binary and = codes "and"
fmt_binary or = codes "or"
fmt_binary unless = codes "unless"
