-- ===== src/Query/Tests.antt =====
-- Concrete queries.
use chono_db.Prelude.{◌≡◌, ◌≢◌, refl, [], ◌∷◌, ◌++◌, Option, none, some, arith}
use chono_db.Prelude.Int.{ℤ}
use chono_db.Prelude.Text.{Text, codes}
use chono_db.Query.Outcome.{exhausted, ok, panics}
use chono_db.Query.Expr.{vector}
use chono_db.Query.Promql.{parse_promql}
use chono_db.Query.Promql.Ends.{parse_promql-ends}
use chono_db.Query.Promql.Plain.{parse_promql-plain}

abbrev no_f64 : Text → Option ℤ
no_f64 s = none

abbrev nested : Text
nested = codes "sum by (job) (rate(foo{job='x'}[5m]))"

parse_promql-ends_example : parse_promql no_f64 100 nested ≢ exhausted
parse_promql-ends_example = parse_promql-ends no_f64 100 nested (omega arith)

abbrev requests : Text
requests = codes "up"

parse_promql-plain_example :
    (parse_promql no_f64 1 requests
      ≡ ok (vector (record { name = some requests; matchers = []; offset = none; at = none })))
    × (parse_promql no_f64 1 (requests ++ (b'{' ∷ [])) ≡ panics)
parse_promql-plain_example = parse_promql-plain no_f64 0 requests (refl, (refl, tt))
