-- ===== src/Query/Function.antt =====
-- storage/src/query/parser.rs: `Function`, the functions of PromQL and their names.
pub mod Names
use chono_db.Prelude.{Bool, true, false, Option, none, some, if◌then◌else◌, ◌≡◌, refl, List, ℕ}
use chono_db.Prelude.Text.{Text, codes, same_text}

pub data Function : Type 0 where
  sum : Function
  avg : Function
  min : Function
  max : Function
  count : Function
  stddev : Function
  stdvar : Function
  top_k : Function
  bottom_k : Function
  quantile : Function
  count_values : Function
  rate : Function
  irate : Function
  increase : Function
  delta : Function
  idelta : Function
  deriv : Function
  predict_linear : Function
  holt_winters : Function
  resets : Function
  changes : Function
  abs : Function
  ceil : Function
  floor : Function
  exp : Function
  ln : Function
  log2 : Function
  log10 : Function
  sqrt : Function
  round : Function
  sin : Function
  cos : Function
  tan : Function
  asin : Function
  acos : Function
  atan : Function
  sinh : Function
  cosh : Function
  tanh : Function
  asinh : Function
  acosh : Function
  atanh : Function
  deg : Function
  rad : Function
  time : Function
  timestamp : Function
  day_of_month : Function
  day_of_week : Function
  days_in_month : Function
  hour : Function
  minute : Function
  month : Function
  year : Function
  label_replace : Function
  label_join : Function
  sort : Function
  sort_desc : Function
  clamp : Function
  clamp_max : Function
  clamp_min : Function
  absent : Function
  absent_over_time : Function
  present_over_time : Function
  scalar : Function
  vector : Function
  histogram_quantile : Function
  custom : Text → Function

unfoldable pub name : Function → Text
name sum = codes "sum"
name avg = codes "avg"
name min = codes "min"
name max = codes "max"
name count = codes "count"
name stddev = codes "stddev"
name stdvar = codes "stdvar"
name top_k = codes "topk"
name bottom_k = codes "bottomk"
name quantile = codes "quantile"
name count_values = codes "count_values"
name rate = codes "rate"
name irate = codes "irate"
name increase = codes "increase"
name delta = codes "delta"
name idelta = codes "idelta"
name deriv = codes "deriv"
name predict_linear = codes "predict_linear"
name holt_winters = codes "holt_winters"
name resets = codes "resets"
name changes = codes "changes"
name abs = codes "abs"
name ceil = codes "ceil"
name floor = codes "floor"
name exp = codes "exp"
name ln = codes "ln"
name log2 = codes "log2"
name log10 = codes "log10"
name sqrt = codes "sqrt"
name round = codes "round"
name sin = codes "sin"
name cos = codes "cos"
name tan = codes "tan"
name asin = codes "asin"
name acos = codes "acos"
name atan = codes "atan"
name sinh = codes "sinh"
name cosh = codes "cosh"
name tanh = codes "tanh"
name asinh = codes "asinh"
name acosh = codes "acosh"
name atanh = codes "atanh"
name deg = codes "deg"
name rad = codes "rad"
name time = codes "time"
name timestamp = codes "timestamp"
name day_of_month = codes "day_of_month"
name day_of_week = codes "day_of_week"
name days_in_month = codes "days_in_month"
name hour = codes "hour"
name minute = codes "minute"
name month = codes "month"
name year = codes "year"
name label_replace = codes "label_replace"
name label_join = codes "label_join"
name sort = codes "sort"
name sort_desc = codes "sort_desc"
name clamp = codes "clamp"
name clamp_max = codes "clamp_max"
name clamp_min = codes "clamp_min"
name absent = codes "absent"
name absent_over_time = codes "absent_over_time"
name present_over_time = codes "present_over_time"
name scalar = codes "scalar"
name vector = codes "vector"
name histogram_quantile = codes "histogram_quantile"
name (custom text) = text

unfoldable pub from_name : Text → Option Function
from_name text =
    if same_text text (codes "sum")
    then some sum
    else if same_text text (codes "avg")
    then some avg
    else if same_text text (codes "min")
    then some min
    else if same_text text (codes "max")
    then some max
    else if same_text text (codes "count")
    then some count
    else if same_text text (codes "stddev")
    then some stddev
    else if same_text text (codes "stdvar")
    then some stdvar
    else if same_text text (codes "topk")
    then some top_k
    else if same_text text (codes "bottomk")
    then some bottom_k
    else if same_text text (codes "quantile")
    then some quantile
    else if same_text text (codes "count_values")
    then some count_values
    else if same_text text (codes "rate")
    then some rate
    else if same_text text (codes "irate")
    then some irate
    else if same_text text (codes "increase")
    then some increase
    else if same_text text (codes "delta")
    then some delta
    else if same_text text (codes "idelta")
    then some idelta
    else if same_text text (codes "deriv")
    then some deriv
    else if same_text text (codes "predict_linear")
    then some predict_linear
    else if same_text text (codes "holt_winters")
    then some holt_winters
    else if same_text text (codes "resets")
    then some resets
    else if same_text text (codes "changes")
    then some changes
    else if same_text text (codes "abs")
    then some abs
    else if same_text text (codes "ceil")
    then some ceil
    else if same_text text (codes "floor")
    then some floor
    else if same_text text (codes "exp")
    then some exp
    else if same_text text (codes "ln")
    then some ln
    else if same_text text (codes "log2")
    then some log2
    else if same_text text (codes "log10")
    then some log10
    else if same_text text (codes "sqrt")
    then some sqrt
    else if same_text text (codes "round")
    then some round
    else if same_text text (codes "sin")
    then some sin
    else if same_text text (codes "cos")
    then some cos
    else if same_text text (codes "tan")
    then some tan
    else if same_text text (codes "asin")
    then some asin
    else if same_text text (codes "acos")
    then some acos
    else if same_text text (codes "atan")
    then some atan
    else if same_text text (codes "sinh")
    then some sinh
    else if same_text text (codes "cosh")
    then some cosh
    else if same_text text (codes "tanh")
    then some tanh
    else if same_text text (codes "asinh")
    then some asinh
    else if same_text text (codes "acosh")
    then some acosh
    else if same_text text (codes "atanh")
    then some atanh
    else if same_text text (codes "deg")
    then some deg
    else if same_text text (codes "rad")
    then some rad
    else if same_text text (codes "time")
    then some time
    else if same_text text (codes "timestamp")
    then some timestamp
    else if same_text text (codes "day_of_month")
    then some day_of_month
    else if same_text text (codes "day_of_week")
    then some day_of_week
    else if same_text text (codes "days_in_month")
    then some days_in_month
    else if same_text text (codes "hour")
    then some hour
    else if same_text text (codes "minute")
    then some minute
    else if same_text text (codes "month")
    then some month
    else if same_text text (codes "year")
    then some year
    else if same_text text (codes "label_replace")
    then some label_replace
    else if same_text text (codes "label_join")
    then some label_join
    else if same_text text (codes "sort")
    then some sort
    else if same_text text (codes "sort_desc")
    then some sort_desc
    else if same_text text (codes "clamp")
    then some clamp
    else if same_text text (codes "clamp_max")
    then some clamp_max
    else if same_text text (codes "clamp_min")
    then some clamp_min
    else if same_text text (codes "absent")
    then some absent
    else if same_text text (codes "absent_over_time")
    then some absent_over_time
    else if same_text text (codes "present_over_time")
    then some present_over_time
    else if same_text text (codes "scalar")
    then some scalar
    else if same_text text (codes "vector")
    then some vector
    else if same_text text (codes "histogram_quantile")
    then some histogram_quantile
    else none

unfoldable pub is_aggregation : Function → Bool
is_aggregation sum = true
is_aggregation avg = true
is_aggregation min = true
is_aggregation max = true
is_aggregation count = true
is_aggregation stddev = true
is_aggregation stdvar = true
is_aggregation top_k = true
is_aggregation bottom_k = true
is_aggregation quantile = true
is_aggregation count_values = false
is_aggregation rate = false
is_aggregation irate = false
is_aggregation increase = false
is_aggregation delta = false
is_aggregation idelta = false
is_aggregation deriv = false
is_aggregation predict_linear = false
is_aggregation holt_winters = false
is_aggregation resets = false
is_aggregation changes = false
is_aggregation abs = false
is_aggregation ceil = false
is_aggregation floor = false
is_aggregation exp = false
is_aggregation ln = false
is_aggregation log2 = false
is_aggregation log10 = false
is_aggregation sqrt = false
is_aggregation round = false
is_aggregation sin = false
is_aggregation cos = false
is_aggregation tan = false
is_aggregation asin = false
is_aggregation acos = false
is_aggregation atan = false
is_aggregation sinh = false
is_aggregation cosh = false
is_aggregation tanh = false
is_aggregation asinh = false
is_aggregation acosh = false
is_aggregation atanh = false
is_aggregation deg = false
is_aggregation rad = false
is_aggregation time = false
is_aggregation timestamp = false
is_aggregation day_of_month = false
is_aggregation day_of_week = false
is_aggregation days_in_month = false
is_aggregation hour = false
is_aggregation minute = false
is_aggregation month = false
is_aggregation year = false
is_aggregation label_replace = false
is_aggregation label_join = false
is_aggregation sort = false
is_aggregation sort_desc = false
is_aggregation clamp = false
is_aggregation clamp_max = false
is_aggregation clamp_min = false
is_aggregation absent = false
is_aggregation absent_over_time = false
is_aggregation present_over_time = false
is_aggregation scalar = false
is_aggregation vector = false
is_aggregation histogram_quantile = false
is_aggregation (custom text) = false

unfoldable pub is_range_function : Function → Bool
is_range_function sum = false
is_range_function avg = false
is_range_function min = false
is_range_function max = false
is_range_function count = false
is_range_function stddev = false
is_range_function stdvar = false
is_range_function top_k = false
is_range_function bottom_k = false
is_range_function quantile = false
is_range_function count_values = false
is_range_function rate = true
is_range_function irate = true
is_range_function increase = true
is_range_function delta = true
is_range_function idelta = false
is_range_function deriv = true
is_range_function predict_linear = true
is_range_function holt_winters = true
is_range_function resets = false
is_range_function changes = false
is_range_function abs = false
is_range_function ceil = false
is_range_function floor = false
is_range_function exp = false
is_range_function ln = false
is_range_function log2 = false
is_range_function log10 = false
is_range_function sqrt = false
is_range_function round = false
is_range_function sin = false
is_range_function cos = false
is_range_function tan = false
is_range_function asin = false
is_range_function acos = false
is_range_function atan = false
is_range_function sinh = false
is_range_function cosh = false
is_range_function tanh = false
is_range_function asinh = false
is_range_function acosh = false
is_range_function atanh = false
is_range_function deg = false
is_range_function rad = false
is_range_function time = false
is_range_function timestamp = false
is_range_function day_of_month = false
is_range_function day_of_week = false
is_range_function days_in_month = false
is_range_function hour = false
is_range_function minute = false
is_range_function month = false
is_range_function year = false
is_range_function label_replace = false
is_range_function label_join = false
is_range_function sort = false
is_range_function sort_desc = false
is_range_function clamp = false
is_range_function clamp_max = false
is_range_function clamp_min = false
is_range_function absent = false
is_range_function absent_over_time = false
is_range_function present_over_time = false
is_range_function scalar = false
is_range_function vector = false
is_range_function histogram_quantile = false
is_range_function (custom text) = false

-- The parser asks `is_aggregation_function`, which also has `CountValues`.
unfoldable pub is_aggregation_function : Function → Bool
is_aggregation_function sum = true
is_aggregation_function avg = true
is_aggregation_function min = true
is_aggregation_function max = true
is_aggregation_function count = true
is_aggregation_function stddev = true
is_aggregation_function stdvar = true
is_aggregation_function top_k = true
is_aggregation_function bottom_k = true
is_aggregation_function quantile = true
is_aggregation_function count_values = true
is_aggregation_function rate = false
is_aggregation_function irate = false
is_aggregation_function increase = false
is_aggregation_function delta = false
is_aggregation_function idelta = false
is_aggregation_function deriv = false
is_aggregation_function predict_linear = false
is_aggregation_function holt_winters = false
is_aggregation_function resets = false
is_aggregation_function changes = false
is_aggregation_function abs = false
is_aggregation_function ceil = false
is_aggregation_function floor = false
is_aggregation_function exp = false
is_aggregation_function ln = false
is_aggregation_function log2 = false
is_aggregation_function log10 = false
is_aggregation_function sqrt = false
is_aggregation_function round = false
is_aggregation_function sin = false
is_aggregation_function cos = false
is_aggregation_function tan = false
is_aggregation_function asin = false
is_aggregation_function acos = false
is_aggregation_function atan = false
is_aggregation_function sinh = false
is_aggregation_function cosh = false
is_aggregation_function tanh = false
is_aggregation_function asinh = false
is_aggregation_function acosh = false
is_aggregation_function atanh = false
is_aggregation_function deg = false
is_aggregation_function rad = false
is_aggregation_function time = false
is_aggregation_function timestamp = false
is_aggregation_function day_of_month = false
is_aggregation_function day_of_week = false
is_aggregation_function days_in_month = false
is_aggregation_function hour = false
is_aggregation_function minute = false
is_aggregation_function month = false
is_aggregation_function year = false
is_aggregation_function label_replace = false
is_aggregation_function label_join = false
is_aggregation_function sort = false
is_aggregation_function sort_desc = false
is_aggregation_function clamp = false
is_aggregation_function clamp_max = false
is_aggregation_function clamp_min = false
is_aggregation_function absent = false
is_aggregation_function absent_over_time = false
is_aggregation_function present_over_time = false
is_aggregation_function scalar = false
is_aggregation_function vector = false
is_aggregation_function histogram_quantile = false
is_aggregation_function (custom text) = false

-- The functions with a name of their own.
unfoldable pub is_named : Function → Bool
is_named f = elim f [ custom text ↦ false | _ ↦ true ]
