-- ===== src/Query/Function/Names.antt =====
-- The names of the functions and their recognition agree.
use chono_db.Prelude.{◌≡◌, refl, true, some}
use chono_db.Prelude.Text.{same_text}
use chono_db.Query.Function.{
  Function, name, from_name, is_named, custom, sum, avg, min, max, count, stddev, stdvar, top_k,
  bottom_k, quantile, count_values, rate, irate, increase, delta, idelta, deriv, predict_linear,
  holt_winters, resets, changes, abs, ceil, floor, exp, ln, log2, log10, sqrt, round, sin, cos, tan,
  asin, acos, atan, sinh, cosh, tanh, asinh, acosh, atanh, deg, rad, time, timestamp, day_of_month,
  day_of_week, days_in_month, hour, minute, month, year, label_replace, label_join, sort, sort_desc,
  clamp, clamp_max, clamp_min, absent, absent_over_time, present_over_time, scalar, vector,
  histogram_quantile,
}

-- The name of a function is recognised as that function, unless it is a custom one.
pub from_name-name : (f : Function) → is_named f ≡ true → from_name (name f) ≡ some f
unfolding from_name name same_text is_named
from_name-name sum h = refl
from_name-name avg h = refl
from_name-name min h = refl
from_name-name max h = refl
from_name-name count h = refl
from_name-name stddev h = refl
from_name-name stdvar h = refl
from_name-name top_k h = refl
from_name-name bottom_k h = refl
from_name-name quantile h = refl
from_name-name count_values h = refl
from_name-name rate h = refl
from_name-name irate h = refl
from_name-name increase h = refl
from_name-name delta h = refl
from_name-name idelta h = refl
from_name-name deriv h = refl
from_name-name predict_linear h = refl
from_name-name holt_winters h = refl
from_name-name resets h = refl
from_name-name changes h = refl
from_name-name abs h = refl
from_name-name ceil h = refl
from_name-name floor h = refl
from_name-name exp h = refl
from_name-name ln h = refl
from_name-name log2 h = refl
from_name-name log10 h = refl
from_name-name sqrt h = refl
from_name-name round h = refl
from_name-name sin h = refl
from_name-name cos h = refl
from_name-name tan h = refl
from_name-name asin h = refl
from_name-name acos h = refl
from_name-name atan h = refl
from_name-name sinh h = refl
from_name-name cosh h = refl
from_name-name tanh h = refl
from_name-name asinh h = refl
from_name-name acosh h = refl
from_name-name atanh h = refl
from_name-name deg h = refl
from_name-name rad h = refl
from_name-name time h = refl
from_name-name timestamp h = refl
from_name-name day_of_month h = refl
from_name-name day_of_week h = refl
from_name-name days_in_month h = refl
from_name-name hour h = refl
from_name-name minute h = refl
from_name-name month h = refl
from_name-name year h = refl
from_name-name label_replace h = refl
from_name-name label_join h = refl
from_name-name sort h = refl
from_name-name sort_desc h = refl
from_name-name clamp h = refl
from_name-name clamp_max h = refl
from_name-name clamp_min h = refl
from_name-name absent h = refl
from_name-name absent_over_time h = refl
from_name-name present_over_time h = refl
from_name-name scalar h = refl
from_name-name vector h = refl
from_name-name histogram_quantile h = refl
from_name-name (custom text) h = cc
