-- ===== src/Model.antt =====
-- storage/src/model/mod.rs: samples, labels and series. An `f64` is its bit pattern, a `u64`.
use chono_db.Prelude.{ℕ, List, String, Bool, ◌&&◌, not}
use chono_db.Prelude.Int.{ℤ, ltb_ℤ}

abbrev pub Timestamp : Type 0
Timestamp = ℤ

abbrev pub TimeSeriesId : Type 0
TimeSeriesId = ℕ

abbrev pub F64 : Type 0
F64 = ℕ

pub record Label : Type 0 where
  pub name : String
  pub value : String

abbrev pub Labels : Type 0
Labels = List Label

pub record Sample : Type 0 where
  pub timestamp : Timestamp
  pub value : F64

pub record TimeSeries : Type 0 where
  pub id : TimeSeriesId
  pub labels : Labels
  pub samples : List Sample

-- `t >= start && t <= end`
abbrev pub in_range : Timestamp → Timestamp → Timestamp → Bool
in_range start stop t = not (ltb_ℤ t start) && not (ltb_ℤ stop t)
