-- ===== src/ColumnStore/Level.antt =====
-- storage/src/columnstore/mod.rs: `DownsampleLevel`.
use chono_db.Prelude.{
  ℕ, ◌+◌, ◌-◌, ◌/◌, ◌==◌, ◌≡◌, refl, true, false, Option, none, some, arith, if◌then◌else◌,
}
use chono_db.Prelude.Int.{ℤ, pos, negsuc, ltb_ℤ, ◌-ℤ◌}
use chono_db.Prelude.Word.{is_i64}

pub data DownsampleLevel : Type 0 where
  l0 l1 l2 l3 l4 : DownsampleLevel

unfoldable pub interval_ms : DownsampleLevel → ℕ
interval_ms l0 = 10000
interval_ms l1 = 60000
interval_ms l2 = 300000
interval_ms l3 = 3600000
interval_ms l4 = 86400000

unfoldable pub resolution_ms : DownsampleLevel → ℕ
resolution_ms level = interval_ms level

unfoldable pub retention_days : DownsampleLevel → ℕ
retention_days l0 = 7
retention_days l1 = 30
retention_days l2 = 90
retention_days l3 = 365
retention_days l4 = 3650

unfoldable pub from_u8 : ℕ → Option DownsampleLevel
from_u8 level =
    if level == 0
    then some l0
    else if level == 1
    then some l1
    else if level == 2
    then some l2
    else if level == 3
    then some l3
    else if level == 4
    then some l4
    else none

unfoldable pub next : DownsampleLevel → Option DownsampleLevel
next l0 = some l1
next l1 = some l2
next l2 = some l3
next l3 = some l4
next l4 = none

unfoldable pub prev : DownsampleLevel → Option DownsampleLevel
prev l0 = none
prev l1 = some l0
prev l2 = some l1
prev l3 = some l2
prev l4 = some l3

-- `range_ms / 3_600_000`, which rounds towards zero.
abbrev pub hours : ℤ → ℤ
hours (pos n) = pos (n / 3600000)
hours (negsuc n) = if (n + 1) / 3600000 == 0 then pos 0 else negsuc ((n + 1) / 3600000 - 1)

unfoldable pub from_query_range : ℤ → DownsampleLevel
from_query_range range_ms =
    let range_hours = hours range_ms in
    if ltb_ℤ range_hours (pos 1)
    then l0
    else if ltb_ℤ range_hours (pos 24)
    then l1
    else if ltb_ℤ range_hours (pos 168)
    then l2
    else if ltb_ℤ range_hours (pos 720)
    then l3
    else l4

unfoldable pub from_resolution_ms : ℤ → Option DownsampleLevel
from_resolution_ms (pos n) =
    if n == 10000
    then some l0
    else if n == 60000
    then some l1
    else if n == 300000
    then some l2
    else if n == 3600000
    then some l3
    else if n == 86400000
    then some l4
    else none
from_resolution_ms (negsuc n) = none

-- storage/src/memstore/store.rs: `auto_select_downsample_level`, with `end.checked_sub(start)`.
unfoldable pub auto_select_downsample_level : ℤ → ℤ → DownsampleLevel
auto_select_downsample_level start stop =
    let d = stop -ℤ start in
    if is_i64 d
    then (if ltb_ℤ d (pos 3600000)
        then l0
        else if ltb_ℤ d (pos 86400000)
        then l1
        else if ltb_ℤ d (pos 604800000)
        then l2
        else if ltb_ℤ d (pos 2592000000)
        then l3
        else l4)
    else l4

by_hours :
    (d : ℤ)
    → (if ltb_ℤ d (pos 3600000)
        then l0
        else if ltb_ℤ d (pos 86400000)
        then l1
        else if ltb_ℤ d (pos 604800000)
        then l2
        else if ltb_ℤ d (pos 2592000000)
        then l3
        else l4)
      ≡ from_query_range d
unfolding from_query_range
by_hours (pos n) = ground arith
by_hours (negsuc n) = ground arith

-- The store chooses the level that `DownsampleLevel` gives for the length of the range, for every
-- range whose length is an `i64`, and the coarsest level for every other one.
pub auto_select_downsample_level_lem :
    (start stop : ℤ)
    → ((is_i64 (stop -ℤ start) ≡ true)
        → auto_select_downsample_level start stop ≡ from_query_range (stop -ℤ start))
      × ((is_i64 (stop -ℤ start) ≡ false) → auto_select_downsample_level start stop ≡ l4)
unfolding auto_select_downsample_level
auto_select_downsample_level_lem start stop = (λ e. rw e (by_hours (stop -ℤ start)), λ e. rw e refl)
