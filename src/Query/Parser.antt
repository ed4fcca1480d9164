-- ===== src/Query/Parser.antt =====
-- storage/src/query/parser.rs: `parse_promql` and what it calls, for queries in ASCII, whose bytes are
-- their characters. The parsing of an `f64`, cast to `i64`, is a parameter.
use chono_db.Prelude.{
  ℕ, suc, ◌+◌, ◌-◌, ◌*◌, ◌%◌, ◌^◌, List, [], ◌∷◌, length, take, drop, map, filter, Bool, false, not,
  ◌&&◌, ◌||◌, ltb, leb, ◌==◌, Option, none, some, if◌then◌else◌,
}
use chono_db.Prelude.Int.{ℤ, pos, negsuc, ◌+ℤ◌, ◌-ℤ◌}
use chono_db.Prelude.Word.{as_u64, as_i64}
use chono_db.Prelude.Text.{
  Text, codes, same_text, starts_with, ends_with, find_where, find_code, trim, split,
}
use chono_db.Error.{invalid_data}
use chono_db.Query.Outcome.{Outcome, err, ok, ◌>>=◌, slice}
use chono_db.Query.Expr.{Expr, subquery, Matcher, eq}

-- The loop for the matching parenthesis, from inside of it: where it is, if it is there.
unfoldable pub close_paren : ℕ → Text → Option ℕ
close_paren depth [] = none
close_paren depth (c ∷ s) =
    let deeper = close_paren (depth + 1) s in
    let higher = close_paren (depth - 1) s in
    let same = close_paren depth s in
    let later = if c == b'(' then deeper else if c == b')' then higher else same in
    if c == b')' && depth == 1 then some 0 else elim later [ none ↦ none | some i ↦ some (suc i) ]

-- The loop for the matching bracket, backwards over what stands before it: its index.
unfoldable pub open_before : ℕ → Text → Option ℕ
open_before depth [] = none
open_before depth (c ∷ before) =
    let deeper = open_before (depth + 1) before in
    let higher = open_before (depth - 1) before in
    let same = open_before depth before in
    if c == b'['
    then if depth == 1 then some (length before) else higher
    else if c == b']'
    then deeper
    else same

unfoldable pub is_zero : ℤ → Bool
is_zero (pos n) = n == 0
is_zero (negsuc n) = false

-- `unwrap_or`
unfoldable pub or_else : Option ℕ → ℕ → ℕ
or_else none other = other
or_else (some i) other = i

unfoldable pub depth_after : ℤ → ℕ → ℤ
depth_after depth c =
    if c == b'(' || c == b'['
    then depth +ℤ pos 1
    else if c == b')' || c == b']'
    then depth -ℤ pos 1
    else depth

-- `depth` is an `i32`, and the brackets are too few for it to overflow.
unfoldable pub outermost_loop : ℤ → Text → Text → Option ℕ
outermost_loop depth before [] = none
outermost_loop depth before (c ∷ s) =
    let depth' = depth_after depth c in
    let later = outermost_loop depth' (c ∷ before) s in
    let here = open_before 1 before in
    if c == b']' && is_zero depth' then elim here [ none ↦ later | some j ↦ some j ] else later

unfoldable pub find_outermost_bracket : Text → Option ℕ
find_outermost_bracket query = outermost_loop (pos 0) [] query

abbrev pub is_ascii_digit : ℕ → Bool
is_ascii_digit c = leb b'0' c && leb c b'9'

unfoldable pub digits_value : ℕ → Text → ℕ
digits_value n [] = n
digits_value n (c ∷ s) = digits_value (10 * n + (c - b'0')) s

-- `parse` of an `i64` on digits.
unfoldable pub parse_digits : Text → Option ℕ
parse_digits [] = none
parse_digits (c ∷ s) = let n = digits_value 0 (c ∷ s) in if ltb n (2 ^ 63) then some n else none

-- The seconds of a unit.
unfoldable pub unit_seconds : Text → Option ℕ
unit_seconds unit =
    if same_text unit (codes "s")
    then some 1
    else if same_text unit (codes "m")
    then some 60
    else if same_text unit (codes "h")
    then some 3600
    else if same_text unit (codes "d")
    then some 86400
    else if same_text unit (codes "w")
    then some 604800
    else if same_text unit (codes "y")
    then some 31536000
    else none

-- The multiplications wrap, as in a release build.
unfoldable pub parse_duration : Text → Outcome ℤ
parse_duration text =
    let s = trim text in
    let num_end = or_else (find_where (λ c. not (is_ascii_digit c)) s) (length s) in
    elim (parse_digits (take num_end s)) [
      | none ↦ err (invalid_data "Invalid duration number")
      | some num ↦ elim (unit_seconds (drop num_end s)) [
        | none ↦ err (invalid_data "Invalid duration unit")
        | some k ↦ ok (as_i64 (num * k * 1000 % 2 ^ 64))
      ]
    ]

unfoldable pub parse_offset_modifier : Text → Outcome ℤ
parse_offset_modifier text =
    let s = trim text in
    if starts_with (codes "-") s
    then (parse_duration (trim (drop 1 s)) >>= λ duration_ms.
        ok (as_i64 ((2 ^ 64 - as_u64 duration_ms) % 2 ^ 64)))
    else if starts_with (codes "+") s
    then parse_duration (trim (drop 1 s))
    else parse_duration s

-- What is between quotes.
unfoldable pub unquote : Text → Outcome Text
unquote value_part =
    if (starts_with (codes "\"") value_part && ends_with b'"' value_part)
      || (starts_with (codes "'") value_part && ends_with 39 value_part)
    then slice value_part 1 (length value_part - 1)
    else ok value_part

-- The loop over the parts; one without `=` is passed over.
unfoldable pub matchers_loop : List Text → Outcome (List Matcher)
matchers_loop [] = ok []
matchers_loop (text ∷ parts) =
    let part = trim text in
    elim (find_code b'=' part) [
      | none ↦ matchers_loop parts
      | some eq_idx ↦ do
        value ← unquote (trim (drop (eq_idx + 1) part))
        matchers ← matchers_loop parts
        ok (eq (trim (take eq_idx part)) value ∷ matchers)
    ]

unfoldable pub parse_matchers : Text → Outcome (List Matcher)
parse_matchers s = matchers_loop (split b',' s)

-- Labels in parentheses, and the text behind them.
unfoldable pub parse_grouping_labels : Text → Outcome (List Text × Text)
parse_grouping_labels text =
    let s = trim text in
    if not (starts_with (codes "(") s)
    then err (invalid_data "Expected '(' after by/without")
    else elim (close_paren 1 (drop 1 s)) [
      | none ↦ err (invalid_data "Unclosed parenthesis in grouping labels")
      | some i ↦
          let labels = map (λ l. trim l) (split b',' (take i (drop 1 s))) in
          ok (filter (λ l. not (same_text l [])) labels, drop (i + 2) s)
    ]

-- Of the parts between colons there are two.
unfoldable pub subquery_parts : Expr → List Text → Outcome Expr
subquery_parts expr (range_text ∷ resolution_text ∷ []) = do
  range ← parse_duration (trim range_text)
  resolution ← parse_duration (trim resolution_text)
  ok (subquery expr range resolution)
subquery_parts expr _ =
    err (invalid_data "Invalid subquery syntax, expected [<range>:<resolution>]")

unfoldable pub parse_subquery_suffix : Expr → Text → Outcome Expr
parse_subquery_suffix expr suffix =
    if not (starts_with (codes "[") suffix) || not (ends_with b']' suffix)
    then err (invalid_data "Invalid subquery suffix")
    else subquery_parts expr (split b':' (take (length suffix - 2) (drop 1 suffix)))
