-- ===== src/Query/Promql.antt =====
-- storage/src/query/parser.rs: `parse_promql`, which calls itself on parts of the query; the functions
-- between take it as the argument `parse`. `parse_f64` is the parsing of an `f64`, cast to `i64`.
pub mod Parts
pub mod Ends
pub mod Plain
use chono_db.Prelude.{
  ℕ, zero, suc, ◌+◌, ◌-◌, List, [], ◌∷◌, length, take, drop, Bool, true, false, not, ◌&&◌, ◌||◌,
  ltb, ◌==◌, Option, none, some, if◌then◌else◌,
}
use chono_db.Prelude.Int.{ℤ, pos, negsuc, ◌+ℤ◌, ◌-ℤ◌}
use chono_db.Prelude.Text.{
  Text, codes, same_text, starts_with, find_code, find_text, contains_code, trim, first_word, split,
  to_lowercase,
}
use chono_db.Error.{Error, invalid_data}
use chono_db.Query.Outcome.{Outcome, exhausted, panics, err, ok, ◌>>=◌, slice, slice_from}
use chono_db.Query.Function.{Function, name, from_name, is_aggregation_function}
use chono_db.Query.Expr.{
  Expr, Exprs, vector, matrix, subquery, call, aggregation, no_exprs, more_exprs, Matcher,
  AtModifier, VectorSelector, MatrixSelector,
}
use chono_db.Query.Parser.{
  close_paren, find_outermost_bracket, is_zero, or_else, parse_duration, parse_offset_modifier,
  parse_matchers, parse_grouping_labels, parse_subquery_suffix,
}

-- The offset is what stands before a modifier `@`.
unfoldable pub offset_value : Text → Text
offset_value after_offset = elim (find_text (codes " @") after_offset) [
  | some at_idx ↦ trim (take at_idx after_offset)
  | none ↦ elim (find_code b'@' after_offset) [
    | some at_idx ↦ trim (take at_idx after_offset)
    | none ↦ after_offset
  ]
]

-- What stands before ` offset `, and its value.
unfoldable pub split_offset : Text → Outcome (Text × Option ℤ)
split_offset s = elim (find_text (codes " offset ") (to_lowercase s)) [
  | none ↦ ok (s, none)
  | some offset_idx ↦
      parse_offset_modifier (offset_value (trim (drop (offset_idx + 8) s))) >>= λ offset.
      ok (take offset_idx s, some offset)
]

unfoldable pub arg_depth : ℤ → ℕ → ℤ
arg_depth depth c =
    if c == b'(' || c == b'[' || c == b'{'
    then depth +ℤ pos 1
    else if c == b')' || c == b']' || c == b'}'
    then depth -ℤ pos 1
    else depth

-- The parts of the arguments: the first one, and those behind commas outside of all brackets.
unfoldable pub split_args : ℤ → Text → Text × List Text
split_args depth [] = ([], [])
split_args depth (c ∷ s) =
    let (part, parts) = split_args (arg_depth depth c) s in
    if c == b',' && is_zero depth then ([], part ∷ parts) else (c ∷ part, parts)

module _ (parse_f64 : Text → Option ℤ) where
  unfoldable pub parse_at_modifier : Text → Outcome AtModifier
  parse_at_modifier text =
      let s = trim text in
      if same_text (to_lowercase s) (codes "start()")
      then ok (record { timestamp = negsuc 0 })
      else if same_text (to_lowercase s) (codes "end()")
      then ok (record { timestamp = negsuc 1 })
      else elim (parse_f64 s) [
        | none ↦ err (invalid_data "Invalid @ modifier timestamp")
        | some timestamp ↦ ok (record { timestamp = timestamp })
      ]

  -- What stands before `@`, and its modifier.
  unfoldable pub split_at : Text → Outcome (Text × Option AtModifier)
  split_at s = elim (find_text (codes " @") s) [
    | some at_idx ↦
        parse_at_modifier (trim (drop (at_idx + 2) s)) >>= λ at. ok (take at_idx s, some at)
    | none ↦ elim (find_code b'@' s) [
      | some at_idx ↦
          parse_at_modifier (trim (drop (at_idx + 1) s)) >>= λ at. ok (take at_idx s, some at)
      | none ↦ ok (s, none)
    ]
  ]

  -- The name and the matchers in braces; a brace that nothing follows makes the slice panic.
  unfoldable pub parse_base : Option ℤ → Option AtModifier → Text → Outcome VectorSelector
  parse_base offset at base_str = elim (find_code b'{' base_str) [
    | none ↦ ok (record { name = some base_str; matchers = []; offset = offset; at = at })
    | some brace_idx ↦ do
      matchers_str ← slice base_str (brace_idx + 1) (length base_str - 1)
      matchers ← parse_matchers matchers_str
      ok (record {
        name = if ltb 0 brace_idx then some (trim (take brace_idx base_str)) else none;
        matchers = matchers;
        offset = offset;
        at = at;
      })
  ]

  unfoldable pub parse_vector_selector : Text → Outcome VectorSelector
  parse_vector_selector s = do o ← split_offset (trim s); a ← split_at o.0; parse_base o.1 a.1 a.0

  module _ (parse : Text → Outcome Expr) where
    unfoldable pub parse_each : List Text → Outcome Exprs
    parse_each [] = ok no_exprs
    parse_each (arg ∷ args) = do
      first ← parse arg
      rest ← parse_each args
      ok (more_exprs first rest)

    unfoldable pub parse_args : Text → Outcome Exprs
    parse_args s =
        let (part, parts) = split_args (pos 0) s in
        if same_text (trim s) [] then ok no_exprs else parse_each (part ∷ parts)

    unfoldable pub parse_matrix : Text → Text → Outcome Expr
    parse_matrix expr_part inner = do
      range ← parse_duration inner
      selector ← parse_vector_selector expr_part
      ok (matrix (record { vector_selector = selector; range = range }))

    unfoldable pub parse_subquery : Text → Text → Text → Outcome Expr
    parse_subquery expr_part range_text resolution_text = do
      range ← parse_duration (trim range_text)
      resolution ← parse_duration (trim resolution_text)
      expr ← parse (trim expr_part)
      ok (subquery expr range resolution)

    unfoldable pub selector_parts : Text → Text → List Text → Outcome Expr
    selector_parts expr_part inner (range_text ∷ resolution_text ∷ []) =
        parse_subquery expr_part range_text resolution_text
    selector_parts expr_part inner _ = parse_matrix expr_part inner

    -- The query has no function call in front: a subquery, a matrix or a vector. The bracket that closes
    -- comes behind the one that opens, so the slice between them does not panic.
    unfoldable pub parse_selector : Text → Outcome Expr
    parse_selector query = elim (find_outermost_bracket query) [
      | none ↦ parse_vector_selector query >>= λ selector. ok (vector selector)
      | some bracket_idx ↦
          let expr_part = take bracket_idx query in
          let inner = take (length query - (bracket_idx + 2)) (drop (bracket_idx + 1) query) in
          if contains_code b':' inner
          then selector_parts expr_part inner (split b':' inner)
          else parse_matrix expr_part inner
    ]

    -- What follows a call or an aggregation.
    unfoldable pub with_suffix : Expr → Text → Outcome Expr
    with_suffix expr suffix =
        if starts_with (codes "[") suffix && contains_code b':' suffix
        then parse_subquery_suffix expr suffix
        else ok expr

    -- A call without its closing parenthesis ends behind the opening one, and the slice after it panics
    -- where the query ends there.
    unfoldable pub parse_call : Text → ℕ → Outcome Expr
    parse_call query paren_idx = elim (from_name (trim (take paren_idx query))) [
      | none ↦ parse_selector query
      | some func ↦
          let inside = drop (paren_idx + 1) query in
          let len = or_else (close_paren 1 inside) 0 in
          do
            args ← parse_args (take len inside)
            after_call ← slice_from query (paren_idx + 1 + len + 1)
            with_suffix (call func args) (trim after_call)
    ]

    -- `by (...)` or `without (...)` in front of a text: the labels with `without`, and the text behind.
    unfoldable pub grouping_modifier : Text → Outcome (Option (List Text × Bool) × Text)
    grouping_modifier text =
        if starts_with (codes "by ") (to_lowercase text)
        then (parse_grouping_labels (drop 3 text) >>= λ r. ok (some (r.0, false), trim r.1))
        else if starts_with (codes "without ") (to_lowercase text)
        then (parse_grouping_labels (drop 8 text) >>= λ r. ok (some (r.0, true), trim r.1))
        else ok (none, text)

    -- The later modifier counts.
    unfoldable pub grouping_of :
        Option (List Text × Bool) → Option (List Text × Bool) → List Text × Bool
    grouping_of before (some after) = after
    grouping_of (some before) none = before
    grouping_of none none = ([], false)

    unfoldable pub parse_aggregated : Function → Option (List Text × Bool) → Text → ℕ → Outcome Expr
    parse_aggregated op before expr_str i = do
      expr ← parse (take i (drop 1 expr_str))
      after ← grouping_modifier (trim (drop (i + 2) expr_str))
      let grouping = grouping_of before after.0
      with_suffix (aggregation op expr grouping.0 grouping.1) after.1

    unfoldable pub parse_parenthesis : Function → Option (List Text × Bool) → Text → Outcome Expr
    parse_parenthesis op before expr_str =
        if not (starts_with (codes "(") expr_str)
        then err (invalid_data "Expected '(' after aggregation modifier")
        else elim (close_paren 1 (drop 1 expr_str)) [
          | none ↦ err (invalid_data "Unclosed parenthesis in aggregation")
          | some i ↦ parse_aggregated op before expr_str i
        ]

    unfoldable pub parse_aggregation : Text → Function → Outcome Expr
    parse_aggregation text op =
        grouping_modifier (trim (drop (length (name op)) (trim text))) >>= λ before.
        parse_parenthesis op before.0 before.1

    unfoldable pub parse_trimmed : Text → Outcome Expr
    parse_trimmed query = elim (find_code b'(' query) [
      | none ↦ parse_selector query
      | some paren_idx ↦ elim (from_name (first_word (trim (take paren_idx query)))) [
        | none ↦ parse_call query paren_idx
        | some func ↦
            if is_aggregation_function func
            then parse_aggregation query func
            else parse_call query paren_idx
      ]
    ]

  unfoldable pub parse_promql : ℕ → Text → Outcome Expr
  parse_promql zero query = exhausted
  parse_promql (suc fuel) query = parse_trimmed (parse_promql fuel) (trim query)
