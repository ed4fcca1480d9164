-- ===== src/Query/Promql/Ends.antt =====
-- `parse_promql` comes to an end: it calls itself on shorter texts.
use chono_db.Prelude.{
  ℕ, zero, suc, ◌+◌, ◌≤◌, ◌<◌, ◌≡◌, ◌≢◌, refl, subst, List, [], ◌∷◌, length, length-take,
  length-drop, take, drop, Bool, true, false, Option, some, Bool-cases, Option-cases, inl, inr,
  arith, ◌==◌,
}
use chono_db.Prelude.Int.{ℤ, pos}
use chono_db.Prelude.Text.{
  Text, codes, trim, starts_with, find_code, first_word, to_lowercase, same_text,
}
use chono_db.Query.Outcome.{Outcome, exhausted, panics, err, ok, ◌>>=◌, >>=-ends}
use chono_db.Query.Function.{Function, name, from_name}
use chono_db.Query.Expr.{Expr}
use chono_db.Query.Parser.{close_paren, find_outermost_bracket, or_else, parse_grouping_labels}
use chono_db.Query.Lengths.{
  length-trim, find_where-inside, close_paren-inside, find_outermost_bracket-inside,
}
use chono_db.Query.Leaves.{
  ok-ends, then-ends, slice_from-ends, parse_duration-ends, parse_grouping_labels-ends,
  parse_grouping_labels-shorter, parse_subquery_suffix-ends,
}
use chono_db.Query.Promql.{
  split_args, parse_each, parse_args, parse_matrix, parse_subquery, selector_parts, parse_selector,
  with_suffix, parse_call, grouping_modifier, parse_aggregated, parse_parenthesis,
  parse_aggregation, parse_trimmed, parse_promql,
}
use chono_db.Query.Promql.Parts.{
  if-ends, parse_vector_selector-ends, split_args-AreWithin, AreWithin,
}

-- The length of the text behind a modifier.
rest_size : Outcome (Option (List Text × Bool) × Text) → ℕ
rest_size exhausted = 0
rest_size panics = 0
rest_size (err reason) = 0
rest_size (ok r) = length r.1

rest_size-labels :
    (without : Bool) (r : Outcome (List Text × Text)) (m : ℕ)
    → ((q : List Text × Text) → r ≡ ok q → length q.1 ≤ m)
    → rest_size (r >>= λ q. ok (some (q.0, without), trim q.1)) ≤ m
unfolding rest_size
rest_size-labels without exhausted m h = omega arith
rest_size-labels without panics m h = omega arith
rest_size-labels without (err reason) m h = omega arith
rest_size-labels without (ok q) m h =
    let fits : length q.1 ≤ m = h q refl in omega (arith, fits, length-trim q.1)

module _ (parse_f64 : Text → Option ℤ) where
  module _ (parse : Text → Outcome Expr) (n : ℕ)
      (ends : (t : Text) → length t < n → parse t ≢ exhausted) where
    parse_each-ends :
        (m : ℕ) (parts : List Text)
        → m < n
        → AreWithin m parts
        → parse_each parse_f64 parse parts ≢ exhausted
    unfolding parse_each
    parse_each-ends m [] less h = λ e. cc
    parse_each-ends m (part ∷ parts) less (first, h) =
        >>=-ends _ _ (ends part (omega arith))
          (λ e g. then-ends _ _ (parse_each-ends m parts less h))

    parse_args-ends : (s : Text) → length s < n → parse_args parse_f64 parse s ≢ exhausted
    unfolding parse_args
    parse_args-ends s less =
        let (first, rest) = split_args-AreWithin (pos 0) s in
        let each =
          parse_each-ends (length s) ((split_args (pos 0) s).0 ∷ (split_args (pos 0) s).1) less
            (first, rest) in
        elim (Bool-cases (same_text (trim s) [])) [ inl e ↦ rw e (λ x. cc) | inr e ↦ rw e each ]

    parse_matrix-ends : (a b : Text) → parse_matrix parse_f64 parse a b ≢ exhausted
    unfolding parse_matrix
    parse_matrix-ends a b =
        >>=-ends _ _ (parse_duration-ends b)
          (λ r h. then-ends _ _ (parse_vector_selector-ends parse_f64 a))

    parse_subquery-ends :
        (a b c : Text) → length a < n → parse_subquery parse_f64 parse a b c ≢ exhausted
    unfolding parse_subquery
    parse_subquery-ends a b c less = >>=-ends _ _ (parse_duration-ends (trim b)) (λ r h.
        >>=-ends _ _ (parse_duration-ends (trim c))
          (λ q g. then-ends _ _ (ends (trim a) (omega (arith, length-trim a)))))

    selector_parts-ends :
        (a b : Text) (parts : List Text)
        → length a < n
        → selector_parts parse_f64 parse a b parts ≢ exhausted
    unfolding selector_parts
    selector_parts-ends a b [] less = parse_matrix-ends a b
    selector_parts-ends a b (p ∷ []) less = parse_matrix-ends a b
    selector_parts-ends a b (p ∷ q ∷ []) less = parse_subquery-ends a p q less
    selector_parts-ends a b (p ∷ q ∷ r ∷ parts) less = parse_matrix-ends a b

    parse_selector-ends :
        (query : Text) → length query ≤ n → parse_selector parse_f64 parse query ≢ exhausted
    unfolding parse_selector
    parse_selector-ends query fits = elim (Option-cases (find_outermost_bracket query)) [
      | inl a ↦ rw (parse_selector, a) (then-ends _ _ (parse_vector_selector-ends parse_f64 query))
      | inr (i, a) ↦
          let inside = find_outermost_bracket-inside query i a in
          let shorter : length (take i query) < n = omega (arith, inside, length-take i query) in
          rw (parse_selector, a)
            (if-ends _ _ _ (selector_parts-ends (take i query) _ _ shorter)
              (parse_matrix-ends (take i query) _))
    ]

    with_suffix-ends : (expr : Expr) (s : Text) → with_suffix parse_f64 parse expr s ≢ exhausted
    unfolding with_suffix
    with_suffix-ends expr s = if-ends _ _ _ (parse_subquery_suffix-ends expr s) (ok-ends expr)

    parse_call-ends :
        (query : Text) (i : ℕ)
        → length query ≤ n
        → i < length query
        → parse_call parse_f64 parse query i ≢ exhausted
    unfolding parse_call
    parse_call-ends query i fits inside = elim (Option-cases (from_name (trim (take i query)))) [
      | inl a ↦ rw (parse_call, a) (parse_selector-ends query fits)
      | inr (func, a) ↦
          rw (parse_call, a)
            (>>=-ends _ _
              (parse_args-ends _ (
                omega (
                  arith,
                  length-take (or_else (close_paren 1 (drop (i + 1) query)) 0) (drop (i + 1) query),
                  length-drop (i + 1) query,
                )))
              (λ args h. >>=-ends _ _ (slice_from-ends _ _) (λ after g. with_suffix-ends _ _)))
    ]

    grouping_modifier-ends : (s : Text) → grouping_modifier parse_f64 parse s ≢ exhausted
    unfolding grouping_modifier
    grouping_modifier-ends s =
        if-ends _ _ _ (then-ends _ _ (parse_grouping_labels-ends (drop 3 s)))
          (if-ends _ _ _ (then-ends _ _ (parse_grouping_labels-ends (drop 8 s))) (ok-ends _))

    rest_size-fits : (s : Text) → rest_size (grouping_modifier parse_f64 parse s) ≤ length s
    unfolding grouping_modifier rest_size
    rest_size-fits s = elim (Bool-cases (starts_with (codes "by ") (to_lowercase s))) [
      | inl a ↦ rw a (
          rest_size-labels false (parse_grouping_labels (drop 3 s)) (length s)
            (λ q h. omega (arith, parse_grouping_labels-shorter (drop 3 s) q h, length-drop 3 s)))
      | inr a ↦ elim (Bool-cases (starts_with (codes "without ") (to_lowercase s))) [
        | inl b ↦
            rw (a, b)
              (rest_size-labels true (parse_grouping_labels (drop 8 s)) (length s) (λ q h.
                omega (arith, parse_grouping_labels-shorter (drop 8 s) q h, length-drop 8 s)))
        | inr b ↦ rw (a, b) (omega arith)
      ]
    ]

    grouping_modifier-shorter :
        (s : Text) (r : Option (List Text × Bool) × Text)
        → grouping_modifier parse_f64 parse s ≡ ok r
        → length r.1 ≤ length s
    unfolding rest_size
    grouping_modifier-shorter s r e = subst (λ o. rest_size o ≤ length s) e (rest_size-fits s)

    parse_aggregated-ends :
        (op : Function) (before : Option (List Text × Bool)) (s : Text) (i : ℕ)
        → length s ≤ n
        → i < length (drop 1 s)
        → parse_aggregated parse_f64 parse op before s i ≢ exhausted
    unfolding parse_aggregated
    parse_aggregated-ends op before s i fits inside =
        >>=-ends _ _
          (ends (take i (drop 1 s)) (omega (arith, length-take i (drop 1 s), length-drop 1 s)))
          (λ expr h.
            >>=-ends _ _ (grouping_modifier-ends (trim (drop (i + 2) s)))
              (λ after g. with_suffix-ends _ _))

    parse_parenthesis-ends :
        (op : Function) (before : Option (List Text × Bool)) (s : Text)
        → length s ≤ n
        → parse_parenthesis parse_f64 parse op before s ≢ exhausted
    unfolding parse_parenthesis
    parse_parenthesis-ends op before s fits = elim (Bool-cases (starts_with (codes "(") s)) [
      | inr a ↦ rw a (λ e. cc)
      | inl a ↦ elim (Option-cases (close_paren 1 (drop 1 s))) [
        | inl b ↦ rw (a, b) (λ e. cc)
        | inr (i, b) ↦
            rw (a, b)
              (parse_aggregated-ends op before s i fits (close_paren-inside 1 (drop 1 s) i b))
      ]
    ]

    parse_aggregation-ends :
        (s : Text) (op : Function)
        → length s ≤ n
        → parse_aggregation parse_f64 parse s op ≢ exhausted
    unfolding parse_aggregation
    parse_aggregation-ends s op fits =
        let behind = drop (length (name op)) (trim s) in
        >>=-ends _ _ (grouping_modifier-ends (trim (drop (length (name op)) (trim s)))) (λ before h.
          parse_parenthesis-ends op before.0 before.1 (
            omega (
              arith,
              grouping_modifier-shorter (trim (drop (length (name op)) (trim s))) before h,
              length-trim (drop (length (name op)) (trim s)),
              length-drop (length (name op)) (trim s),
              length-trim s,
            )))

    parse_trimmed-ends :
        (query : Text) → length query ≤ n → parse_trimmed parse_f64 parse query ≢ exhausted
    unfolding parse_trimmed
    parse_trimmed-ends query fits = elim (Option-cases (find_code b'(' query)) [
      | inl a ↦ rw (parse_trimmed, a) (parse_selector-ends query fits)
      | inr (i, a) ↦
          let inside = find_where-inside (λ b. b == b'(') query i a in
          elim (Option-cases (from_name (first_word (trim (take i query))))) [
            | inl b ↦ rw (parse_trimmed, a, b) (parse_call-ends query i fits inside)
            | inr (func, b) ↦
                rw (parse_trimmed, a, b)
                  (if-ends _ _ _ (parse_aggregation-ends query func fits)
                    (parse_call-ends query i fits inside))
          ]
    ]

  -- Parsing a query on fuel for more than its length ends with an expression, an error or a panic.
  pub parse_promql-ends :
      (fuel : ℕ) (query : Text)
      → length query < fuel
      → parse_promql parse_f64 fuel query ≢ exhausted
  unfolding parse_promql
  parse_promql-ends zero query h = absurd (omega arith)
  parse_promql-ends (suc fuel) query h =
      parse_trimmed-ends (parse_promql parse_f64 fuel) fuel (parse_promql-ends fuel) (trim query)
        (omega (arith, length-trim query))
