-- ===== src/Query/Leaves.antt =====
-- The functions of the parser that do not call it come to an end.
use chono_db.Prelude.{
  ℕ, ◌+◌, ◌-◌, ◌%◌, ◌^◌, ◌≤◌, ◌≡◌, ◌≢◌, refl, sym, ◌∙◌, subst, List, [], ◌∷◌, length, length-drop,
  take, drop, Bool-cases, Option-cases, inl, inr, arith,
}
use chono_db.Prelude.Word.{as_i64, as_u64}
use chono_db.Prelude.Text.{Text, codes, trim, starts_with, split, find_code}
use chono_db.Query.Outcome.{Outcome, exhausted, panics, err, ok, ◌>>=◌, >>=-ends, slice, slice_from}
use chono_db.Query.Expr.{Expr}
use chono_db.Query.Parser.{
  subquery_parts, parse_duration, parse_offset_modifier, unquote, matchers_loop, parse_matchers,
  parse_grouping_labels, close_paren, parse_subquery_suffix,
}
use chono_db.Query.Lengths.{length-trim}

pub ok-ends {ℓ} : {A : Type ℓ} (a : A) → ok a ≢ exhausted
ok-ends a e = cc

-- A chain whose last part is a value.
pub then-ends {ℓ κ} :
    {Early : Type ℓ} {Late : Type κ} (first : Outcome Early) (next : Early → Late)
    → first ≢ exhausted
    → (first >>= λ early. ok (next early)) ≢ exhausted
then-ends first next h =
    >>=-ends first (λ early. ok (next early)) h (λ early e. ok-ends (next early))

pub slice-ends : (s : Text) (i j : ℕ) → slice s i j ≢ exhausted
unfolding slice
slice-ends s i j e = ground (arith, e)

pub slice_from-ends : (s : Text) (i : ℕ) → slice_from s i ≢ exhausted
unfolding slice_from
slice_from-ends s i e = ground (arith, e)

pub parse_duration-ends : (s : Text) → parse_duration s ≢ exhausted
unfolding parse_duration
parse_duration-ends s e = ground (arith, e)

pub parse_offset_modifier-ends : (s : Text) → parse_offset_modifier s ≢ exhausted
unfolding parse_offset_modifier
parse_offset_modifier-ends s e =
    let minus =
      then-ends (parse_duration (trim (drop 1 (trim s))))
        (λ d. as_i64 ((2 ^ 64 - as_u64 d) % 2 ^ 64))
        (parse_duration-ends (trim (drop 1 (trim s)))) in
    elim (Bool-cases (starts_with (codes "-") (trim s))) [
      | inl a ↦ minus (sym (rw a refl) ∙ e)
      | inr a ↦ elim (Bool-cases (starts_with (codes "+") (trim s))) [
        | inl b ↦ parse_duration-ends (trim (drop 1 (trim s))) (sym (rw (a, b) refl) ∙ e)
        | inr b ↦ parse_duration-ends (trim s) (sym (rw (a, b) refl) ∙ e)
      ]
    ]

unquote-ends : (s : Text) → unquote s ≢ exhausted
unfolding unquote
unquote-ends s e = ground (arith, e, slice-ends s 1 (length s - 1))

matchers_loop-ends : (parts : List Text) → matchers_loop parts ≢ exhausted
unfolding matchers_loop
matchers_loop-ends [] = λ e. cc
matchers_loop-ends (text ∷ parts) = elim (Option-cases (find_code b'=' (trim text))) [
  | inl a ↦ rw (matchers_loop, a) (matchers_loop-ends parts)
  | inr (i, a) ↦
      rw (matchers_loop, a)
        (>>=-ends (unquote (trim (drop (i + 1) (trim text)))) _
          (unquote-ends (trim (drop (i + 1) (trim text))))
          (λ value h. then-ends (matchers_loop parts) _ (matchers_loop-ends parts)))
]

pub parse_matchers-ends : (s : Text) → parse_matchers s ≢ exhausted
unfolding parse_matchers
parse_matchers-ends s = matchers_loop-ends (split b',' s)

pub parse_grouping_labels-ends : (s : Text) → parse_grouping_labels s ≢ exhausted
unfolding parse_grouping_labels
parse_grouping_labels-ends s e = ground (arith, e)

rest_of : Outcome (List Text × Text) → Text
rest_of exhausted = []
rest_of panics = []
rest_of (err reason) = []
rest_of (ok r) = r.1

rest_of-shorter : (s : Text) → length (rest_of (parse_grouping_labels s)) ≤ length s
unfolding parse_grouping_labels rest_of
rest_of-shorter s = elim (Bool-cases (starts_with (codes "(") (trim s))) [
  | inr a ↦ rw (parse_grouping_labels, a) (omega arith)
  | inl a ↦ elim (Option-cases (close_paren 1 (drop 1 (trim s)))) [
    | inl b ↦ rw (parse_grouping_labels, a, b) (omega arith)
    | inr (i, b) ↦
        rw (parse_grouping_labels, a, b)
          (omega (arith, length-drop (i + 2) (trim s), length-trim s))
  ]
]

pub parse_grouping_labels-shorter :
    (s : Text) (r : List Text × Text) → parse_grouping_labels s ≡ ok r → length r.1 ≤ length s
unfolding rest_of
parse_grouping_labels-shorter s r e =
    subst (λ o. length (rest_of o) ≤ length s) e (rest_of-shorter s)

subquery_parts-ends : (expr : Expr) (parts : List Text) → subquery_parts expr parts ≢ exhausted
unfolding subquery_parts
subquery_parts-ends expr [] = λ e. cc
subquery_parts-ends expr (a ∷ []) = λ e. cc
subquery_parts-ends expr (a ∷ b ∷ []) =
    >>=-ends (parse_duration (trim a)) _ (parse_duration-ends (trim a))
      (λ range h. then-ends (parse_duration (trim b)) _ (parse_duration-ends (trim b)))
subquery_parts-ends expr (a ∷ b ∷ c ∷ parts) = λ e. cc

pub parse_subquery_suffix-ends : (expr : Expr) (s : Text) → parse_subquery_suffix expr s ≢ exhausted
unfolding parse_subquery_suffix
parse_subquery_suffix-ends expr s e =
    ground (arith, e, subquery_parts-ends expr (split b':' (take (length s - 2) (drop 1 s))))
