-- ===== src/Query/Promql/Plain.antt =====
-- Queries that are a metric name, and those with an opening brace behind it.
use chono_db.Prelude.{
  ℕ, suc, ◌+◌, ◌≡◌, refl, ◌∙◌, [], ◌∷◌, ◌++◌, length, length-append, reverse, Bool, true, false,
  not, ◌&&◌, ◌||◌, leb, Option, none, some, All, All-append, arith, ◌==◌,
}
use mathlib.Core.List.{reverse_aux, reverse-reverse}
use chono_db.Prelude.Int.{ℤ, pos}
use chono_db.Prelude.Text.{
  Text, codes, is_whitespace, trim_start, trim, find_where, find_text, starts_with, to_lowercase,
}
use chono_db.Query.Outcome.{Outcome, panics, ok, ◌>>=◌, slice}
use chono_db.Query.Expr.{Expr, vector}
use chono_db.Query.Parser.{outermost_loop, find_outermost_bracket, depth_after}
use chono_db.Query.Promql.{
  split_offset, split_at, parse_base, parse_vector_selector, parse_selector, parse_trimmed,
  parse_promql,
}

-- The characters of a metric name.
abbrev pub is_plain : ℕ → Bool
is_plain c =
    (leb b'a' c && leb c b'z')
    || (leb b'A' c && leb c b'Z')
    || (leb b'0' c && leb c b'9')
    || c == b'_'

-- No white space, and none of the characters that the parser looks for in front of a brace.
abbrev is_quiet : ℕ → Bool
is_quiet c = not (is_whitespace c) && not (c == b'(') && not (c == b']') && not (c == b'@')

abbrev pub AreAll : (ℕ → Bool) → Text → Type 0
AreAll p s = All (λ (c : ℕ). p c ≡ true) s

quiet_plain : (s : Text) → AreAll is_plain s → AreAll is_quiet s
quiet_plain [] h = tt
quiet_plain (c ∷ s) (first, h) = (ground (arith, first), quiet_plain s h)

reverse_aux-AreAll :
    (p : ℕ → Bool) (s r : Text) → AreAll p s → AreAll p r → AreAll p (reverse_aux s r)
reverse_aux-AreAll p [] r h g = g
reverse_aux-AreAll p (c ∷ s) r (first, h) g = reverse_aux-AreAll p s (c ∷ r) h (first, g)

trim_start-quiet : (s : Text) → AreAll is_quiet s → trim_start s ≡ s
unfolding trim_start
trim_start-quiet [] h = refl
trim_start-quiet (c ∷ s) (first, h) = ground (arith, first)

trim-quiet : (s : Text) → AreAll is_quiet s → trim s ≡ s
unfolding trim
trim-quiet s h =
    rw (trim_start-quiet s h, trim_start-quiet (reverse s) (reverse_aux-AreAll is_quiet s [] h tt))
      (reverse-reverse s)

find_where-none : (p : ℕ → Bool) (s : Text) → AreAll (λ c. not (p c)) s → find_where p s ≡ none
unfolding find_where
find_where-none p [] h = refl
find_where-none p (c ∷ s) (first, h) = ground (arith, first, find_where-none p s h)

quiet_without :
    (x : ℕ) (s : Text)
    → ((c : ℕ) → is_quiet c ≡ true → not (c == x) ≡ true)
    → AreAll is_quiet s
    → AreAll (λ c. not (c == x)) s
quiet_without x [] g h = tt
quiet_without x (c ∷ s) g (first, h) = (g c first, quiet_without x s g h)

find_text-none :
    (x : ℕ) (more s : Text) → AreAll (λ c. not (c == x)) s → find_text (x ∷ more) s ≡ none
unfolding find_text starts_with
find_text-none x more [] h = refl
find_text-none x more (c ∷ s) (first, h) = ground (arith, first, find_text-none x more s h)

lower_without : (s : Text) → AreAll is_quiet s → AreAll (λ c. not (c == 32)) (to_lowercase s)
unfolding to_lowercase
lower_without [] h = tt
lower_without (c ∷ s) (first, h) = (ground (arith, first), lower_without s h)

outermost_loop-none :
    (depth : ℤ) (before s : Text) → AreAll is_quiet s → outermost_loop depth before s ≡ none
unfolding outermost_loop
outermost_loop-none depth before [] h = refl
outermost_loop-none depth before (c ∷ s) (first, h) =
    let close : (c == b']') ≡ false = ground (arith, first) in
    rw (close, outermost_loop-none (depth_after depth c) (c ∷ before) s h) refl

split_offset-quiet : (s : Text) → AreAll is_quiet s → split_offset s ≡ ok (s, none)
unfolding split_offset
split_offset-quiet s h =
    rw (split_offset, find_text-none 32 (codes "offset ") (to_lowercase s) (lower_without s h)) refl

module _ (parse_f64 : Text → Option ℤ) where
  split_at-quiet : (s : Text) → AreAll is_quiet s → split_at parse_f64 s ≡ ok (s, none)
  unfolding split_at
  split_at-quiet s h =
      rw
        (
          split_at,
          find_text-none 32 (codes "@") s (quiet_without 32 s (λ c e. ground (arith, e)) h),
          find_where-none (λ c. c == b'@') s (quiet_without b'@' s (λ c e. ground (arith, e)) h),
        )
        refl

  vector_selector-quiet :
      (s : Text)
      → AreAll is_quiet s
      → parse_vector_selector parse_f64 s ≡ parse_base parse_f64 none none s
  unfolding parse_vector_selector
  vector_selector-quiet s h = rw (trim-quiet s h, split_offset-quiet s h, split_at-quiet s h) refl

  selector-quiet :
      (parse : Text → Outcome Expr) (s : Text)
      → AreAll is_quiet s
      → parse_selector parse_f64 parse s
        ≡ (parse_base parse_f64 none none s >>= λ selector. ok (vector selector))
  unfolding parse_selector find_outermost_bracket
  selector-quiet parse s h =
      rw (parse_selector, outermost_loop-none (pos 0) [] s h, vector_selector-quiet s h) refl

  trimmed-quiet :
      (parse : Text → Outcome Expr) (s : Text)
      → AreAll is_quiet s
      → parse_trimmed parse_f64 parse s
        ≡ (parse_base parse_f64 none none s >>= λ selector. ok (vector selector))
  unfolding parse_trimmed
  trimmed-quiet parse s h =
      rw
        (
          parse_trimmed,
          find_where-none (λ c. c == b'(') s (quiet_without b'(' s (λ c e. ground (arith, e)) h),
        )
        (selector-quiet parse s h)

  promql-quiet :
      (fuel : ℕ) (s : Text)
      → AreAll is_quiet s
      → parse_promql parse_f64 (suc fuel) s
        ≡ (parse_base parse_f64 none none s >>= λ selector. ok (vector selector))
  unfolding parse_promql
  promql-quiet fuel s h = rw (trim-quiet s h) (trimmed-quiet (parse_promql parse_f64 fuel) s h)

  braceless : (s : Text) → AreAll is_plain s → find_where (λ c. c == b'{') s ≡ none
  braceless s h = find_where-none (λ c. c == b'{') s (without s h)
    where
      without : (s : Text) → AreAll is_plain s → AreAll (λ c. not (c == b'{')) s
      without [] h = tt
      without (c ∷ s) (first, h) = (ground (arith, first), without s h)

  brace_last :
      (s : Text)
      → AreAll is_plain s
      → find_where (λ c. c == b'{') (s ++ (b'{' ∷ [])) ≡ some (length s)
  unfolding find_where
  brace_last [] h = refl
  brace_last (c ∷ s) (first, h) = ground (arith, first, brace_last s h)

  base-plain :
      (s : Text)
      → AreAll is_plain s
      → parse_base parse_f64 none none s
        ≡ ok (record { name = some s; matchers = []; offset = none; at = none })
  unfolding parse_base
  base-plain s h = rw (parse_base, braceless s h) refl

  base-brace :
      (s : Text) → AreAll is_plain s → parse_base parse_f64 none none (s ++ (b'{' ∷ [])) ≡ panics
  unfolding parse_base slice
  base-brace s h =
      let size : length (s ++ (b'{' ∷ [])) ≡ length s + 1 =
        omega (arith, length-append s (b'{' ∷ [])) in
      rw (parse_base, brace_last s h, size) (ground arith)

  -- A query that is a metric name of letters, digits and underscores parses to the selector of that name
  -- alone; with an opening brace behind the name, parsing panics.
  pub parse_promql-plain :
      (fuel : ℕ) (s : Text)
      → AreAll is_plain s
      → (parse_promql parse_f64 (suc fuel) s
          ≡ ok (vector (record { name = some s; matchers = []; offset = none; at = none })))
        × (parse_promql parse_f64 (suc fuel) (s ++ (b'{' ∷ [])) ≡ panics)
  parse_promql-plain fuel s h =
      let quiet = quiet_plain s h in
      let braced : AreAll is_quiet (s ++ (b'{' ∷ [])) =
        All-append (λ (c : ℕ). is_quiet c ≡ true) s (b'{' ∷ []) quiet (refl, tt) in
      (
        promql-quiet fuel s quiet ∙ rw (base-plain s h) refl,
        promql-quiet fuel (s ++ (b'{' ∷ [])) braced ∙ rw (base-brace s h) refl,
      )
