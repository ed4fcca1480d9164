-- ===== src/Query/Promql/Parts.antt =====
-- The functions of the parser that read selectors and split arguments come to an end.
use chono_db.Prelude.{
  ℕ, suc, ◌≤◌, ◌≢◌, List, [], ◌∷◌, length, Bool, true, false, ◌&&◌, Option, All, Bool-cases,
  Option-cases, inl, inr, arith, ◌==◌, if◌then◌else◌,
}
use chono_db.Prelude.Int.{ℤ}
use chono_db.Prelude.Text.{Text, codes, trim, find_code, find_text, to_lowercase}
use chono_db.Query.Outcome.{Outcome, exhausted, >>=-ends}
use chono_db.Query.Expr.{AtModifier}
use chono_db.Query.Parser.{is_zero}
use chono_db.Query.Lengths.{}
use chono_db.Query.Leaves.{then-ends, slice-ends, parse_offset_modifier-ends, parse_matchers-ends}
use chono_db.Query.Promql.{
  split_offset, parse_at_modifier, split_at, parse_base, parse_vector_selector, split_args,
  arg_depth,
}

pub if-ends {ℓ} :
    {A : Type ℓ} (test : Bool) (first second : Outcome A)
    → first ≢ exhausted
    → second ≢ exhausted
    → (if test then first else second) ≢ exhausted
if-ends true first second h g = h
if-ends false first second h g = g

pub split_offset-ends : (s : Text) → split_offset s ≢ exhausted
unfolding split_offset
split_offset-ends s = elim (Option-cases (find_text (codes " offset ") (to_lowercase s))) [
  | inl a ↦ rw (split_offset, a) (λ e. cc)
  | inr (i, a) ↦ rw (split_offset, a) (then-ends _ _ (parse_offset_modifier-ends _))
]

-- The arguments are no longer than what they are taken from.
abbrev pub AreWithin : ℕ → List Text → Type 0
AreWithin n parts = All (λ (part : Text). length part ≤ n) parts

AreWithin-suc : (n : ℕ) (parts : List Text) → AreWithin n parts → AreWithin (suc n) parts
AreWithin-suc n [] h = tt
AreWithin-suc n (part ∷ parts) (first, h) = (omega arith, AreWithin-suc n parts h)

pub split_args-AreWithin :
    (depth : ℤ) (s : Text)
    → (length (split_args depth s).0 ≤ length s) × AreWithin (length s) (split_args depth s).1
unfolding split_args
split_args-AreWithin depth [] = (omega arith, tt)
split_args-AreWithin depth (c ∷ s) =
    let (first, rest) = split_args-AreWithin (arg_depth depth c) s in
    let wider = AreWithin-suc (length s) (split_args (arg_depth depth c) s).1 rest in
    elim (Bool-cases (c == b',' && is_zero depth)) [
      | inl e ↦ rw e (omega arith, (omega (arith, first), wider))
      | inr e ↦ rw e (omega (arith, first), wider)
    ]

module _ (parse_f64 : Text → Option ℤ) where
  parse_at_modifier-ends : (s : Text) → parse_at_modifier parse_f64 s ≢ exhausted
  unfolding parse_at_modifier
  parse_at_modifier-ends s e = ground (arith, e)

  split_at-ends : (s : Text) → split_at parse_f64 s ≢ exhausted
  unfolding split_at
  split_at-ends s = elim (Option-cases (find_text (codes " @") s)) [
    | inr (i, a) ↦ rw (split_at, a) (then-ends _ _ (parse_at_modifier-ends _))
    | inl a ↦ elim (Option-cases (find_code b'@' s)) [
      | inr (i, b) ↦ rw (split_at, a, b) (then-ends _ _ (parse_at_modifier-ends _))
      | inl b ↦ rw (split_at, a, b) (λ e. cc)
    ]
  ]

  parse_base-ends :
      (offset : Option ℤ) (at : Option AtModifier) (s : Text)
      → parse_base parse_f64 offset at s ≢ exhausted
  unfolding parse_base
  parse_base-ends offset at s = elim (Option-cases (find_code b'{' s)) [
    | inl a ↦ rw (parse_base, a) (λ e. cc)
    | inr (i, a) ↦
        rw (parse_base, a)
          (>>=-ends _ _ (slice-ends _ _ _) (λ m h. then-ends _ _ (parse_matchers-ends m)))
  ]

  pub parse_vector_selector-ends : (s : Text) → parse_vector_selector parse_f64 s ≢ exhausted
  unfolding parse_vector_selector
  parse_vector_selector-ends s =
      >>=-ends _ _ (split_offset-ends (trim s))
        (λ o h. >>=-ends _ _ (split_at-ends o.0) (λ a g. parse_base-ends o.1 a.1 a.0))
