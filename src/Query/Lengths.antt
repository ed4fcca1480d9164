-- ===== src/Query/Lengths.antt =====
-- The lengths of the parts that the parser takes of a text.
use mathlib.Core.List.{reverse_aux}
use chono_db.Prelude.{
  ℕ, suc, ◌+◌, ◌-◌, ◌≤◌, ◌<◌, ◌≡◌, refl, sym, ◌∙◌, [], ◌∷◌, length, reverse, Bool, true, false,
  Option, none, some, Bool-cases, Option-cases, inl, inr, arith, ◌==◌, ◌&&◌, if◌then◌else◌,
}
use chono_db.Prelude.Int.{ℤ, pos}
use chono_db.Prelude.Text.{Text, trim_start, trim, find_where}
use chono_db.Query.Parser.{
  close_paren, open_before, outermost_loop, find_outermost_bracket, is_zero, depth_after,
}

length-reverse_aux : (s r : Text) → length (reverse_aux s r) ≡ length s + length r
length-reverse_aux [] r = omega arith
length-reverse_aux (c ∷ s) r = omega (arith, length-reverse_aux s (c ∷ r))

length-reverse : (s : Text) → length (reverse s) ≡ length s
length-reverse s = omega (arith, length-reverse_aux s [])

length-trim_start : (s : Text) → length (trim_start s) ≤ length s
unfolding trim_start
length-trim_start [] = omega arith
length-trim_start (c ∷ s) = ground (arith, length-trim_start s)

pub length-trim : (s : Text) → length (trim s) ≤ length s
unfolding trim
length-trim s = omega (
  arith,
  length-reverse (trim_start (reverse (trim_start s))),
  length-trim_start (reverse (trim_start s)),
  length-reverse (trim_start s),
  length-trim_start s,
)

pub find_where-inside : (p : ℕ → Bool) (s : Text) (i : ℕ) → find_where p s ≡ some i → i < length s
unfolding find_where
find_where-inside p [] i e = cc
find_where-inside p (c ∷ s) i e = elim (Option-cases (find_where p s)) [
  | inl none_yet ↦ ground (arith, e, none_yet)
  | inr (j, found) ↦ ground (arith, e, found, find_where-inside p s j found)
]

suc_inside :
    (o : Option ℕ) (n i : ℕ)
    → ((j : ℕ) → o ≡ some j → j < n)
    → (elim o as (λ _. Option ℕ) [ none ↦ none | some j ↦ some (suc j) ]) ≡ some i
    → i < suc n
suc_inside none n i h e = cc
suc_inside (some j) n i h e =
    let less : j < n = h j refl in
    let same : some (suc j) ≡ some i = e in ground (arith, less, same)

pub close_paren-inside :
    (depth : ℕ) (s : Text) (i : ℕ) → close_paren depth s ≡ some i → i < length s
unfolding close_paren
close_paren-inside depth [] i e = cc
close_paren-inside depth (c ∷ s) i e =
    let deeper = close_paren-inside (depth + 1) s in
    let higher = close_paren-inside (depth - 1) s in
    let same = close_paren-inside depth s in
    elim (Bool-cases (c == b')' && depth == 1)) [
      | inl here ↦ ground (arith, e, here)
      | inr further ↦
          suc_inside
            (if c == b'('
              then close_paren (depth + 1) s
              else if c == b')'
              then close_paren (depth - 1) s
              else close_paren depth s)
            (length s) i (λ j h. ground (arith, h, deeper j, higher j, same j))
            (sym (rw further refl) ∙ e)
    ]

open_before-inside : (depth : ℕ) (s : Text) (i : ℕ) → open_before depth s ≡ some i → i < length s
unfolding open_before
open_before-inside depth [] i e = cc
open_before-inside depth (c ∷ s) i e = ground (
  arith,
  e,
  open_before-inside (depth + 1) s i,
  open_before-inside (depth - 1) s i,
  open_before-inside depth s i,
)

outer_step :
    (test : Bool) (here later : Option ℕ) (n m i : ℕ)
    → ((j : ℕ) → here ≡ some j → j < n)
    → ((j : ℕ) → later ≡ some j → j < m)
    → n ≤ m
    → (if test then (elim here as (λ _. Option ℕ) [ none ↦ later | some j ↦ some j ]) else later)
      ≡ some i
    → i < m
outer_step false here later n m i h g less e = g i e
outer_step true none later n m i h g less e = g i e
outer_step true (some j) later n m i h g less e =
    let inside : j < n = h j refl in let same : some j ≡ some i = e in ground (arith, inside, same)

outermost_loop-inside :
    (depth : ℤ) (before s : Text) (i : ℕ)
    → outermost_loop depth before s ≡ some i
    → i < length before + length s
unfolding outermost_loop
outermost_loop-inside depth before [] i e = cc
outermost_loop-inside depth before (c ∷ s) i e =
    outer_step (c == b']' && is_zero (depth_after depth c)) (open_before 1 before)
      (outermost_loop (depth_after depth c) (c ∷ before) s) (length before)
      (length before + suc (length s)) i (λ j h. open_before-inside 1 before j h)
      (λ j h. omega (arith, outermost_loop-inside (depth_after depth c) (c ∷ before) s j h))
      (omega arith) e

pub find_outermost_bracket-inside :
    (query : Text) (i : ℕ) → find_outermost_bracket query ≡ some i → i < length query
unfolding find_outermost_bracket
find_outermost_bracket-inside query i e = omega (arith, outermost_loop-inside (pos 0) [] query i e)
