-- ===== src/Query/Outcome.antt =====
-- What a call of the parser comes to: a value, an error, a panic of the program, or, in the model, the
-- end of the fuel.
use chono_db.Prelude.{ℕ, ◌-◌, ◌≡◌, ◌≢◌, refl, ◌&&◌, leb, length, take, drop, if◌then◌else◌}
use chono_db.Prelude.Text.{Text}
use chono_db.Error.{Error}

pub data Outcome {ℓ} (A : Type ℓ) : Type ℓ where
  exhausted : Outcome A
  panics : Outcome A
  err : Error → Outcome A
  ok : A → Outcome A

-- The `?` operator.
infixl 5 ◌>>=◌
abbrev pub ◌>>=◌ {ℓ κ} :
    {Early : Type ℓ} {Late : Type κ} → Outcome Early → (Early → Outcome Late) → Outcome Late
exhausted >>= next = exhausted
panics >>= next = panics
err reason >>= next = err reason
ok early >>= next = next early

-- `&s[first..last]`
unfoldable pub slice : Text → ℕ → ℕ → Outcome Text
slice s first last =
    if leb first last && leb last (length s)
    then ok (take (last - first) (drop first s))
    else panics

-- `&s[first..]`
unfoldable pub slice_from : Text → ℕ → Outcome Text
slice_from s first = if leb first (length s) then ok (drop first s) else panics

-- A chain ends where its parts do.
pub >>=-ends {ℓ κ} :
    {Early : Type ℓ} {Late : Type κ} (first : Outcome Early) (next : Early → Outcome Late)
    → first ≢ exhausted
    → ((early : Early) → first ≡ ok early → next early ≢ exhausted)
    → (first >>= next) ≢ exhausted
>>=-ends exhausted next h g e = h refl
>>=-ends panics next h g e = cc
>>=-ends (err reason) next h g e = cc
>>=-ends (ok early) next h g e = g early refl e
