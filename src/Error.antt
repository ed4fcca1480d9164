-- ===== src/Error.antt =====
-- storage/src/error.rs: the errors of the storage crate that the models raise, and `Result`.
use chono_db.Prelude.{ℕ, String, ◌≡◌, refl, Bool, if◌then◌else◌}

-- The variants that the modelled code returns, with the text that it puts in them. An error of
-- `std::io` is `io`, whatever its kind.
pub data Error : Type 0 where
  invalid_data : String → Error
  overflow : String → Error
  io : Error
  wal : String → Error
  internal : String → Error
  serialization : Error
  storage_full : Error
  series_not_found : ℕ → Error

-- `stuck` is no value of Rust's `Result`: it says that a loop of the model ran out of fuel.
pub data Result {ℓ} (A : Type ℓ) : Type ℓ where
  stuck : Result A
  err : Error → Result A
  ok : A → Result A

-- The `?` operator.
infixl 5 ◌>>=◌ ◌>>◌
abbrev pub ◌>>=◌ {ℓ κ} :
    {Early : Type ℓ} {Late : Type κ} → Result Early → (Early → Result Late) → Result Late
stuck >>= next = stuck
err reason >>= next = err reason
ok early >>= next = next early

abbrev pub ◌>>◌ {ℓ} : {Late : Type ℓ} → Result (Unit {0}) → Result Late → Result Late
check >> late = check >>= λ _. late

abbrev pub ensure : Bool → Error → Result (Unit {0})
ensure holds reason = if holds then ok tt else err reason

-- A chain that succeeds with `late` passed through a value of its first part.
pub >>=-eq-ok {ℓ κ} :
    {Early : Type ℓ} {Late : Type κ} {late : Late}
    → (first : Result Early) (next : Early → Result Late) → (first >>= next) ≡ ok late
    → (early : Early) × (first ≡ ok early) × (next early ≡ ok late)
>>=-eq-ok stuck next chain = cc
>>=-eq-ok (err reason) next chain = cc
>>=-eq-ok (ok early) next chain = (early, refl, chain)

-- A call on a state, where the one before it succeeded.
unfoldable pub on_ok {ℓ} :
    {State : Type ℓ}
    → (State → Result (Unit {0}) × State)
    → Result (Unit {0}) × State
    → Result (Unit {0}) × State
on_ok next (ok _, state) = next state
on_ok next (err reason, state) = (err reason, state)
on_ok next (stuck, state) = (stuck, state)

-- Calls on a state that carries another one do what those on the other one do.
pub on_ok-carry {ℓ κ} :
    {Outer : Type ℓ} {Inner : Type κ} (carry : Inner → Outer)
    (outer : Outer → Result (Unit {0}) × Outer) (inner : Inner → Result (Unit {0}) × Inner)
    → ((state : Inner) → outer (carry state) ≡ ((inner state).0, carry (inner state).1))
    → (r : Result (Unit {0}) × Inner)
    → on_ok outer (r.0, carry r.1) ≡ ((on_ok inner r).0, carry (on_ok inner r).1)
unfolding on_ok
on_ok-carry carry outer inner same (ok _, state) = same state
on_ok-carry carry outer inner same (err reason, state) = refl
on_ok-carry carry outer inner same (stuck, state) = refl

pub on_ok-first {ℓ} :
    {State : Type ℓ} (next : State → Result (Unit {0}) × State) (r : Result (Unit {0}) × State)
    → r.0 ≡ ok tt
    → on_ok next r ≡ next r.1
unfolding on_ok
on_ok-first next (ok _, state) h = refl
on_ok-first next (err reason, state) h = cc
on_ok-first next (stuck, state) h = cc
