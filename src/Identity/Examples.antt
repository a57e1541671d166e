-- ===== src/Identity/Examples.antt =====
-- Accounts on concrete inputs, and the theorem at them.
use rekreativko_api.Base.{ℕ, ◌+◌, ◌*◌, ◌≤◌, some, none, List, [], ◌∷◌, ◌≡◌, refl, arith}
use rekreativko_api.Identity.Account.{Account, active}
use rekreativko_api.Identity.Login.{Store, login}
use rekreativko_api.Identity.Lockout.{Guess, told, AreBetween, quarter, told-slow}

abbrev ana : Account
ana = record {
  id = 7;
  email = some "ana@example.com";
  phone_number = none;
  password = "hash";
  status = active;
  failed_login_attempts = 0;
  locked_until = none;
  created_at = 1;
  updated_at = 1;
  deleted_at = none;
  erase_after = none;
  erased_at = none;
  events = [];
}

abbrev store : Store
store = record { account = ana; outbox = [] }

abbrev guess : ℕ → Guess
guess t = record { now = t; later = t + 1; ip_address = "10.0.0.1" }

-- Five guesses in a minute, and two more during the lock.
abbrev guesses : List Guess
guesses = guess 10 ∷ guess 20 ∷ guess 30 ∷ guess 40 ∷ guess 50 ∷ guess 60 ∷ guess 70 ∷ []

told-guesses : told guesses store ≡ 5
unfolding told login
told-guesses = refl

guesses-AreBetween : AreBetween 0 100 guesses
guesses-AreBetween = (
  omega arith,
  omega arith,
  (
    omega arith,
    omega arith,
    (
      omega arith,
      omega arith,
      (
        omega arith,
        omega arith,
        (
          omega arith,
          omega arith,
          (omega arith, omega arith, (omega arith, omega arith, omega arith)),
        ),
      ),
    ),
  ),
)

told-slow_example : 0 + told guesses store * quarter ≤ 100 + 5 * quarter
told-slow_example = told-slow guesses store 0 100 refl guesses-AreBetween
