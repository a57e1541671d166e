-- ===== src/Identity/Lockout.antt =====
-- The lock of an account against a guesser, through `Login` of identity/internal/application/service.go.
use rekreativko_api.Base.{
  ℕ, suc, ◌+◌, ◌*◌, ◌≤◌, String, Bool, true, false, ltb, leb, if◌then◌else◌, Option, none, some,
  List, [], ◌∷◌, ◌≡◌, refl, ap, ◌∙◌, arith, Result, ok, err, inl, inr, Bool-cases, Result-cases,
}
use rekreativko_api.Identity.Errors.{Error, invalid_credentials}
use rekreativko_api.Identity.Account.{
  Account, minute, lock_ended, is_locked, failed_login_lock_duration, count_failed_login, lock,
  record_failed_login_attempt, can_login, add_event,
}
use rekreativko_api.Identity.Login.{Store, save, record_failed_login, login}

-- The shortest lock.
abbrev pub quarter : ℕ
quarter = 15 * minute

-- A request with a wrong password.
pub record Guess : Type 0 where
  pub now : ℕ
  pub later : ℕ
  pub ip_address : String

-- 1 if the answer tells that the password is wrong.
abbrev tells : Result Error (Unit {0}) → ℕ
tells (err invalid_credentials) = 1
tells _ = 0

-- How many of the guesses are told to be wrong.
unfoldable pub told : List Guess → Store → ℕ
unfolding login
told [] w = 0
told (g ∷ gs) w =
    let (v, answer) = login g.now g.later g.ip_address false w in tells answer + told gs v

-- The guesses are made one after the other between two times.
abbrev pub AreBetween : (from to : ℕ) → List Guess → Type 0
AreBetween from to [] = from ≤ to
AreBetween from to (g ∷ gs) = (from ≤ g.now) × (g.now ≤ g.later) × AreBetween g.later to gs

failed_login_lock_duration-long : (n : ℕ) → 5 ≤ n → quarter ≤ failed_login_lock_duration n
unfolding failed_login_lock_duration
failed_login_lock_duration-long n h = ground arith

-- From five counted failures on, the account is locked for a quarter after the last one.
abbrev IsGuarded : (last : ℕ) → Account → Type 0
IsGuarded last a =
    5 ≤ a.failed_login_attempts
    → (until : ℕ) × (a.locked_until ≡ some until) × (last + quarter ≤ until)

abbrev capped : ℕ → ℕ
capped n = if leb 5 n then 5 else n

abbrev next_count : ℕ → ℕ
next_count n = if ltb n 15 then suc n else n

record_failed_login-count :
    (later : ℕ) (ip : String) (w : Store)
    → lock_ended later w.account.locked_until ≡ true
    → (record_failed_login later ip w).account.failed_login_attempts
      ≡ next_count w.account.failed_login_attempts
unfolding record_failed_login record_failed_login_attempt save is_locked count_failed_login lock
    add_event
record_failed_login-count later ip w h = ground arith

record_failed_login-lock :
    (later : ℕ) (ip : String) (w : Store)
    → lock_ended later w.account.locked_until ≡ true
    → 5 ≤ next_count w.account.failed_login_attempts
    → (record_failed_login later ip w).account.locked_until
      ≡ some (later + failed_login_lock_duration (next_count w.account.failed_login_attempts))
unfolding record_failed_login record_failed_login_attempt save is_locked count_failed_login lock
    add_event
record_failed_login-lock later ip w h n =
    ground (arith, failed_login_lock_duration-long (next_count w.account.failed_login_attempts) n)

record_failed_login-IsGuarded :
    (later : ℕ) (ip : String) (w : Store)
    → lock_ended later w.account.locked_until ≡ true
    → IsGuarded later (record_failed_login later ip w).account
record_failed_login-IsGuarded later ip w h n =
    let m : 5 ≤ next_count w.account.failed_login_attempts =
      rw⁻¹ (record_failed_login-count later ip w h) n in
    (
      later + failed_login_lock_duration (next_count w.account.failed_login_attempts),
      record_failed_login-lock later ip w h m,
      omega (arith, failed_login_lock_duration-long (next_count w.account.failed_login_attempts) m),
    )

can_login-lock_ended :
    (now : ℕ) (a : Account) (x : Unit {0})
    → can_login now a ≡ ok x
    → lock_ended now a.locked_until ≡ true
unfolding can_login is_locked
can_login-lock_ended now a x h = ground arith

can_login-tells : (now : ℕ) (a : Account) (e : Error) → can_login now a ≡ err e → tells (err e) ≡ 0
unfolding can_login is_locked
can_login-tells now a e h = ground arith

lock_ended-later :
    (now later : ℕ) (until : Option ℕ)
    → now ≤ later
    → lock_ended now until ≡ true
    → lock_ended later until ≡ true
lock_ended-later now later none l h = refl
lock_ended-later now later (some t) l h = ground arith

AreBetween-earlier :
    (before from to : ℕ) (gs : List Guess)
    → before ≤ from
    → AreBetween from to gs
    → AreBetween before to gs
AreBetween-earlier before from to [] l h = omega arith
AreBetween-earlier before from to (g ∷ gs) l (p, q, r) = (omega arith, q, r)

login-refused :
    (now later : ℕ) (ip : String) (matches : Bool) (w : Store) (e : Error)
    → can_login now w.account ≡ err e
    → login now later ip matches w ≡ (w, err e)
unfolding login
login-refused now later ip matches w e h = rw (login, h) refl

login-wrong :
    (now later : ℕ) (ip : String) (w : Store) (x : Unit {0})
    → can_login now w.account ≡ ok x
    → login now later ip false w ≡ (record_failed_login later ip w, err invalid_credentials)
unfolding login
login-wrong now later ip w x h = rw (login, h) refl

told-refused :
    (g : Guess) (gs : List Guess) (w : Store) (e : Error)
    → can_login g.now w.account ≡ err e
    → told (g ∷ gs) w ≡ 0 + told gs w
unfolding told
told-refused g gs w e h =
    ap (λ p. tells p.1 + told gs p.0) (login-refused g.now g.later g.ip_address false w e h)
    ∙ ap (λ n. n + told gs w) (can_login-tells g.now w.account e h)

told-tried :
    (g : Guess) (gs : List Guess) (w : Store) (x : Unit {0})
    → can_login g.now w.account ≡ ok x
    → told (g ∷ gs) w ≡ 1 + told gs (record_failed_login g.later g.ip_address w)
unfolding told
told-tried g gs w x h =
    ap (λ p. tells p.1 + told gs p.0) (login-wrong g.now g.later g.ip_address w x h)

-- Before five failures time passes freely; from then on each one takes a quarter.
one_guess-slow :
    (last later : ℕ) (a : Account)
    → IsGuarded last a
    → last ≤ later
    → lock_ended later a.locked_until ≡ true
    → last + (capped a.failed_login_attempts + 1) * quarter
      ≤ later + capped (next_count a.failed_login_attempts) * quarter
one_guess-slow last later a guarded l h = elim (Bool-cases (leb 5 a.failed_login_attempts)) [
  | inr f ↦ ground arith
  | inl t ↦
      let n : 5 ≤ a.failed_login_attempts = ground arith in
      let (until, e, q) = guarded n in let passed : until ≤ later = ground arith in ground arith
]

told-slow_from :
    (gs : List Guess) (w : Store) (last to : ℕ)
    → IsGuarded last w.account
    → AreBetween last to gs
    → last + (capped w.account.failed_login_attempts + told gs w) * quarter ≤ to + 5 * quarter
unfolding told
told-slow_from [] w last to guarded l = ground arith
told-slow_from (g ∷ gs) w last to guarded (p, q, r) =
    elim (Result-cases (can_login g.now w.account)) [
      | inr (e, h) ↦
          let rest =
            told-slow_from gs w last to guarded
              (AreBetween-earlier last g.later to gs (omega arith) r) in
          omega (arith, told-refused g gs w e h, rest)
      | inl (x, h) ↦
          let ended =
            lock_ended-later g.now g.later w.account.locked_until q
              (can_login-lock_ended g.now w.account x h) in
          let v : Store = record_failed_login g.later g.ip_address w in
          let step = one_guess-slow last g.later w.account guarded (omega arith) ended in
          let rest =
            told-slow_from gs v g.later to
              (record_failed_login-IsGuarded g.later g.ip_address w ended) r in
          let same = record_failed_login-count g.later g.ip_address w ended in
          omega (arith, told-tried g gs w x h, step, rw same at rest)
    ]

-- Whoever guesses the password of an account without failed logins, one request after the other, is
-- told of at most five wrong guesses and then of one in each quarter of an hour.
pub told-slow :
    (gs : List Guess) (w : Store) (from to : ℕ)
    → w.account.failed_login_attempts ≡ 0
    → AreBetween from to gs
    → from + told gs w * quarter ≤ to + 5 * quarter
told-slow gs w from to z l = ground (arith, told-slow_from gs w from to (λ n. ground arith) l)
