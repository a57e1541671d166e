-- ===== src/Identity/Login.antt =====
-- identity/internal/application/service.go: `Login` and `recordFailedLogin`, on the row of one account
-- and the outbox. Whether the password matches its hash (bcrypt) is an argument, and so are the times at
-- which the request reads the clock: `now` before the password is compared, `later` after it. The token
-- that a successful login creates is left out.
use rekreativko_api.Base.{ℕ, String, Bool, if◌then◌else◌, List, [], ◌++◌, Result, ok, err, ◌>>◌}
use rekreativko_api.Identity.Errors.{Error, invalid_credentials}
use rekreativko_api.Identity.Account.{
  Account, AccountEvent, is_locked, record_failed_login_attempt, record_successful_login, can_login,
}

-- The row carries no events.
pub record Store : Type 0 where
  pub account : Account
  pub outbox : List AccountEvent

-- `UpdateAccount` and `InsertEvents`.
unfoldable pub save : Account → Store → Store
save a w = record { account = record a { events = [] }; outbox = w.outbox ++ a.events }

unfoldable pub record_failed_login : (later : ℕ) → (ip_address : String) → Store → Store
unfolding is_locked record_failed_login_attempt save
record_failed_login later ip_address w =
    let (a, locked) = is_locked later w.account in
    if locked then w else save (record_failed_login_attempt later ip_address a) w

-- The second transaction of a login whose password matches.
unfoldable pub finish_login : (later : ℕ) → (ip_address : String) → Store → Result Error Store
unfolding can_login record_successful_login save
finish_login later ip_address w = do
  can_login later w.account
  ok (save (record_successful_login later ip_address w.account) w)

-- The row after the request, and the answer.
unfoldable pub login :
    (now later : ℕ)
    → (ip_address : String) → (matches : Bool) → Store
    → Store × Result Error (Unit {0})
unfolding can_login finish_login record_failed_login
login now later ip_address matches w = elim (can_login now w.account) [
  | err e ↦ (w, err e)
  | ok _ ↦
      if matches
      then elim (finish_login later ip_address w) [ ok v ↦ (v, ok tt) | err e ↦ (w, err e) ]
      else (record_failed_login later ip_address w, err invalid_credentials)
]
