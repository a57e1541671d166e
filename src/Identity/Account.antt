-- ===== src/Identity/Account.antt =====
-- identity/internal/domain/account.go and account_status.go: an account, its status, its lock and its
-- erasure. `now` is what `time.Now().UTC()` returns, in nanoseconds, and `id` what `uuid.New()` returns;
-- a duration is not negative. A password is its hash.
use rekreativko_api.Base.{
  ℕ, suc, ◌+◌, ◌*◌, ℤ, int8, String, Bool, true, false, ◌&&◌, not, ltb, leb, if◌then◌else◌, Option,
  none, some, List, [], ◌∷◌, ◌++◌, Result, ok, err, ◌>>◌, guard,
}
use text.Mathlib.Text.{◌==◌}
use rekreativko_api.Identity.Errors.{
  Error, invalid_credentials, account_not_verified, account_suspended, account_deleted,
  account_not_deleted, account_already_erased, account_locked,
}

-- `unknown` is any other string.
pub data AccountStatus : Type 0 where
  active pending suspended deleted : AccountStatus
  unknown : String → AccountStatus

abbrev pub is_active : AccountStatus → Bool
is_active active = true
is_active _ = false

-- `CanBeActivated`, and the tests for pending.
abbrev pub can_be_activated : AccountStatus → Bool
can_be_activated pending = true
can_be_activated _ = false

abbrev pub can_be_suspended : AccountStatus → Bool
can_be_suspended active = true
can_be_suspended _ = false

abbrev pub can_be_deleted : AccountStatus → Bool
can_be_deleted active = true
can_be_deleted suspended = true
can_be_deleted _ = false

abbrev pub is_deleted : AccountStatus → Bool
is_deleted deleted = true
is_deleted _ = false

pub data CodeType : Type 0 where
  email_code phone_code : CodeType

-- What each event carries beside its id and time stamp; its aggregate is the account.
pub data AccountEvent : Type 0 where
  account_registered : (account_id : ℕ) → (email phone : Option String) → AccountEvent
  account_activated : (account_id : ℕ) → AccountEvent
  account_verified :
      (account_id : ℕ) → CodeType → (email phone : String) → (unconfirmed : Bool) → AccountEvent
  account_suspended_event : (account_id : ℕ) → (reason : String) → AccountEvent
  account_locked_event : (account_id : ℕ) → (reason : String) → (locked_until : ℕ) → AccountEvent
  account_unlocked : (account_id : ℕ) → AccountEvent
  login_succeeded : (account_id : ℕ) → (ip_address : String) → AccountEvent
  login_failed : (account_id : ℕ) → (ip_address reason : String) → (attempts : ℤ) → AccountEvent
  password_changed : (account_id : ℕ) → AccountEvent
  account_deleted_event : (account_id : ℕ) → AccountEvent
  account_erased : (account_id : ℕ) → AccountEvent

pub record Account : Type 0 where
  pub id : ℕ
  pub email : Option String
  pub phone_number : Option String
  pub password : String
  pub status : AccountStatus
  pub failed_login_attempts : ℕ
  pub locked_until : Option ℕ
  pub created_at : ℕ
  pub updated_at : ℕ
  pub deleted_at : Option ℕ
  pub erase_after : Option ℕ
  pub erased_at : Option ℕ
  pub events : List AccountEvent

unfoldable pub add_event : AccountEvent → Account → Account
add_event e a = record a { events = a.events ++ e ∷ [] }

-- `IsEmpty` of an address, and its string.
abbrev pub is_empty : Option String → Bool
is_empty none = true
is_empty (some s) = s == ""

abbrev pub text_of : Option String → String
text_of none = ""
text_of (some s) = s

unfoldable pub new_account :
    (id now : ℕ) → (email phone_number : Option String) → (password : String) → Result Error Account
unfolding add_event
new_account id now email phone_number password = do
  guard (not (is_empty email && is_empty phone_number)) invalid_credentials
  ok (
      add_event (account_registered id email phone_number) (record {
        id = id;
        email = email;
        phone_number = phone_number;
        password = password;
        status = pending;
        failed_login_attempts = 0;
        locked_until = none;
        created_at = now;
        updated_at = now;
        deleted_at = none;
        erase_after = none;
        erased_at = none;
        events = [];
      }))

-- `Activate`, by the type of the code that was entered.
unfoldable pub activate : (now : ℕ) → CodeType → Account → Result Error Account
unfolding add_event
activate now code_type a = do
  guard (can_be_activated a.status) account_not_verified
  ok (
      add_event (account_verified a.id code_type (text_of a.email) (text_of a.phone_number) false)
        (add_event (account_activated a.id) (record a { status = active; updated_at = now })))

unfoldable pub activate_unverified : (now : ℕ) → CodeType → Account → Result Error Account
unfolding add_event
activate_unverified now via a = do
  guard (can_be_activated a.status) account_not_verified
  ok (
      add_event (account_verified a.id via (text_of a.email) (text_of a.phone_number) true)
        (add_event (account_activated a.id) (record a { status = active; updated_at = now })))

unfoldable pub suspend : (now : ℕ) → (reason : String) → Account → Result Error Account
unfolding add_event
suspend now reason a = do
  guard (can_be_suspended a.status) account_suspended
  ok (
      add_event (account_suspended_event a.id reason)
        (record a { status = suspended; updated_at = now }))

unfoldable pub delete : (now grace : ℕ) → Account → Result Error Account
unfolding add_event
delete now grace a = do
  guard (can_be_deleted a.status) account_deleted
  ok (
      add_event (account_deleted_event a.id) (record a {
        status = deleted;
        deleted_at = some now;
        erase_after = some (now + grace);
        updated_at = now;
      }))

abbrev pub erased_password_hash : String
erased_password_hash = "!erased"

abbrev pub is_none {ℓ} : {A : Type ℓ} → Option A → Bool
is_none none = true
is_none (some a) = false

unfoldable pub erase : (now : ℕ) → Account → Result Error Account
unfolding add_event
erase now a = do
  guard (is_deleted a.status) account_not_deleted
  guard (is_none a.erased_at) account_already_erased
  ok (
      add_event (account_erased a.id) (record a {
        email = none;
        phone_number = none;
        password = erased_password_hash;
        erased_at = some now;
        updated_at = now;
      }))

unfoldable pub lock : (now duration : ℕ) → (reason : String) → Account → Account
unfolding add_event
lock now duration reason a =
    add_event (account_locked_event a.id reason (now + duration))
      (record a { locked_until = some (now + duration); updated_at = now })

abbrev pub minute : ℕ
minute = 60_000_000_000

pub record LockTier : Type 0 where
  pub at_least : ℕ
  pub lock_for : ℕ

abbrev pub failed_login_lock_tiers : List LockTier
failed_login_lock_tiers =
    record { at_least = 5; lock_for = 15 * minute }
    ∷ record { at_least = 10; lock_for = 60 * minute }
    ∷ record { at_least = 15; lock_for = 1_440 * minute }
    ∷ []

abbrev pub max_counted_failed_logins : ℕ
max_counted_failed_logins = 15

-- The loop of `failedLoginLockDuration`.
abbrev pub lock_duration_from : List LockTier → (lock_for attempts : ℕ) → ℕ
lock_duration_from [] lock_for attempts = lock_for
lock_duration_from (tier ∷ tiers) lock_for attempts =
    lock_duration_from tiers (if leb tier.at_least attempts then tier.lock_for else lock_for)
      attempts

unfoldable pub failed_login_lock_duration : (attempts : ℕ) → ℕ
failed_login_lock_duration attempts = lock_duration_from failed_login_lock_tiers 0 attempts

-- The count and the event of `RecordFailedLoginAttempt`.
unfoldable pub count_failed_login : (now : ℕ) → (ip_address : String) → Account → Account
unfolding add_event
count_failed_login now ip_address a =
    let attempts =
      if ltb a.failed_login_attempts max_counted_failed_logins
      then suc a.failed_login_attempts
      else a.failed_login_attempts in
    add_event (login_failed a.id ip_address "invalid credentials" (int8 attempts))
      (record a { failed_login_attempts = attempts; updated_at = now })

unfoldable pub record_failed_login_attempt : (now : ℕ) → (ip_address : String) → Account → Account
unfolding count_failed_login failed_login_lock_duration lock
record_failed_login_attempt now ip_address a =
    let b = count_failed_login now ip_address a in
    let lock_for = failed_login_lock_duration b.failed_login_attempts in
    if ltb 0 lock_for then lock now lock_for "too many failed login attempts" b else b

unfoldable pub record_successful_login : (now : ℕ) → (ip_address : String) → Account → Account
unfolding add_event
record_successful_login now ip_address a =
    add_event (login_succeeded a.id ip_address)
      (record a { failed_login_attempts = 0; locked_until = none; updated_at = now })

abbrev pub lock_ended : (now : ℕ) → Option ℕ → Bool
lock_ended now none = true
lock_ended now (some until) = ltb until now

-- `IsLocked`, which also clears a lock that has ended.
unfoldable pub is_locked : (now : ℕ) → Account → Account × Bool
is_locked now a =
    if lock_ended now a.locked_until then (record a { locked_until = none }, false) else (a, true)

unfoldable pub unlock : (now : ℕ) → Account → Account
unfolding add_event is_locked
unlock now a =
    let (b, locked) = is_locked now a in
    if locked
    then add_event (account_unlocked b.id)
        (record b { failed_login_attempts = 0; locked_until = none; updated_at = now })
    else b

unfoldable pub change_password :
    (now : ℕ) → (new_password : String) → Account → Result Error Account
unfolding add_event
change_password now new_password a = do
  guard (is_active a.status) account_not_verified
  ok (add_event (password_changed a.id) (record a { password = new_password; updated_at = now }))

abbrev status_login : AccountStatus → Result Error (Unit {0})
status_login active = ok tt
status_login pending = err account_not_verified
status_login suspended = err account_suspended
status_login deleted = err account_deleted
status_login (unknown s) = err account_not_verified

abbrev time_of : Option ℕ → ℕ
time_of none = 0
time_of (some t) = t

-- `CanLogin`; the account is only read once more after it, so the lock that it may clear is left out.
unfoldable pub can_login : (now : ℕ) → Account → Result Error (Unit {0})
unfolding is_locked
can_login now a = do
  guard (not (is_locked now a).1) (account_locked (time_of a.locked_until))
  status_login a.status
