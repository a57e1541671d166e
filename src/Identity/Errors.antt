-- ===== src/Identity/Errors.antt =====
-- The errors of identity/internal/domain/errors.go that the modelled operations return.
use rekreativko_api.Base.{ℕ}

-- `account_locked` carries what `AccountLockedError` does.
pub data Error : Type 0 where
  invalid_credentials account_not_verified account_suspended account_deleted : Error
  account_not_deleted account_already_erased : Error
  account_locked : (locked_until : ℕ) → Error
