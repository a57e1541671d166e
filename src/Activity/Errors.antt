-- ===== src/Activity/Errors.antt =====
-- The errors of activity/internal/domain/errors.go that the modelled operations return.
-- `index_out_of_range` and `nil_dereference` are Go panics, which abort the operation with nothing stored.
use rekreativko_api.Base.{ℕ, Bool, List}

-- team_voting.go: why a proposed division is invalid.
pub data DivisionProblem : Type 0 where
  wrong_team_count player_not_going duplicate_player missing_players : DivisionProblem
  team_below_minimum : DivisionProblem

-- `invalid_member_role` is the error that `parseMemberRole` formats, `duplicate_row` that of an insert
-- which a key of the table refuses. `no_random_token` is the failure of the system's random source. `invalid_division`, `tie_requires_winner` and `duplicate_proposal` carry what the error types
-- `InvalidDivisionError`, `TieError` and `DuplicateProposalError` of team_voting.go do.
pub data Error : Type 0 where
  unauthorized index_out_of_range nil_dereference : Error
  member_already_admin member_not_admin creator_cannot_leave not_confirmed : Error
  not_pending_status cannot_remove_creator cannot_demote_creator : Error
  member_already_priority member_not_priority : Error
  session_not_scheduled session_not_started session_canceled session_completed : Error
  session_not_expired_yet session_already_started invalid_session_capacity : Error
  invalid_session_visibility session_not_open invalid_schedule_time : Error
  session_start_time_in_past session_location_city_required : Error
  session_location_country_required session_location_latitude_invalid : Error
  session_location_longitude_invalid : Error
  attendee_not_going invalid_attendee_transition invalid_attendee_status : Error
  attendee_not_awaiting_approval : Error
  teams_not_supported invalid_team_count invalid_min_players_per_team : Error
  invalid_team_colors session_has_no_teams team_not_found not_enough_players : Error
  invalid_pick_order invalid_draft_captains draft_captain_not_confirmed : Error
  draft_not_active draft_paused draft_not_paused not_draft_captain not_your_turn : Error
  player_not_available not_proposal_author teams_drafted : Error
  voting_not_open proposal_not_found keep_current_not_available invalid_winner : Error
  invite_link_already_used invite_link_revoked invite_link_expired : Error
  invite_link_has_not_expired_yet no_random_token : Error
  attendee_not_found attendee_not_group_member attendee_already_attending : Error
  session_not_found session_full account_deleted : Error
  invalid_recurrence_rule recurrence_rule_missing_interval : Error
  recurrence_rule_missing_time_of_day recurrence_rule_invalid_day_of_week : Error
  recurrence_rule_missing_day_of_month recurrence_rule_invalid_day_of_month : Error
  recurrence_end_date_in_past invalid_time_of_day_hour invalid_time_of_day_minute : Error
  draft_already_active voting_open invalid_member_role duplicate_row : Error
  invalid_division : DivisionProblem → (user_ids : List ℕ) → Error
  tie_requires_winner : (proposal_ids : List ℕ) → (keep_current_tied : Bool) → Error
  duplicate_proposal : (proposal_id : ℕ) → Error
