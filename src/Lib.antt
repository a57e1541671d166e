-- ===== src/Lib.antt =====
-- Verification of the core of rekreativko-api, a Go back end for recreational sports: people form
-- groups, sessions of an activity take place, people attend them, and teams are formed by hand, by a
-- captain draft or by a vote.
--
-- The program's parts. The activity service (activity/) owns groups, members, sessions, attendees,
-- drafts and votes. identity/ owns accounts, account-profile/ profiles, notifications/ messages,
-- location/ places; gateway/ routes requests, and outbox-publisher/ passes on the events that the
-- services store. The rules are in the domain packages: an application service loads the aggregates
-- under a lock on the session, calls one domain method, stores what changed and the events, and
-- returns the method's error otherwise. The modules here model activity/internal/domain, the attendee service of
-- activity/internal/application, and the accounts of identity/internal.
--
-- How the code is modelled. A struct is a record, a string or int enumeration a data type, a method
-- that changes its receiver a function from the old record to the new one, and an error a value of
-- Activity.Errors.Error, returned before anything is written, but for a failed use of a link. `now` is what time.Now().UTC() returns,
-- in nanoseconds; `id` and `ids` are what uuid.New() returns; uuid.Nil is 0. Events keep what they
-- say, without their own ids and time stamps.
--
--   Identity           identity/internal: Account is domain/account.go, Login the login of
--                      application/service.go on the row of one account; Lockout proves.
--   Base               lists, tests, results and integers that the other modules share.
--   Activity/Errors    activity/internal/domain/errors.go.
--   Activity/Catalog   shared/activitycatalog.
--   Activity/Member    member.go: roles and the life of a membership.
--   Activity/Team      team.go: the team setup and the making of teams. Config proves what a setup
--                      that is accepted is like, Formed what the teams made of it are like.
--   Activity/Session   session.go: State has the record and its guards, Creation NewSession, Operations
--                      the life cycle, Formation the making and unmaking of teams; Lifecycle, Authority,
--                      Attendance and Teams prove.
--   Activity/Attendee  attendee.go: the record of one person at one session. Rsvp has the answers and
--                      approvals, Placement the team; Roster has the steps in which the attendees of a
--                      session change, as activity/internal/application/attendee_service.go makes them
--                      under the session's lock; Standing and Capacity prove.
--   Activity/Draft     team_draft.go: State, Operations and Endings follow the code; Turns, Counts,
--                      Settling, Picking, Soundness, Leaving, World, Outcome and Progress prove.
--   Activity/Voting    team_voting.go: State, Key, Operations and Endings follow the code; Division,
--                      Canonical, Proposing, Winner, Ballots, Rounds, Keeping, Departing and
--                      Lifecycle prove.
--   Activity/Formation session.go: the teams of a draft and of a vote.
--   Activity/InviteLink invite_link.go: a link that lets one person join a group; Use proves.
--   Activity/Recurrence recurrence.go: Calendar is what it uses of Go's time package, Rule follows the
--                      code; Next and Always prove.
--   Activity/Services  activity/internal/application, on the rows of one session: Store has the rows with
--                      the queries and writes on them (internal/infrastructure/persistence),
--                      TeamFormation team_formation.go, AttendeeService the commands of
--                      attendee_service.go, and Commands runs of them. Board is the specification: who
--                      stands where in a session, without ids, teams and events. Rows, Keys, Refinement,
--                      Effects, Simulation and Implements relate the two; Line, Waitlist, Fairness,
--                      Promotion and Leaving prove more about both.
-- Samples and the Examples modules run the code on concrete inputs.
--
-- How the parts interact. A draft is started for a session and reads its guards
-- (Session.require_teams_changeable, can_manage_session). World puts a draft beside the list of the
-- people going, as the application service does: each call is made with that list, and a departure
-- is told to the draft. A vote works the same way, with that list as the voters. Formation makes the
-- teams of a completed draft or a closed vote those of the session.
--
-- The attendee service puts attendees, sessions, drafts and votes together: a command reads the rows
-- under the session's lock, applies an operation of Attendee, writes the row back, promotes the first
-- in the waitlist if a spot was given up, and then resets the session's teams. A command that fails is
-- rolled back. The database does not fail in the model, and a transaction reads the clock once.
--
-- Bounds and fuel. No definition takes fuel: every loop of the code runs over a list or up to a
-- count, such as the 100 months that a monthly rule is searched for. The products of PlayersNeeded wrap at 64 bits and are modelled so; the other counters are far
-- from the bounds of int. Coordinates are degrees scaled by ten million; NaN is left out.
--
-- Not modelled: SQL, HTTP, WebSocket, mail, the broker, logging and configuration, which are input
-- and output; the Reconstruct functions, which are the records themselves; accessors.
pub mod Base
pub mod Activity
pub mod Identity
