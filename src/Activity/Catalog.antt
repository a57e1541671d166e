-- ===== src/Activity/Catalog.antt =====
-- shared/activitycatalog: activity types and skill levels. `unknown` is a string that is not in
-- the catalog.
use rekreativko_api.Base.{String, Bool, true, false}

pub data ActivityType : Type 0 where
  running basketball football tennis volleyball gym cycling hiking other : ActivityType
  unknown : String → ActivityType

pub data ActivityLevel : Type 0 where
  beginner intermediate advanced : ActivityLevel
  unknown : String → ActivityLevel

-- `catalog[t].teamSport`: a missing row reads as false.
unfoldable pub is_team_sport : ActivityType → Bool
is_team_sport basketball = true
is_team_sport football = true
is_team_sport volleyball = true
is_team_sport _ = false
