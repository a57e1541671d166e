-- ===== src/Activity/Voting/Ballots.antt =====
-- How the operations of a round change its votes and its options.
use rekreativko_api.Base.{
  ℕ, ◌≤◌, ◌<◌, Bool, true, false, ◌==◌, if◌then◌else◌, is_some, List, [], ◌∷◌, ◌++◌, map, contains,
  ◌≡◌, ◌≢◌, ◌⊎◌, refl, arith,
}
use rekreativko_api.Activity.Voting.State.{
  TeamProposal, Ballot, vote_count, set_vote, delete_vote, drop_choice, find_proposal,
  delete_proposal, remove_player, proposal_options, keep_current_teams,
}

pub vote_count-set_vote :
    (c v choice : ℕ) (bs : List Ballot)
    → 0 < vote_count c (set_vote v choice bs)
    → (c ≡ choice) ⊎ (0 < vote_count c bs)
unfolding vote_count set_vote
vote_count-set_vote c v choice [] h = ground arith
vote_count-set_vote c v choice (b ∷ bs) h = ground (arith, vote_count-set_vote c v choice bs)

pub vote_count-delete_vote :
    (c v : ℕ) (bs : List Ballot) → vote_count c (delete_vote v bs) ≤ vote_count c bs
unfolding vote_count delete_vote
vote_count-delete_vote c v [] = omega arith
vote_count-delete_vote c v (b ∷ bs) = ground (arith, vote_count-delete_vote c v bs)

pub vote_count-drop_choice :
    (c d : ℕ) (bs : List Ballot)
    → vote_count c (drop_choice d bs) ≡ (if c == d then 0 else vote_count c bs)
unfolding vote_count drop_choice
vote_count-drop_choice c d [] = ground arith
vote_count-drop_choice c d (b ∷ bs) = ground (arith, vote_count-drop_choice c d bs)

pub find_proposal-option :
    (id : ℕ) (ps : List TeamProposal) (keep : Bool)
    → is_some (find_proposal id ps) ≡ true
    → contains (proposal_options ps keep) id ≡ true
unfolding find_proposal proposal_options
find_proposal-option id [] keep h = cc
find_proposal-option id (p ∷ ps) keep h = ground (arith, find_proposal-option id ps keep)

pub option-find_proposal :
    (id : ℕ) (ps : List TeamProposal) (keep : Bool)
    → contains (proposal_options ps keep) id ≡ true
    → id ≢ keep_current_teams
    → is_some (find_proposal id ps) ≡ true
unfolding find_proposal proposal_options
option-find_proposal id [] true h n = ground arith
option-find_proposal id [] false h n = ground arith
option-find_proposal id (p ∷ ps) keep h n = ground (arith, option-find_proposal id ps keep)

pub keep-option :
    (ps : List TeamProposal) → contains (proposal_options ps true) keep_current_teams ≡ true
unfolding proposal_options
keep-option [] = refl
keep-option (p ∷ ps) = ground (arith, keep-option ps)

pub options-append :
    (c : ℕ) (ps qs : List TeamProposal) (keep : Bool)
    → contains (proposal_options ps keep) c ≡ true
    → contains (proposal_options (ps ++ qs) keep) c ≡ true
unfolding proposal_options
options-append c [] qs false h = ground arith
options-append c [] qs true h = ground (arith, keep-option qs)
options-append c (p ∷ ps) qs keep h = ground (arith, options-append c ps qs keep)

pub options-delete :
    (c id : ℕ) (ps : List TeamProposal) (keep : Bool)
    → contains (proposal_options ps keep) c ≡ true
    → c ≢ id
    → contains (proposal_options (delete_proposal id ps) keep) c ≡ true
unfolding proposal_options delete_proposal
options-delete c id [] keep h n = h
options-delete c id (p ∷ ps) keep h n = ground (arith, options-delete c id ps keep)

pub options-remove_player :
    (u : ℕ) (ps : List TeamProposal) (keep : Bool)
    → proposal_options (map (remove_player u) ps) keep ≡ proposal_options ps keep
unfolding proposal_options remove_player
options-remove_player u [] true = refl
options-remove_player u [] false = refl
options-remove_player u (p ∷ ps) keep = ground (arith, options-remove_player u ps keep)
