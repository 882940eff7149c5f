-- ===== src/Head/Tests.antt =====
-- Runs of the head's decisions, and the theorems at concrete listings.
use satchel.Base.{ℕ, ◌≡◌, refl, true, List, [], ◌∷◌, arith, none, some}
use satchel.Head.{
  Version, Entry, committed_head, claim_wins, confirmed, live_entries, prune_behind, claim_present,
  commit_route, claiming,
}
use satchel.Head.Exclusion.{claim_wins_unique}
use satchel.Head.Prune.{
  committed_head-live_entries, committed_head-prune_behind, claim_present-prune_behind,
}

abbrev version : ℕ → ℕ → Version
version epoch seq = record { epoch = epoch; token = "node-a"; seq = seq; claim = 100 }

abbrev entry : ℕ → ℕ → Entry
entry epoch seq = record { key = "heads/x"; version = version epoch seq }

-- Newest first, as the store lists them.
abbrev listing : List Entry
listing = entry 3 5 ∷ entry 3 4 ∷ entry 3 3 ∷ entry 3 0 ∷ entry 2 9 ∷ []

head_of_listing : committed_head listing ≡ some (entry 3 5)
unfolding committed_head
head_of_listing = refl

pruned_listing : prune_behind listing (version 3 5) ≡ entry 3 5 ∷ entry 3 4 ∷ entry 3 0 ∷ []
unfolding prune_behind
pruned_listing = refl

first_commit : commit_route none 1 ≡ claiming
unfolding commit_route
first_commit = refl

listing_confirms : confirmed listing (version 3 5) ≡ true
unfolding confirmed
listing_confirms = refl

fresh_claim_wins : claim_wins (entry 4 0 ∷ listing) (version 4 0) ≡ true
unfolding claim_wins
fresh_claim_wins = refl

claim_wins_unique_example : (version 4 0).token ≡ (version 4 0).token
claim_wins_unique_example =
    claim_wins_unique (entry 4 0 ∷ listing) (version 4 0) (version 4 0) refl fresh_claim_wins
      fresh_claim_wins

committed_head-live_entries_example :
    committed_head (live_entries 900 60 5 listing) ≡ committed_head listing
committed_head-live_entries_example = committed_head-live_entries 900 60 5 listing

committed_head-prune_behind_example :
    committed_head (prune_behind listing (version 3 5)) ≡ some (entry 3 5)
committed_head-prune_behind_example =
    committed_head-prune_behind listing (entry 3 5) head_of_listing (omega arith)

claim_present-listing :
    claim_present (prune_behind listing (version 3 5)) (version 3 5)
    ≡ claim_present listing (version 3 5)
claim_present-listing = claim_present-prune_behind listing (version 3 5)
