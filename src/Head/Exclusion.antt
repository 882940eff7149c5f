-- ===== src/Head/Exclusion.antt =====
-- `claimWins` on one listing.
use text.Mathlib.TextEquality.{eq_iff}
use satchel.Base.{◌≡◌, true, List, [], ◌∷◌, arith}
use satchel.Head.{Version, Entry, claim_wins}

-- Two claims of one epoch that win in one listing have the same token.
pub claim_wins_unique :
    (es : List Entry) (a b : Version)
    → a.epoch ≡ b.epoch
    → claim_wins es a ≡ true
    → claim_wins es b ≡ true
    → a.token ≡ b.token
unfolding claim_wins
claim_wins_unique [] a b q h k = absurd cc
claim_wins_unique (e ∷ es) a b q h k = ground (
  arith,
  eq_iff e.version.token a.token,
  eq_iff e.version.token b.token,
  claim_wins_unique es a b q,
)
