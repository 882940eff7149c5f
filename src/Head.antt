-- ===== src/Head.antt =====
-- internal/replica/head.go: the append-only head of a volume. The decisions of `appendHead` on a
-- listing of head entries. Times are milliseconds; the keys and the store are not modelled here.
pub mod Exclusion
pub mod Prune
pub mod Conditional
mod Tests
use Prim.Native.String.{String}
use text.Mathlib.Text.{◌==◌ as str_eq}
use satchel.Base.{
  ℕ, ◌+◌, ◌-◌, ◌*◌, ◌%◌, ◌^◌, max, Bool, true, false, not, ◌&&◌, ◌||◌, List, [], ◌∷◌, ltb, leb,
  ◌==◌, if◌then◌else◌, Option, none, some, u64,
}

-- `headVersion`
pub record Version : Type 0 where
  pub epoch : ℕ
  pub token : String
  pub seq : ℕ
  pub claim : ℕ

-- `headEntry`
pub record Entry : Type 0 where
  pub key : String
  pub version : Version

-- `headVersion.sameOwner`
abbrev pub same_owner : Version → Version → Bool
same_owner v other = (v.epoch == other.epoch) && str_eq v.token other.token

-- `committedHead`
unfoldable pub committed_head : List Entry → Option Entry
committed_head [] = none
committed_head (e ∷ es) = if ltb 0 e.version.seq then some e else committed_head es

-- `claimWins`
unfoldable pub claim_wins : List Entry → Version → Bool
claim_wins [] claim = false
claim_wins (e ∷ es) claim =
    let version = e.version in
    if ltb claim.epoch version.epoch || ((version.epoch == claim.epoch) && ltb 0 version.seq)
    then false
    else if version.epoch == claim.epoch
    then str_eq version.token claim.token
    else claim_wins es claim

-- `baseUnchanged`; the zero version has an empty token.
abbrev base_from : List Entry → Version → Bool
base_from [] base = false
base_from (e ∷ es) base =
    if same_owner e.version base then e.version.seq == base.seq else base_from es base

unfoldable pub base_unchanged : List Entry → Version → Bool
base_unchanged es base = if str_eq base.token "" then true else base_from es base

-- `ownerStillCurrent`
unfoldable pub owner_still_current : List Entry → Version → Bool
owner_still_current [] version = true
owner_still_current (e ∷ es) version =
    let other = e.version in
    if ltb version.epoch other.epoch
      || ((other.epoch == version.epoch)
          && not (str_eq other.token version.token)
          && ltb 0 other.seq)
    then false
    else if same_owner other version && ltb version.seq other.seq
    then false
    else owner_still_current es version

-- `claimPresent`
unfoldable pub claim_present : List Entry → Version → Bool
claim_present [] owner = false
claim_present (e ∷ es) owner =
    if same_owner e.version owner && (e.version.seq == 0) then true else claim_present es owner

-- The decision of `confirm`.
unfoldable pub confirmed : List Entry → Version → Bool
unfolding owner_still_current claim_present
confirmed es version = owner_still_current es version && claim_present es version

-- `deadClaim`: a claim with no published version whose time has passed.
abbrev has_published : List Entry → Version → Bool
has_published [] v = false
has_published (e ∷ es) v =
    if same_owner e.version v && ltb 0 e.version.seq then true else has_published es v

unfoldable pub dead_claim : ℕ → ℕ → ℕ → List Entry → Entry → Bool
dead_claim now ttl settle entries entry =
    if not (entry.version.seq == 0)
    then false
    else if has_published entries entry.version
    then false
    else ltb (max ttl (2 * settle)) (now - entry.version.claim)

-- `liveEntries`: the entries that stay, when no deletion fails. The source filters in place, and
-- `deadClaim` looks at the slice as it is then: it still holds every published version.
live_from : (Entry → Bool) → List Entry → List Entry
live_from dead [] = []
live_from dead (e ∷ es) = let rest = live_from dead es in if dead e then rest else e ∷ rest

unfoldable pub live_entries : ℕ → ℕ → ℕ → List Entry → List Entry
unfolding live_from dead_claim
live_entries now ttl settle entries = live_from (dead_claim now ttl settle entries) entries

abbrev pub retained_head_versions : ℕ
retained_head_versions = 2

-- The condition of `pruneBehind`.
unfoldable pub superseded : Version → Version → Bool
superseded current version =
    ltb version.epoch current.epoch
    || ((version.epoch == current.epoch) && not (str_eq version.token current.token))
    || (same_owner version current
        && ltb 0 version.seq
        && leb (u64 (version.seq + retained_head_versions)) current.seq)

-- What `pruneBehind` leaves of the entries.
unfoldable pub prune_behind : List Entry → Version → List Entry
unfolding superseded
prune_behind [] current = []
prune_behind (e ∷ es) current =
    let rest = prune_behind es current in if superseded current e.version then rest else e ∷ rest

-- `appendHead.commit`: which way a commit goes. The base is `none` for an empty cursor.
pub data Route : Type 0 where
  claiming advancing refused : Route

unfoldable pub commit_route : Option Version → ℕ → Route
commit_route none next_epoch = if ltb 0 next_epoch then claiming else refused
commit_route (some base) next_epoch =
    if ltb base.epoch next_epoch
    then claiming
    else if next_epoch == base.epoch
    then advancing
    else refused
