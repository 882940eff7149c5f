-- ===== src/Lease/Tests.antt =====
-- A lease of the sample volume: lost replies, a takeover, and the theorems at them.
use satchel.Base.{
  ℕ, ◌≡◌, refl, ap, sym, arith, true, false, List, [], ◌∷◌, Option, none, some, Result, ok, err,
}
use satchel.Volume.{LeaseRecord, State, Codec, validate_state}
use satchel.History.Sample.{state, codec}
use satchel.ObjectStore.{Memory, find_object, drop_keys}
use satchel.Head.Conditional.{delivered, lost_reply, conditional_commit, conditional_read}
use satchel.Lease.{Lease, apply_bundle}
use satchel.Lease.Commit.{
  Net, LeaseError, lease_lost, request_failed, commit_state, extended, update, renew,
}
use satchel.Lease.Writes.{HeadIs, object}
use satchel.Lease.Agreement.{Agrees, KeepsName, update-Agrees}
use satchel.Lease.Acquire.{Request, acquire, new_lease, leased}
use satchel.Lease.Takeover.{Owns, acquire-Fenced}
use satchel.Lease.Fencing.{Call, updates, Fenced, IsDecoding, KeepsEpoch, updates-refused}

abbrev pub own_record : LeaseRecord
own_record = record { holder = "a"; token = "t"; epoch = 1; expires_at = 50; mounted_at = 1 }

abbrev pub own : State
own = record state { lease = some own_record }

abbrev taken : State
taken = record own { epoch = 2 }

-- A body is the epoch and the time of expiry.
abbrev expiry : Option LeaseRecord → ℕ
expiry none = 0
expiry (some r) = r.expires_at

abbrev pub json : Codec
json = record codec {
  state_of = λ body. elim body [ [] ↦ none | e ∷ rest ↦ some (record own { epoch = e }) ];
  state_body = λ s. s.epoch ∷ expiry s.lease ∷ [];
}

abbrev pub head_of : State → Memory
head_of s = record {
  objects = ("volumes/v/state.json", record { content = json.state_body s; etag = 4 }) ∷ [];
  seq = 4;
  unconditional = false;
}

abbrev pub lease_at : ℕ → Lease
lease_at etag = record {
  state = own;
  etag = etag;
  lost = false;
  plan = [];
  plan_known = true;
  pending = none;
  adopted_manifest = none;
  bundle_in_flight = "";
  ready_bundle = none;
}

abbrev pub quiet : Net
quiet = record { resolve_fails = false; write = delivered; read_fails = false }

-- The reply to the write is lost, and the read after it fails.
abbrev silent : Net
silent = record { resolve_fails = false; write = lost_reply; read_fails = true }

abbrev to_expiry : ℕ → State → Result LeaseError State
to_expiry t s = ok (record s { lease = extended t s.lease })

renew-silent : (renew json silent 40 20 (head_of own) (lease_at 4)).error ≡ some request_failed
unfolding renew update commit_state find_object drop_keys apply_bundle
renew-silent = refl

renew-taken : (renew json quiet 40 20 (head_of taken) (lease_at 3)).error ≡ some lease_lost
unfolding renew update commit_state find_object drop_keys apply_bundle
renew-taken = refl

abbrev got : Result LeaseError State → State
got (ok s) = s
got (err e) = own

keeps_name : KeepsName (to_expiry 60)
unfolding KeepsName
keeps_name s s' e = ap (λ r. (got r).name) (sym e)

keeps_epoch : KeepsEpoch (to_expiry 60)
unfolding KeepsEpoch
keeps_epoch s s' e = ap (λ r. (got r).epoch) (sym e)

decoding : IsDecoding json
unfolding IsDecoding
decoding s = refl

fenced : Fenced json (head_of taken) (lease_at 3)
unfolding find_object
fenced = record {
  own = tt;
  owner = taken;
  epoch = λ e. omega (arith, e);
  current = 4;
  head = refl;
  etag = refl;
  nonzero = refl;
  conditional = refl;
}

abbrev calls : List Call
calls = record { net = silent; mutate = to_expiry 60 } ∷ []

succeeds : (update json quiet (to_expiry 60) (head_of own) (lease_at 4)).error ≡ none
unfolding update commit_state find_object drop_keys apply_bundle
succeeds = refl

update-Agrees_example :
    Agrees json
      (update json quiet (to_expiry 60) (head_of own) (lease_at 4)).memory
      (update json quiet (to_expiry 60) (head_of own) (lease_at 4)).lease
update-Agrees_example =
    update-Agrees json quiet (to_expiry 60) (head_of own) (lease_at 4) keeps_name succeeds

updates-refused_example :
    ((updates json calls (head_of taken) (lease_at 3)).0 ≡ head_of taken)
    × ((e : LeaseError) × ((update json quiet
            (to_expiry 60)
            (updates json calls (head_of taken) (lease_at 3)).0
            (updates json calls (head_of taken) (lease_at 3)).1).error
          ≡ some e))
updates-refused_example =
    updates-refused json calls quiet (to_expiry 60) (head_of taken) (lease_at 3) decoding fenced
      (keeps_epoch, tt) keeps_epoch

abbrev create_request : Request
create_request = record {
  holder = "b";
  size = 0;
  filesystem = "";
  id = "id";
  token = "u";
  now = 70;
  ttl = 20;
}

abbrev small_state : State
small_state = record own { inline_manifests = []; manifest_bundle = none }

abbrev plain : Codec
plain = record json {
  state_of = λ body. elim body [ [] ↦ none | e ∷ rest ↦ some (record small_state { epoch = e }) ];
}

-- The reply to the write is lost, and the read after it finds the body.
abbrev unlucky : Net
unlucky = record { resolve_fails = false; write = lost_reply; read_fails = false }

owning : Owns plain (head_of own) (lease_at 4)
unfolding Agrees find_object
owning = record {
  agrees = refl;
  settled = refl;
  nonzero = refl;
  given = omega arith;
  conditional = refl;
  small = omega arith;
}

plain-IsDecoding : IsDecoding plain
unfolding IsDecoding
plain-IsDecoding s = refl

acquired :
    (acquire plain unlucky create_request "v" (head_of own)).1
    ≡ ok (new_lease (leased create_request small_state) 5)
unfolding acquire conditional_commit conditional_read find_object drop_keys validate_state
acquired = refl

acquire-Fenced_example :
    Fenced plain (acquire plain unlucky create_request "v" (head_of own)).0 (lease_at 4)
    × HeadIs "v"
        (acquire plain unlucky create_request "v" (head_of own)).0
        (object (plain.state_body (leased create_request small_state)) 5)
unfolding new_lease
acquire-Fenced_example =
    acquire-Fenced plain unlucky create_request (head_of own) (lease_at 4)
      (new_lease (leased create_request small_state) 5) plain-IsDecoding owning acquired
