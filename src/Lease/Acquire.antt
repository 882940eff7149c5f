-- ===== src/Lease/Acquire.antt =====
-- `Inspect`, `Acquire` and `Break` of internal/replica/remote.go. What `uuid.NewString` returns and the
-- time are in the request. The background archive that `Acquire` starts is not here.
use Prim.Native.Char.{code}
use Prim.Native.String.{String}
use text.Mathlib.Text.{◌==◌ as str_eq}
use satchel.Base.{
  ℕ, ◌+◌, ◌%◌, Bool, true, false, not, ◌&&◌, ◌||◌, [], ltb, leb, ◌==◌, if◌then◌else◌, u64_mod,
  Option, none, some, Result, ok, err, ◌>>=◌, ◌>>◌, guard, required,
}
use satchel.Extents.{default_block_size}
use satchel.Remote.{is_empty}
use satchel.Volume.{LeaseRecord, State, Codec, StateError, volume_format, state_key, validate_state}
use satchel.ObjectStore.{Memory, Object, find_object}
use satchel.Head.Conditional.{Reply, committed, precondition, failed, conditional_commit}
use satchel.Lease.{Lease}
use satchel.Lease.Commit.{Net, settled}

pub data AcquireError : Type 0 where
  invalid_name no_head unreadable undecodable bad_size being_deleted other_size other_filesystem
        lost uncertain :
      AcquireError
  invalid_state : StateError → AcquireError
  held_by : LeaseRecord → AcquireError

-- `validVolumeName`
abbrev is_alphanumeric : ℕ → Bool
is_alphanumeric c = (leb 48 c && leb c 57) || (leb 65 c && leb c 90) || (leb 97 c && leb c 122)

-- Also a dash, a dot or an underscore.
abbrev all_name : String → Bool
all_name String.[] = true
all_name (String.◌∷◌ c s) =
    (is_alphanumeric (code c) || (code c == 45) || (code c == 46) || (code c == 95)) && all_name s

unfoldable pub valid_name : String → Bool
valid_name String.[] = false
valid_name (String.◌∷◌ c s) = is_alphanumeric (code c) && all_name s

abbrev pub checked : Result StateError (Unit {0}) → Result AcquireError (Unit {0})
checked (ok u) = ok u
checked (err e) = err (invalid_state e)

-- The head's object, decoded and checked.
unfoldable pub decode_state : Codec → String → Object → Result AcquireError (State × ℕ)
decode_state c name object = do
  state ← required (c.state_of object.content) undecodable
  checked (validate_state c name state)
  ok (state, object.etag)

-- `Inspect`: the state and its etag.
unfoldable pub inspect : Codec → Bool → Memory → String → Result AcquireError (State × ℕ)
unfolding decode_state
inspect c fails m name =
    if fails
    then err unreadable
    else (required (find_object (state_key name) m.objects) no_head >>= decode_state c name)

-- The arguments of `Acquire`; a size of 0 is not given.
pub record Request : Type 0 where
  pub holder : String
  pub size : ℕ
  pub filesystem : String
  pub id : String
  pub token : String
  pub now : ℕ
  pub ttl : ℕ

unfoldable pub created_state : Request → String → Result AcquireError State
created_state q name =
    guard (not (q.size == 0) && (q.size % default_block_size == 0)) bad_size
    >> ok (record {
      format = volume_format;
      id = q.id;
      name = name;
      size = q.size;
      block_size = default_block_size;
      filesystem = if is_empty q.filesystem then "ext4" else q.filesystem;
      generation = 0;
      manifest = "";
      inline_manifests = [];
      manifest_bundle = none;
      checkpoint_generation = 0;
      epoch = 0;
      deleting = false;
      lease = none;
    })

abbrev pub check_free : ℕ → Option LeaseRecord → Result AcquireError (Unit {0})
check_free now none = ok tt
check_free now (some r) = guard (not (ltb now r.expires_at)) (held_by r)

-- The state that is taken over, and its etag.
unfoldable pub taken_state : Request → State × ℕ → Result AcquireError (State × ℕ)
taken_state q (state, etag) = do
  guard (not state.deleting) being_deleted
  check_free q.now state.lease
  guard ((q.size == 0) || (q.size == state.size)) other_size
  guard (is_empty q.filesystem || str_eq q.filesystem state.filesystem) other_filesystem
  ok (state, etag)

abbrev created : Request → String → Result AcquireError (State × ℕ)
created q name = created_state q name >>= λ state. ok (state, 0)

abbrev pub base_state :
    Request → String → Result AcquireError (State × ℕ) → Result AcquireError (State × ℕ)
base_state q name (ok found) = taken_state q found
base_state q name (err no_head) = created q name
base_state q name (err e) = err e

-- The state with the next epoch and the new lease.
unfoldable pub leased : Request → State → State
leased q state =
    let epoch = (state.epoch + 1) % u64_mod in
    record state {
      epoch = epoch;
      lease = some (record {
        holder = q.holder;
        token = q.token;
        epoch = epoch;
        expires_at = q.now + q.ttl;
        mounted_at = q.now;
      });
    }

unfoldable pub new_lease : State → ℕ → Lease
new_lease state etag = record {
  state = state;
  etag = etag;
  lost = false;
  plan = [];
  plan_known = state.generation == 0;
  pending = none;
  adopted_manifest = none;
  bundle_in_flight = "";
  ready_bundle = none;
}

abbrev pub granted : State → Memory × Reply → Memory × Result AcquireError Lease
granted state (m, committed etag) = (m, ok (new_lease state etag))
granted state (m, precondition) = (m, err lost)
granted state (m, failed) = (m, err uncertain)

unfoldable pub claim_head : Codec → Net → String → Memory → State → ℕ → Memory × Reply
claim_head c net name m state etag =
    settled net name (c.state_body state)
      (conditional_commit net.write m name (c.state_body state) etag)

abbrev pub acquire_from :
    Codec
    → Net
    → Request
    → String
    → Memory
    → Result AcquireError (State × ℕ)
    → Memory × Result AcquireError Lease
acquire_from c net q name m (err e) = (m, err e)
acquire_from c net q name m (ok (state, etag)) =
    granted (leased q state) (claim_head c net name m (leased q state) etag)

-- `Acquire`
unfoldable pub acquire :
    Codec → Net → Request → String → Memory → Memory × Result AcquireError Lease
unfolding inspect claim_head created_state taken_state leased new_lease valid_name
acquire c net q name m = acquire_from c net q name m (
    if valid_name name
    then base_state q name (inspect c net.resolve_fails m name)
    else err invalid_name)

abbrev pub token_matches : String → LeaseRecord → Bool
token_matches expected r = is_empty expected || str_eq r.token expected

abbrev broken : State → State
broken state = record state { lease = none; epoch = (state.epoch + 1) % u64_mod }

abbrev pub break_reply : Memory × Reply → Memory × Option AcquireError
break_reply (m, committed etag) = (m, none)
break_reply (m, precondition) = (m, some lost)
break_reply (m, failed) = (m, some uncertain)

abbrev pub break_from :
    Codec
    → Net
    → String
    → String
    → Memory
    → Result AcquireError (State × ℕ)
    → Memory × Option AcquireError
break_from c net name expected m (err e) = (m, some e)
break_from c net name expected m (ok (state, etag)) = elim state.lease [
  | none ↦ (m, none)
  | some r ↦
      if token_matches expected r
      then break_reply (conditional_commit net.write m name (c.state_body (broken state)) etag)
      else (m, some lost)
]

-- `Break`
unfoldable pub break_lease : Codec → Net → String → String → Memory → Memory × Option AcquireError
unfolding inspect conditional_commit
break_lease c net name expected m =
    break_from c net name expected m (inspect c net.resolve_fails m name)
