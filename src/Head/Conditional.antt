-- ===== src/Head/Conditional.antt =====
-- `conditionalHead` of internal/replica/head.go, on the memory store, with the errors of a network. An
-- etag of 0 is the empty cursor.
use Prim.Native.String.{String, ◌++◌ as ◌<>◌}
use satchel.Base.{ℕ, Bool, List, ◌==◌, if◌then◌else◌, Option, none, Result, ok, err}
use satchel.ObjectStore.{
  Memory, Object, StoreError, not_found, precondition_failed, find_object, put_if_absent,
  put_if_match, delete, list_keys,
}
use satchel.Volume.{volume_prefix, state_key, is_nil}

-- What the network does to a write: nothing, it loses the reply, or it loses the request.
pub data Fault : Type 0 where
  delivered lost_reply lost_request : Fault

pub data Reply : Type 0 where
  committed : ℕ → Reply
  precondition failed : Reply

-- `HeadPrefix`
abbrev pub head_prefix : String → String
head_prefix name = volume_prefix name <> "heads/"

abbrev pub reply_of : Result StoreError ℕ → Reply
reply_of (ok etag) = committed etag
reply_of (err not_found) = failed
reply_of (err precondition_failed) = precondition

abbrev pub through : Fault → Memory → Memory × Result StoreError ℕ → Memory × Reply
through delivered m r = (r.0, reply_of r.1)
through lost_reply m r = (r.0, failed)
through lost_request m r = (m, failed)

-- `conditionalHead.commit`
unfoldable pub conditional_commit : Fault → Memory → String → List ℕ → ℕ → Memory × Reply
unfolding put_if_absent put_if_match list_keys
conditional_commit fault m name body prev =
    if prev == 0
    then (if is_nil (list_keys m (head_prefix name))
        then through fault m (put_if_absent m (state_key name) body)
        else (m, failed))
    else through fault m (put_if_match m (state_key name) body prev)

-- `conditionalHead.read`; none is any error.
unfoldable pub conditional_read : Bool → Memory → String → Option Object
conditional_read fails m name = if fails then none else find_object (state_key name) m.objects

-- `conditionalHead.remove`
unfoldable pub conditional_remove : Memory → String → Memory
conditional_remove m name = delete m (state_key name)
