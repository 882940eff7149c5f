-- ===== src/Lease/Durable/Tests.antt =====
-- Publications of the sample lease: an archived manifest, and segments.
use satchel.Base.{ℕ, ◌+◌, ◌≡◌, refl, true, false, [], ◌∷◌, none, some}
use satchel.Remote.{checkpoint}
use satchel.History.Sample.{first_manifest}
use satchel.ObjectStore.{find_object, drop_keys}
use satchel.Head.Conditional.{delivered, lost_request}
use satchel.Lease.{Prepared}
use satchel.Lease.Archive.{UploadNet}
use satchel.Lease.Placement.{no_segment, in_upload, publish_prepared}
use satchel.Lease.Publish.{publish, decimal, segment_key}
use satchel.Lease.Archive.{upload_failed}
use satchel.Lease.Tests.{own, json, head_of, lease_at, quiet}
use satchel.Lease.Durable.{IsPublished, publish_prepared-IsPublished}

abbrev uploads : ℕ → UploadNet
uploads i = record { write = delivered; read_fails = false }

abbrev unreachable : ℕ → UploadNet
unreachable i = record { write = lost_request; read_fails = false }

abbrev next : Prepared
next = record {
  manifest = record first_manifest { generation = own.generation + 1; kind = checkpoint };
  body = 5 ∷ 6 ∷ [];
  key = "volumes/v/manifests/5.json";
}

publish_prepared_lost :
    (publish_prepared json quiet unreachable 40 20 own next [] none true
      (head_of own)
      (lease_at 4)).error
    ≡ some (in_upload upload_failed)
unfolding publish_prepared find_object drop_keys
publish_prepared_lost = refl

publish_prepared_stored :
    (publish_prepared json quiet uploads 40 20 own next [] none true
      (head_of own)
      (lease_at 4)).error
    ≡ none
unfolding publish_prepared find_object drop_keys
publish_prepared_stored = refl

publish_prepared-IsPublished_example :
    IsPublished next
      (publish_prepared json quiet uploads 40 20 own next [] none true
        (head_of own)
        (lease_at 4)).memory
      (publish_prepared json quiet uploads 40 20 own next [] none true
        (head_of own)
        (lease_at 4)).lease.state
publish_prepared-IsPublished_example =
    publish_prepared-IsPublished json quiet uploads 40 20 own next [] (head_of own) none true
      (lease_at 4) refl refl refl publish_prepared_stored

publish_nothing :
    (publish json quiet uploads 40 20 [] (head_of own) (lease_at 4)).error ≡ some no_segment
unfolding publish
publish_nothing = refl

decimal_of_large : decimal 18446744073709551615 ≡ "18446744073709551615"
unfolding decimal
decimal_of_large = refl

segment_key_named : segment_key "v" 2 13 "ab" ≡ "volumes/v/segments/e2-g13-ab.seg.gz"
unfolding segment_key decimal
segment_key_named = refl
