-- ===== src/Lease/Archive.antt =====
-- The bundles of internal/replica/remote.go: `prepareManifestBundle`, the background archive that
-- `startManifestBundleArchive` starts and its goroutine ends, and the uploads of objects.
use Prim.Native.String.{String}
use text.Mathlib.Text.{◌==◌ as str_eq}
use satchel.Base.{
  ℕ, suc, ◌+◌, Bool, true, false, not, ◌&&◌, ◌||◌, List, [], ◌∷◌, ltb, if◌then◌else◌, length, map,
  Option, none, some, Result, ok, err, ◌>>=◌,
}
use satchel.Base.Bytes.{bytes_eq}
use satchel.Remote.{is_empty}
use satchel.Volume.{
  State, BundledManifest, Codec, ManifestError, volume_format, bundle_key, decode_manifest,
}
use satchel.ObjectStore.{Memory, Object, find_object, put_if_absent}
use satchel.Head.Conditional.{Fault, Reply, committed, precondition, failed, through}
use satchel.Garbage.{member}
use satchel.Lease.{PreparedBundle, Lease, is_held, bundle_applies}

abbrev decode_inline :
    Codec → State → List (String × List ℕ) → Result ManifestError (List (ℕ × BundledManifest))
decode_inline c snapshot [] = ok []
decode_inline c snapshot ((key, body) ∷ rest) = do
  manifest ← decode_manifest c snapshot key body 0
  others ← decode_inline c snapshot rest
  ok ((manifest.generation, record { key = key; body = body }) ∷ others)

abbrev pub by_generation :
    ℕ × BundledManifest → List (ℕ × BundledManifest) → List (ℕ × BundledManifest)
by_generation entry [] = entry ∷ []
by_generation entry (e ∷ es) =
    let later = by_generation entry es in if ltb entry.0 e.0 then entry ∷ e ∷ es else e ∷ later

abbrev pub sort_entries : List (ℕ × BundledManifest) → List (ℕ × BundledManifest)
sort_entries [] = []
sort_entries (e ∷ es) = by_generation e (sort_entries es)

abbrev last_generation : ℕ → List (ℕ × BundledManifest) → ℕ
last_generation previous [] = previous
last_generation previous (e ∷ es) = last_generation e.0 es

-- The bundle of sorted entries.
abbrev bundle_of : Codec → State → List (ℕ × BundledManifest) → Option PreparedBundle
bundle_of c snapshot [] = none
bundle_of c snapshot (e ∷ es) =
    let body = c.bundle_body (record {
      format = volume_format;
      volume_id = snapshot.id;
      first_generation = e.0;
      last_generation = last_generation e.0 es;
      parent = snapshot.manifest_bundle;
      manifests = map (λ entry. entry.1) (e ∷ es);
    }) in
    some (record {
      ref = record {
        key = bundle_key c snapshot.name body;
        first_generation = e.0;
        last_generation = last_generation e.0 es;
      };
      body = body;
      keys = map (λ entry. entry.1.key) (e ∷ es);
      uploaded = false;
    })

-- `prepareManifestBundle`
unfoldable pub prepare_bundle : Codec → State → Result ManifestError (Option PreparedBundle)
unfolding decode_manifest
prepare_bundle c snapshot = decode_inline c snapshot snapshot.inline_manifests >>= λ entries.
    ok (bundle_of c snapshot (sort_entries entries))

-- `inlineManifestBytesAfterBundle`, and `inlineManifestBytes` with no bundle.
abbrev pub inline_bytes : List String → List (String × List ℕ) → ℕ
inline_bytes keys [] = 0
inline_bytes keys ((key, body) ∷ rest) =
    if member key keys then inline_bytes keys rest else length body + inline_bytes keys rest

abbrev pub keys_of : Option PreparedBundle → List String
keys_of none = []
keys_of (some bundle) = bundle.keys

abbrev pub manifest_bundle_target : ℕ
manifest_bundle_target = 16384

-- `startManifestBundleArchive`: the bundle that its goroutine uploads.
abbrev pub started :
    Lease → Result ManifestError (Option PreparedBundle) → Lease × Option PreparedBundle
started l (err e) = (l, none)
started l (ok none) = (l, none)
started l (ok (some bundle)) = (record l { bundle_in_flight = bundle.ref.key }, some bundle)

abbrev pub is_some : Option PreparedBundle → Bool
is_some none = false
is_some (some bundle) = true

unfoldable pub start_archive : Codec → Lease → Lease × Option PreparedBundle
unfolding prepare_bundle
start_archive c l =
    if not (is_held l)
      || not (is_empty l.bundle_in_flight)
      || is_some l.ready_bundle
      || ltb (inline_bytes [] l.state.inline_manifests) manifest_bundle_target
    then (l, none)
    else started l (prepare_bundle c l.state)

-- The end of its goroutine; `uploaded` says if the upload had no error.
unfoldable pub end_archive : Codec → Bool → PreparedBundle → Lease → Lease
unfolding bundle_applies
end_archive c uploaded bundle l =
    let l' =
      if str_eq l.bundle_in_flight bundle.ref.key then record l { bundle_in_flight = "" } else l in
    if uploaded && bundle_applies c l'.state bundle
    then record l' { ready_bundle = some (record bundle { uploaded = true }) }
    else l'

-- What the network does to an upload, and to the read of an object that is there already.
pub record UploadNet : Type 0 where
  pub write : Fault
  pub read_fails : Bool

pub data UploadError : Type 0 where
  upload_failed different_content : UploadError

abbrev pub compared : Bool → Option Object → List ℕ → Option UploadError
compared true object body = some different_content
compared false none body = some different_content
compared false (some object) body =
    if bytes_eq object.content body then none else some different_content

abbrev pub upload_reply : UploadNet → String → List ℕ → Memory × Reply → Memory × Option UploadError
upload_reply net key body (m, committed etag) = (m, none)
upload_reply net key body (m, precondition) =
    (m, compared net.read_fails (find_object key m.objects) body)
upload_reply net key body (m, failed) = (m, some upload_failed)

-- `uploadManifestBundle`, `uploadManifest` and the store's part of `uploadSegment`
unfoldable pub upload : UploadNet → Memory → String → List ℕ → Memory × Option UploadError
unfolding put_if_absent find_object
upload net m key body = upload_reply net key body (through net.write m (put_if_absent m key body))

-- Uploads one after the other; the first error ends them.
unfoldable pub upload_all :
    (ℕ → UploadNet) → Memory → List (String × List ℕ) → Memory × Option UploadError
unfolding upload
upload_all nets m [] = (m, none)
upload_all nets m ((key, body) ∷ rest) =
    let (m', e) = upload (nets 0) m key body in
    elim e [ some x ↦ (m', some x) | none ↦ upload_all (λ i. nets (suc i)) m' rest ]
