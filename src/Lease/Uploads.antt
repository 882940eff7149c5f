-- ===== src/Lease/Uploads.antt =====
-- The uploads of `publishPrepared`: what the store holds when they have succeeded.
use Prim.Native.String.{String}
use text.Mathlib.Text.{◌==◌ as str_eq}
use text.Mathlib.TextEquality.{eq_iff}
use satchel.Base.{
  ℕ, suc, ◌+◌, ◌≡◌, refl, ◌∙◌, subst, Bool-cases, Bool, true, false, not, ◌&&◌, ◌||◌, List, [], ◌∷◌,
  ◌++◌, append_assoc, if◌then◌else◌, Option, none, some, Result, ok, err, ◌>>=◌, ◌⊎◌, inl, inr,
  Option-cases,
}
use satchel.Base.Bytes.{bytes_eq, bytes_eq_sound}
use satchel.Volume.{State, Codec, ManifestError}
use satchel.History.{inline_body}
use satchel.ObjectStore.{
  Memory, Object, precondition_failed, find_object, store_object, stored_as, put_if_absent, present,
}
use satchel.ObjectStore.Swap.{find_object-store_object}
use satchel.Head.Conditional.{Fault, delivered, lost_reply, lost_request, through}
use satchel.Lease.{Prepared, PreparedBundle}
use satchel.Lease.Commit.{set_inline}
use satchel.Lease.Archive.{
  UploadNet, compared, upload_reply, upload, upload_all, prepare_bundle, is_some,
}
use satchel.Lease.Placement.{
  Decision, is_small, fits_inline, insured, decide, uploads_of, bundle_upload,
}

-- The key has an object with this content.
unfoldable pub Holds : Memory → String → List ℕ → Type 0
Holds m key body = (o : Object) × (find_object key m.objects ≡ some o) × (o.content ≡ body)

-- The body is inline in the state, or an object of its own.
unfoldable pub IsDurable : Memory → State → String → List ℕ → Type 0
IsDurable m state key body = (inline_body key state.inline_manifests ≡ some body) ⊎ Holds m key body

stored-Holds :
    (m : Memory) (key : String) (body : List ℕ) → Holds (store_object m key body).0 key body
unfolding Holds
stored-Holds m key body = (
  record { content = body; etag = m.seq + 1 },
  find_object-store_object m key key body ∙ rw ((eq_iff key key).1 refl) refl,
  refl,
)

compared-Holds :
    (fails : Bool) (m : Memory) (key : String) (body : List ℕ)
    → compared fails (find_object key m.objects) body ≡ none
    → Holds m key body
unfolding Holds
compared-Holds true m key body h = absurd (cc h)
compared-Holds false m key body h = elim (Option-cases (find_object key m.objects)) [
  | inl n ↦ absurd (cc (rw n at h))
  | inr (o, n) ↦ elim (Bool-cases (bytes_eq o.content body)) [
    | inl e ↦ (o, n, bytes_eq_sound o.content body e)
    | inr e ↦ absurd (cc (rw (n, e) at h))
  ]
]

reply-Holds :
    (net : UploadNet) (f : Fault) (t : Bool) (m : Memory) (key : String) (body : List ℕ)
    → (upload_reply net key body (
        through f m
          (if t then (m, err precondition_failed) else stored_as (store_object m key body)))).1
      ≡ none
    → Holds
        (upload_reply net key body (
          through f m
            (if t then (m, err precondition_failed) else stored_as (store_object m key body)))).0
        key
        body
unfolding store_object
reply-Holds net delivered true m key body h = compared-Holds net.read_fails m key body h
reply-Holds net delivered false m key body h = stored-Holds m key body
reply-Holds net lost_reply true m key body h = absurd (cc h)
reply-Holds net lost_reply false m key body h = absurd (cc h)
reply-Holds net lost_request true m key body h = absurd (cc h)
reply-Holds net lost_request false m key body h = absurd (cc h)

-- An upload that succeeds.
upload-Holds :
    (net : UploadNet) (m : Memory) (key : String) (body : List ℕ)
    → (upload net m key body).1 ≡ none
    → Holds (upload net m key body).0 key body
unfolding upload put_if_absent
upload-Holds net m key body h =
    reply-Holds net net.write (present (find_object key m.objects) && not m.unconditional) m key
      body h

-- The last of the uploads.
upload_all-Holds :
    (nets : ℕ → UploadNet) (m : Memory) (before : List (String × List ℕ)) (key : String)
    (body : List ℕ)
    → (upload_all nets m (before ++ ((key, body) ∷ []))).1 ≡ none
    → Holds (upload_all nets m (before ++ ((key, body) ∷ []))).0 key body
unfolding upload_all
upload_all-Holds nets m [] key body h = elim (Option-cases (upload (nets 0) m key body).1) [
  | inl e ↦ rw (e, upload_all) (upload-Holds (nets 0) m key body e)
  | inr (x, e) ↦ absurd (cc (rw (e, upload_all) at h))
]
upload_all-Holds nets m ((k, b) ∷ before) key body h =
    elim (Option-cases (upload (nets 0) m k b).1) [
      | inl e ↦
          rw (e, upload_all)
            (upload_all-Holds (λ i. nets (suc i)) (upload (nets 0) m k b).0 before key body
              (rw (e, upload_all) at h))
      | inr (x, e) ↦ absurd (cc (rw (e, upload_all) at h))
    ]

-- A decision archives the body or embeds it.
insured_covers : (d : Decision) → (insured d).embed || (insured d).archive ≡ true
insured_covers d = elim (Bool-cases d.embed) [
  | inl e ↦ rw e refl
  | inr e ↦ elim (Bool-cases d.archive) [ inl a ↦ rw (e, a) refl | inr a ↦ rw (e, a) refl ]
]

covers_of :
    (x d : Decision)
    → Path (Result ManifestError Decision) (ok (insured x)) (ok d)
    → d.embed || d.archive ≡ true
covers_of x d h =
    let e : insured x ≡ d = cc h in subst (λ y. y.embed || y.archive ≡ true) e (insured_covers x)

either_covers :
    (t : Bool) (made : Result ManifestError (Option PreparedBundle))
    (x : Option PreparedBundle → Decision) (y d : Decision)
    → (if t then (made >>= λ b. ok (insured (x b))) else ok (insured y)) ≡ ok d
    → d.embed || d.archive ≡ true
either_covers true (ok b) x y d h = covers_of (x b) d h
either_covers true (err e) x y d h = absurd (cc h)
either_covers false made x y d h = covers_of y d h

pub decide_covers :
    (c : Codec) (snapshot : State) (prepared : Prepared) (bundle : Option PreparedBundle)
    (archive : Bool) (d : Decision)
    → decide c snapshot prepared bundle archive ≡ ok d
    → d.embed || d.archive ≡ true
unfolding decide
decide_covers c snapshot prepared bundle archive d h =
    let large = archive || not (is_small prepared) in
    let embed = not large && is_small prepared && fits_inline snapshot prepared bundle in
    either_covers (not embed && not (is_some bundle) && not large) (prepare_bundle c snapshot)
      (λ made.
        if is_small prepared
        then record { embed = true; archive = large; bundle = made }
        else record { embed = false; archive = true; bundle = made })
      (record { embed = embed; archive = large; bundle = bundle }) d h

-- With the archive, the manifest is the last upload.
pub archived-Holds :
    (nets : ℕ → UploadNet) (m : Memory) (segments : List (String × List ℕ)) (prepared : Prepared)
    (d : Decision)
    → d.archive ≡ true
    → (upload_all nets m (uploads_of segments prepared d)).1 ≡ none
    → Holds (upload_all nets m (uploads_of segments prepared d)).0 prepared.key prepared.body
archived-Holds nets m segments prepared d a =
    rw (a, ← append_assoc segments (bundle_upload d.bundle) ((prepared.key, prepared.body) ∷ []))
      (upload_all-Holds nets m (segments ++ bundle_upload d.bundle) prepared.key prepared.body)

-- What an inline body is set to is what is read.
pub inline_body-set_inline :
    (key : String) (body : List ℕ) (inline : List (String × List ℕ))
    → inline_body key (set_inline key body inline) ≡ some body
inline_body-set_inline key body [] = rw ((eq_iff key key).1 refl) refl
inline_body-set_inline key body ((k, b) ∷ rest) = elim (Bool-cases (str_eq k key)) [
  | inl e ↦ rw (e, (eq_iff key key).1 refl) refl
  | inr e ↦ rw (e, e) (inline_body-set_inline key body rest)
]
