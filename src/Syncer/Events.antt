-- ===== src/Syncer/Events.antt =====
-- What the events of a syncer publish, and what its requests hold.
use satchel.Base.{
  ◌≡◌, refl, ◌∙◌, sym, ap, List, [], ◌∷◌, ◌++◌, append_assoc, All, Option, Option-cases, inl, inr,
}
use satchel.Base.Assoc.{Unique}
use satchel.Device.{Generation}
use satchel.Syncer.{
  SyncRequest, SyncError, Event, publishes, acknowledges, releases, checkpoints, answers, loses,
  Syncer, answer, answer_all, of_request,
}

-- The generations of requests.
abbrev pub generations : List SyncRequest → List Generation
generations [] = []
generations (r ∷ rs) = of_request r.generation ++ generations rs

-- What the syncer still has, the oldest first.
abbrev pub contents : Syncer → List Generation
contents s = s.pending ++ (generations s.working ++ generations s.requests)

-- What was published, in order.
abbrev pub published_by : List Event → List Generation
published_by [] = []
published_by (publishes g segments ∷ ev) = g ∷ published_by ev
published_by (acknowledges sequence ∷ ev) = published_by ev
published_by (releases g ∷ ev) = published_by ev
published_by (checkpoints ∷ ev) = published_by ev
published_by (answers id e ∷ ev) = published_by ev
published_by (loses e ∷ ev) = published_by ev

pub published_by-append :
    (a b : List Event) → published_by (a ++ b) ≡ published_by a ++ published_by b
published_by-append [] b = refl
published_by-append (publishes g segments ∷ a) b = ap (λ l. g ∷ l) (published_by-append a b)
published_by-append (acknowledges sequence ∷ a) b = published_by-append a b
published_by-append (releases g ∷ a) b = published_by-append a b
published_by-append (checkpoints ∷ a) b = published_by-append a b
published_by-append (answers id e ∷ a) b = published_by-append a b
published_by-append (loses e ∷ a) b = published_by-append a b

pub generations-append :
    (a b : List SyncRequest) → generations (a ++ b) ≡ generations a ++ generations b
generations-append [] b = refl
generations-append (r ∷ a) b =
    ap (λ l. of_request r.generation ++ l) (generations-append a b)
    ∙ sym (append_assoc (of_request r.generation) (generations a) (generations b))

pub no_publication : (r : SyncRequest) (e : Option SyncError) → published_by (answer r e) ≡ []
no_publication r e = elim (Option-cases r.caller) [ inl n ↦ rw n refl | inr (id, n) ↦ rw n refl ]

pub answers-published :
    (rs : List SyncRequest) (e : Option SyncError) → published_by (answer_all rs e) ≡ []
answers-published [] e = refl
answers-published (r ∷ rs) e =
    published_by-append (answer r e) (answer_all rs e)
    ∙ rw (no_publication r e, answers-published rs e) refl

abbrev pub AllUnique : List Generation → Type 0
AllUnique gs = All (λ (g : Generation). Unique g.blocks) gs
