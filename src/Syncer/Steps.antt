-- ===== src/Syncer/Steps.antt =====
-- The steps of a syncer and its callers: `run`, and what comes between its rounds.
use satchel.Base.{
  ◌≡◌, refl, ◌∙◌, sym, ap, subst, Bool, true, false, not, ◌||◌, if◌then◌else◌, List, [], ◌∷◌, ◌++◌,
  take, drop, take-append-drop, append_assoc, append-nil, some, Bool-cases, inl, inr,
}
use satchel.Device.{Generation}
use satchel.Syncer.{
  SyncRequest, stopped, Event, answer, Syncer, Answers, Config, enqueue_request, no_requests,
  take_up, woken, background, of_request, gather, close_requests, finish,
}
use satchel.Syncer.Events.{
  generations, contents, published_by, generations-append, no_publication, answers-published,
  AllUnique,
}
use satchel.Syncer.Order.{Keeps, quiet-Keeps, finish_collected-Keeps}

-- A request comes in, the goroutine starts a round or ends one, or its context is done.
pub data Step : Type 0 where
  enqueues : SyncRequest → Bool → Step
  wakes : Step
  ticks : SyncRequest → Step
  finishes : Answers → Step
  stops : Step

-- A round starts when none goes on, and no more once the goroutine has ended.
unfoldable pub step : Config → Syncer → Step → Syncer × List Event
unfolding enqueue_request finish close_requests
step config s (enqueues r wake) = enqueue_request s r wake
step config s wakes =
    if s.closed || not (no_requests s.working)
    then (s, [])
    else (woken (record s { wake = false }) s.requests, [])
step config s (ticks r) =
    if s.closed || not (no_requests s.working) then (s, []) else (background s r s.requests, [])
step config s (finishes env) = if s.closed then (s, []) else finish config env s
step config s stops = if s.closed then (s, []) else close_requests s

-- What a step gives to the syncer: a ticker seals a generation only when nothing is queued.
abbrev pub given : Syncer → Step → List Generation
given s (enqueues r wake) = if s.closed then [] else of_request r.generation
given s wakes = []
given s (ticks r) =
    if s.closed || not (no_requests s.working) || not (no_requests s.requests)
    then []
    else of_request r.generation
given s (finishes env) = []
given s stops = []

take_up-contents :
    (s : Syncer) (first : SyncRequest) (queued : List SyncRequest)
    → contents (take_up s first queued)
      ≡ s.pending ++ (of_request first.generation ++ generations queued)
take_up-contents s first queued =
    ap (λ l. s.pending ++ l)
      (append_assoc (of_request first.generation) (generations (take 127 queued))
          (generations (drop 127 queued))
        ∙ ap (λ l. of_request first.generation ++ l)
            (sym (generations-append (take 127 queued) (drop 127 queued))
              ∙ ap generations (take-append-drop 127 queued)))

nil_working : (ws : List SyncRequest) → no_requests ws ≡ true → ws ≡ []
nil_working [] h = refl
nil_working (w ∷ ws) h = absurd (cc h)

idle : (closed nil : Bool) → (closed || not nil) ≡ false → (closed ≡ false) × (nil ≡ true)
idle true nil h = absurd (cc h)
idle false true h = (refl, refl)
idle false false h = absurd (cc h)

idle_contents :
    (s : Syncer)
    → (s.closed || not (no_requests s.working)) ≡ false
    → contents s ≡ s.pending ++ generations s.requests
idle_contents s h =
    ap (λ ws. s.pending ++ (generations ws ++ generations s.requests))
      (nil_working s.working (idle s.closed (no_requests s.working) h).1)

-- A test that the step makes.
if-Keeps :
    (t : Bool) (had : List Generation) (g : List Generation) (a b : Syncer × List Event)
    → Keeps had a
    → (t ≡ false → Keeps (had ++ g) b)
    → Keeps (had ++ (if t then [] else g)) (if t then a else b)
if-Keeps true had g a b x y = subst (λ l. Keeps l a) (sym (append-nil had)) x
if-Keeps false had g a b x y = y refl

when-Keeps :
    (t : Bool) (had : List Generation) (a b : Syncer × List Event)
    → Keeps had a
    → (t ≡ false → Keeps had b)
    → Keeps (had ++ []) (if t then a else b)
when-Keeps true had a b x y = subst (λ l. Keeps l a) (sym (append-nil had)) x
when-Keeps false had a b x y = subst (λ l. Keeps l b) (sym (append-nil had)) (y refl)

unchanged : (s : Syncer) (ev : List Event) → published_by ev ≡ [] → Keeps (contents s) (s, ev)
unchanged s ev h = quiet-Keeps (contents s) s ev h (λ _. refl)

queued_last :
    (s : Syncer) (r : SyncRequest) (wake : Bool)
    → contents s ++ of_request r.generation
      ≡ contents (record s { requests = s.requests ++ (r ∷ []); wake = wake })
queued_last s r wake =
    append_assoc s.pending (generations s.working ++ generations s.requests)
      (of_request r.generation)
    ∙ ap (λ l. s.pending ++ l)
        (append_assoc (generations s.working) (generations s.requests) (of_request r.generation)
          ∙ ap (λ l. generations s.working ++ l)
              (ap (λ l. generations s.requests ++ l) (sym (append-nil (of_request r.generation)))
                ∙ sym (generations-append s.requests (r ∷ []))))

woken-Keeps :
    (s : Syncer) (rs : List SyncRequest)
    → contents s ≡ s.pending ++ generations rs
    → contents (record s { wake = false }) ≡ contents s
    → Keeps (contents s) (woken (record s { wake = false }) rs, [])
woken-Keeps s [] h k = quiet-Keeps (contents s) (record s { wake = false }) [] refl (λ _. refl)
woken-Keeps s (r ∷ rs) h k =
    quiet-Keeps (contents s) (take_up (record s { wake = false }) r rs) [] refl
      (λ _. h ∙ sym (take_up-contents (record s { wake = false }) r rs))

background-Keeps :
    (s : Syncer) (t : Bool) (r : SyncRequest) (rs : List SyncRequest)
    → t ≡ false
    → contents s ≡ s.pending ++ generations rs
    → Keeps
        (contents s ++ (if t || not (no_requests rs) then [] else of_request r.generation))
        (background s r rs, [])
background-Keeps s true r rs n h = absurd (cc n)
background-Keeps s false r [] n h =
    quiet-Keeps (contents s ++ of_request r.generation) (take_up s r []) [] refl (λ _.
      ap (λ l. l ++ of_request r.generation) (h ∙ append-nil s.pending)
      ∙ ap (λ l. s.pending ++ l) (sym (append-nil (of_request r.generation)))
      ∙ sym (take_up-contents s r []))
background-Keeps s false r (q ∷ rs) n h =
    quiet-Keeps (contents s ++ []) (take_up s q rs) [] refl
      (λ _. append-nil (contents s) ∙ h ∙ sym (take_up-contents s q rs))

ticks-Keeps :
    (s : Syncer) (t : Bool) (r : SyncRequest)
    → (t ≡ false → contents s ≡ s.pending ++ generations s.requests)
    → Keeps
        (contents s ++ (if t || not (no_requests s.requests) then [] else of_request r.generation))
        (if t then (s, []) else (background s r s.requests, []))
ticks-Keeps s true r h = quiet-Keeps (contents s ++ []) s [] refl (λ _. append-nil (contents s))
ticks-Keeps s false r h = background-Keeps s false r s.requests refl (h refl)

finish-Keeps :
    (config : Config) (env : Answers) (s : Syncer)
    → AllUnique (contents s)
    → Keeps (contents s) (finish config env s)
unfolding finish
finish-Keeps config env s u = elim (Bool-cases (no_requests s.working)) [
  | inl t ↦ rw t (unchanged s [] refl)
  | inr t ↦
      rw t (finish_collected-Keeps config env s (gather env.ready s.pending false s.working) refl u)
]

close-Keeps : (s : Syncer) → Keeps (contents s) (close_requests s)
unfolding close_requests
close-Keeps s =
    quiet-Keeps (contents s) _ _ (answers-published s.requests (some stopped)) (λ k. absurd (cc k))

pub step-Keeps :
    (config : Config) (s : Syncer) (st : Step)
    → AllUnique (contents s)
    → Keeps (contents s ++ given s st) (step config s st)
unfolding step enqueue_request
step-Keeps config s (enqueues r wake) u =
    if-Keeps s.closed (contents s) (of_request r.generation) (s, answer r (some stopped))
      (record s { requests = s.requests ++ (r ∷ []); wake = s.wake || wake }, [])
      (unchanged s (answer r (some stopped)) (no_publication r (some stopped)))
      (λ t.
        quiet-Keeps (contents s ++ of_request r.generation)
          (record s { requests = s.requests ++ (r ∷ []); wake = s.wake || wake }) [] refl
          (λ _. queued_last s r (s.wake || wake)))
step-Keeps config s wakes u =
    when-Keeps (s.closed || not (no_requests s.working)) (contents s) (s, [])
      (woken (record s { wake = false }) s.requests, []) (unchanged s [] refl)
      (λ t. woken-Keeps s s.requests (idle_contents s t) refl)
step-Keeps config s (ticks r) u =
    ticks-Keeps s (s.closed || not (no_requests s.working)) r (idle_contents s)
step-Keeps config s (finishes env) u =
    when-Keeps s.closed (contents s) (s, []) (finish config env s) (unchanged s [] refl)
      (λ t. finish-Keeps config env s u)
step-Keeps config s stops u =
    when-Keeps s.closed (contents s) (s, []) (close_requests s) (unchanged s [] refl)
      (λ t. close-Keeps s)
