-- ===== src/Journal/Durability.antt =====
-- What waiters are told, and what completed syncs cover, after each step of the journal.
use satchel.Base.{
  ℕ, ◌+◌, ◌-◌, ◌≤◌, ◌<◌, ◌≡◌, refl, sym, subst, ◌∙◌, Bool, true, false, not, ◌&&◌, ◌||◌, List, [],
  ◌∷◌, ◌++◌, arith, ◌==◌, if◌then◌else◌, Option, none, some, All, All-append,
}
use satchel.Device.{Generation}
use satchel.Journal.{
  Waiter, Notice, Journal, encodable, last_seq, waiter_of, enqueue_empty, enqueue, start_sync,
  sync_begin, notify_all, is_nil, finish_sync, sync_end,
}

abbrev pub NeedAtMost : ℕ → List Waiter → Type 0
NeedAtMost n ws = All (λ (w : Waiter). w.needs ≤ n) ws

-- What the running sync covers: those that wait for it, and all records if no later one is pending.
abbrev pub SyncCovers : Journal → Option (ℕ × List Waiter) → Type 0
SyncCovers j none = (j.inflight ≡ []) × (j.sync_running ≡ true → 0 < j.pending_data)
SyncCovers j (some (target, ws)) =
    (target ≤ last_seq j)
    × (j.stable_seq ≤ target)
    × NeedAtMost target ws
    × NeedAtMost target j.inflight
    × (j.pending_data ≡ 0 → target ≡ last_seq j)
    × (j.sync_running ≡ true)

pub record Covered (j : Journal) : Type 0 where
  pub started : 0 < j.next_seq
  pub bounded : j.stable_seq ≤ last_seq j
  pub quiet : j.sync_running ≡ false → j.broken ≡ false → j.stable_seq ≡ last_seq j
  pub pending : NeedAtMost (last_seq j) j.pending_sync
  pub counted : is_nil j.pending_sync ≡ (j.pending_data == 0)
  pub sync : SyncCovers j j.syncing

-- The good news among the notices are true.
abbrev pub Truthful : ℕ → List Notice → Type 0
Truthful stable notices = All (λ (n : Notice). n.good ≡ true → n.waiter.needs ≤ stable) notices

NeedAtMost-upper : (n m : ℕ) (ws : List Waiter) → n ≤ m → NeedAtMost n ws → NeedAtMost m ws
NeedAtMost-upper n m [] l h = tt
NeedAtMost-upper n m (w ∷ ws) l h = (omega arith, NeedAtMost-upper n m ws l h.1)

NeedAtMost-append :
    (n : ℕ) (ws vs : List Waiter) → NeedAtMost n ws → NeedAtMost n vs → NeedAtMost n (ws ++ vs)
NeedAtMost-append n ws vs h k = All-append (λ (w : Waiter). w.needs ≤ n) ws vs h k

Truthful-notify_all :
    (stable : ℕ) (ws : List Waiter) → NeedAtMost stable ws → Truthful stable (notify_all ws true)
Truthful-notify_all stable [] h = tt
Truthful-notify_all stable (w ∷ ws) h = (λ _. h.0, Truthful-notify_all stable ws h.1)

Truthful-failed : (stable : ℕ) (ws : List Waiter) → Truthful stable (notify_all ws false)
Truthful-failed stable [] = tt
Truthful-failed stable (w ∷ ws) = (λ e. cc, Truthful-failed stable ws)

is_nil-append : (ws : List Waiter) (w : Waiter) → is_nil (ws ++ (w ∷ [])) ≡ false
is_nil-append [] w = refl
is_nil-append (v ∷ ws) w = refl

-- What a step must keep: the invariant, the truth of its notices, and what is stable.
pub record Sound (j : Journal) (r : Journal × List Notice) : Type 0 where
  pub covered : Covered r.0
  pub truthful : Truthful r.0.stable_seq r.1
  pub grows : j.stable_seq ≤ r.0.stable_seq

pub Sound-if :
    (j : Journal) (t : Bool) (x y : Journal × List Notice)
    → (t ≡ true → Sound j x)
    → (t ≡ false → Sound j y)
    → Sound j (if t then x else y)
Sound-if j true x y h k = h refl
Sound-if j false x y h k = k refl

-- `syncing` is matched through an argument that stands for it.
enqueue-SyncCovers :
    (j : Journal) (g : Generation) (id : ℕ) (s : Option (ℕ × List Waiter))
    → 0 < j.next_seq
    → SyncCovers j s
    → SyncCovers
        (record j {
          next_seq = j.next_seq + 1;
          entries = j.entries ++ (record g { journal_seq = j.next_seq } ∷ []);
          disk_bytes = j.disk_bytes + 0;
          pending_sync = j.pending_sync ++ (record { id = id; needs = j.next_seq } ∷ []);
          pending_data = j.pending_data + 1;
          sync_running = true;
        })
        s
enqueue-SyncCovers j g id none p h = (h.0, λ _. omega arith)
enqueue-SyncCovers j g id (some (t, ws)) p h =
    (omega arith, h.1, h.2, h.3, λ e. absurd (omega arith), refl)

pub same-Sound :
    (j : Journal) (ns : List Notice) → Covered j → Truthful j.stable_seq ns → Sound j (j, ns)
same-Sound j ns c t = record { covered = c; truthful = t; grows = omega arith }

pub enqueue_empty-Sound : (j : Journal) (id : ℕ) → Covered j → Sound j (enqueue_empty j id)
unfolding enqueue_empty
enqueue_empty-Sound j id c =
    Sound-if j (not j.broken && not j.closed && j.sync_running) _ _
      (λ running.
        Sound-if j (j.pending_data == 0) _ _
          (λ z. record {
            covered = record {
              started = c.started;
              bounded = c.bounded;
              quiet = c.quiet;
              pending = c.pending;
              counted = c.counted;
              sync = join j.syncing (ground arith) (ground arith) c.sync;
            };
            truthful = tt;
            grows = omega arith;
          })
          (λ z. record {
            covered = record {
              started = c.started;
              bounded = c.bounded;
              quiet = c.quiet;
              pending =
                  NeedAtMost-append (last_seq j) j.pending_sync (waiter_of j id ∷ []) c.pending
                    (omega arith, tt);
              counted = is_nil-append j.pending_sync (waiter_of j id) ∙ sym z;
              sync = c.sync;
            };
            truthful = tt;
            grows = omega arith;
          }))
      (λ stopped. same-Sound j _ c ((λ good. immediate stopped good), tt))
  where
    immediate :
        (not j.broken && not j.closed && j.sync_running) ≡ false
        → (not j.broken && not j.closed) ≡ true
        → last_seq j ≤ j.stable_seq
    immediate stopped good = ground (arith, c.quiet)

    join :
        (s : Option (ℕ × List Waiter))
        → j.pending_data ≡ 0
        → j.sync_running ≡ true
        → SyncCovers j s
        → SyncCovers (record j { inflight = j.inflight ++ (waiter_of j id ∷ []) }) s
    join none z r h = absurd (omega (arith, h.1 r))
    join (some (t, ws)) z r h =
        let here : last_seq j ≤ t = omega (arith, h.4 z) in
        (
          h.0,
          h.1,
          h.2,
          NeedAtMost-append t j.inflight (waiter_of j id ∷ []) h.3 (here, tt),
          h.4,
          h.5,
        )

pub enqueue-Sound :
    (j : Journal) (id : ℕ) (g : Generation) (written : Bool)
    → Covered j
    → Sound j (enqueue j id g written)
unfolding enqueue
enqueue-Sound j id g written c =
    Sound-if j (j.closed || j.broken) _ _ (λ _. failed)
      λ _.
        Sound-if j (not (encodable g)) _ _ (λ _. failed)
          λ _.
            Sound-if j (not written) _ _
              (λ _. record {
                covered = record {
                  started = c.started;
                  bounded = c.bounded;
                  quiet = λ r b. absurd cc;
                  pending = c.pending;
                  counted = c.counted;
                  sync = c.sync;
                };
                truthful = (λ e. absurd cc, tt);
                grows = omega arith;
              })
              (λ _. record {
                covered = record {
                  started = omega (arith, c.started);
                  bounded = omega (arith, c.bounded);
                  quiet = λ r b. absurd cc;
                  pending =
                      NeedAtMost-append (j.next_seq + 1 - 1) j.pending_sync _
                        (NeedAtMost-upper (last_seq j) (j.next_seq + 1 - 1) j.pending_sync
                          (omega arith) c.pending)
                        (omega arith, tt);
                  counted = is_nil-append j.pending_sync _ ∙ (ground arith);
                  sync = enqueue-SyncCovers j g id j.syncing c.started c.sync;
                };
                truthful = tt;
                grows = omega arith;
              })
  where
    failed : Sound j (j, record { waiter = waiter_of j id; good = false } ∷ [])
    failed = same-Sound j _ c (λ e. absurd cc, tt)

-- The goroutine begins a sync when none runs.
pub sync_begin-Sound :
    (j : Journal)
    → j.syncing ≡ none
    → j.sync_running ≡ true
    → Covered j
    → Sound j (sync_begin j, [])
unfolding sync_begin
sync_begin-Sound j q r c = go j.pending_sync c.pending c.counted (subst (SyncCovers j) q c.sync)
  where
    go :
        (ws : List Waiter)
        → NeedAtMost (last_seq j) ws
        → is_nil ws ≡ (j.pending_data == 0)
        → SyncCovers j none
        → Sound j (start_sync j ws, [])
    go [] p e s = absurd (ground (arith, s.1))
    go (w ∷ ws) p e s = record {
      covered = record {
        started = c.started;
        bounded = c.bounded;
        quiet = c.quiet;
        pending = tt;
        counted = refl;
        sync =
            (omega arith, c.bounded, p, subst (NeedAtMost (last_seq j)) (sym s.0) tt, λ _. refl, r);
      };
      truthful = tt;
      grows = omega arith;
    }

pub sync_end-Sound : (j : Journal) (synced : Bool) → Covered j → Sound j (sync_end j synced)
unfolding sync_end
sync_end-Sound j synced c = go j.syncing c.sync
  where
    go : (s : Option (ℕ × List Waiter)) → SyncCovers j s → Sound j (finish_sync j s synced)
    go none h = same-Sound j [] c tt
    go (some (t, ws)) h =
        Sound-if j synced _ _
          (λ _. record {
            covered = record {
              started = c.started;
              bounded = h.0;
              quiet = λ r b. h.4 (ground (arith, c.counted));
              pending = c.pending;
              counted = c.counted;
              sync = (refl, λ r. ground (arith, c.counted));
            };
            truthful =
                Truthful-notify_all t (ws ++ j.inflight)
                  (NeedAtMost-append t ws j.inflight h.2 h.3);
            grows = h.1;
          })
          (λ _. record {
            covered = record {
              started = c.started;
              bounded = c.bounded;
              quiet = λ r b. absurd cc;
              pending = tt;
              counted = refl;
              sync = (refl, λ r. absurd cc);
            };
            truthful = Truthful-failed j.stable_seq ((ws ++ j.inflight) ++ j.pending_sync);
            grows = omega arith;
          })
