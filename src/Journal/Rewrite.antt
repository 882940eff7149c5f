-- ===== src/Journal/Rewrite.antt =====
-- The steps of the journal that write its file anew: acknowledgements and rebases.
use satchel.Base.{
  ℕ, ◌+◌, ◌≡◌, refl, Bool, true, false, ◌||◌, [], arith, ◌==◌, if◌then◌else◌, none, subst, sym,
  Result, ok, err, length,
}
use satchel.Volume.{State}
use satchel.Journal.{Metadata, Journal, remaining, reclaimable, rewrite, acknowledge}
use satchel.Journal.Format.{
  FileCodec, FormatError, metadata_of_state, header_bytes, rebased, rebase,
}
use satchel.Journal.Durability.{Covered, SyncCovers, Sound, same-Sound}

Sound-or :
    (j : Journal) (t : Bool) (x y : Journal × Bool)
    → Sound j (x.0, [])
    → Sound j (y.0, [])
    → Sound j ((if t then x else y).0, [])
Sound-or j true x y h k = h
Sound-or j false x y h k = k

pub acknowledge-Sound :
    (header : ℕ) (j : Journal) (sequence : ℕ) (m : Metadata) (rewritten : Bool)
    → j.syncing ≡ none
    → Covered j
    → Sound j ((acknowledge header j sequence m rewritten).0, [])
unfolding acknowledge
acknowledge-Sound header j sequence m rewritten q c =
    Sound-or j (sequence == 0) _ _ (same-Sound j [] c tt) (
      Sound-or j (j.closed || j.broken) _ _ (same-Sound j [] c tt) (
        Sound-or j _ (j', true) _ trimmed
          (Sound-or j rewritten _ _
            (record {
              covered = record {
                started = c.started;
                bounded = omega arith;
                quiet = λ r b. refl;
                pending = c.pending;
                counted = c.counted;
                sync =
                    subst (SyncCovers (rewrite header j')) (sym q) (subst (SyncCovers j) q c.sync);
              };
              truthful = tt;
              grows = c.bounded;
            })
            (record {
              covered = record {
                started = c.started;
                bounded = c.bounded;
                quiet = λ r b. absurd cc;
                pending = c.pending;
                counted = c.counted;
                sync =
                    subst (SyncCovers (record j' { broken = true })) (sym q)
                      (subst (SyncCovers j) q c.sync);
              };
              truthful = tt;
              grows = omega arith;
            }))))
  where
    j' : Journal
    j' = record j {
      entries = remaining sequence j.entries;
      reclaim_bytes = j.reclaim_bytes + reclaimable sequence j.entries;
      metadata = m;
    }

    trimmed : Sound j (j', [])
    trimmed = record {
      covered = record {
        started = c.started;
        bounded = c.bounded;
        quiet = c.quiet;
        pending = c.pending;
        counted = c.counted;
        sync = subst (SyncCovers j') (sym q) (subst (SyncCovers j) q c.sync);
      };
      truthful = tt;
      grows = omega arith;
    }

pub rebase-Sound :
    (fc : FileCodec) (state : State) (rewritten : Bool) (j : Journal)
    → j.syncing ≡ none
    → Covered j
    → Sound j ((rebase fc state rewritten j).0, [])
unfolding rebase rewrite
rebase-Sound fc state rewritten j q c = moved (metadata_of_state state)
  where
    moved : (r : Result FormatError Metadata) → Sound j ((rebased fc r rewritten j).0, [])
    moved (err e) = same-Sound j [] c tt
    moved (ok m) = Sound-or j (j.closed || j.broken) _ _ (same-Sound j [] c tt) (
        Sound-or j rewritten _ _
          (record {
            covered = record {
              started = c.started;
              bounded = omega arith;
              quiet = λ r b. refl;
              pending = c.pending;
              counted = c.counted;
              sync =
                  subst
                    (SyncCovers (rewrite (length (header_bytes fc m)) (record j { metadata = m })))
                    (sym q) (subst (SyncCovers j) q c.sync);
            };
            truthful = tt;
            grows = c.bounded;
          })
          (record {
            covered = record {
              started = c.started;
              bounded = c.bounded;
              quiet = c.quiet;
              pending = c.pending;
              counted = c.counted;
              sync =
                  subst (SyncCovers (record j { metadata = m })) (sym q)
                    (subst (SyncCovers j) q c.sync);
            };
            truthful = tt;
            grows = omega arith;
          }))
