-- ===== src/Syncer/Trace.antt =====
-- A syncer in all orders of the steps.
use satchel.Base.{◌≡◌, List, [], ◌∷◌, ◌++◌}
use satchel.Device.{Generation}
use satchel.Syncer.{Event, Syncer, Config}
use satchel.Syncer.Events.{published_by}
use satchel.Syncer.Steps.{Step, given, step}

-- Steps one after the other, and all that they give.
unfoldable pub run : Config → Syncer → List Step → Syncer × List Event
unfolding step
run config s [] = (s, [])
run config s (st ∷ sts) =
    let (s', ev) = step config s st in let (s'', ev') = run config s' sts in (s'', ev ++ ev')

abbrev pub all_given : Config → Syncer → List Step → List Generation
all_given config s [] = []
all_given config s (st ∷ sts) = given s st ++ all_given config (step config s st).0 sts

-- Nothing comes after the end.
record IsOver (s : Syncer) (had : List Generation) (r : Syncer × List Event) : Type 0 where
  state : r.0 ≡ s
  quiet : published_by r.1 ≡ []
  nothing : had ≡ []
