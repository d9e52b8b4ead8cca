-- ===== src/Tests/Stop.antt =====
-- The end of the program on a concrete run.
use apme_api.Prelude.{◌≡◌, refl, some, ok, true}
use apme_api.Database.{World}
use apme_api.Server.Start.{App}
use apme_api.Server.Stop.{Served, main}
use apme_api.Server.Stop.Orderly.{IsRecorded, main-IsRecorded}
use apme_api.Tests.Fixture.{world}
use apme_api.Tests.Server.{platform, env, started}

-- The signal comes, and the serving ends well.
abbrev serving : App → World → Served × World
serving app w = (record { signal = some true; outcome = ok tt }, w)

stopped_example :
    let run = main platform env serving world in IsRecorded platform env world run.1 run.0
stopped_example = main-IsRecorded platform env serving world

returned_ok : (main platform env serving world).0.returned ≡ ok tt
unfolding main
returned_ok = rw started refl
