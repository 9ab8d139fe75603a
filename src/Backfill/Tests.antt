-- ===== src/Backfill/Tests.antt =====
-- A log of two sites.
use feedo.Base.{◌≡◌, refl, List, [], ◌∷◌, All, arith, map}
use feedo.Scan.{codes}
use feedo.Indexer.{Site}
use feedo.Indexer.Entries.{IsLogged}
use feedo.Indexer.Resume.{log_text}
use feedo.Backfill.{sites_of}
use feedo.Backfill.RoundTrip.{posted, sites_of-log_text}

abbrev two_sites : List Site
two_sites =
    record { number = 1; domain = codes "b.io"; cid = codes "c1" }
    ∷ record { number = 2; domain = codes "a-b"; cid = codes "0Ff" }
    ∷ []

two_sites-IsLogged : All IsLogged two_sites
two_sites-IsLogged = (
  record {
    host = (refl, (refl, (refl, (refl, tt))));
    named = omega arith;
    hex = (refl, (refl, tt));
    found = omega arith;
  },
  (
    record {
      host = (refl, (refl, (refl, tt)));
      named = omega arith;
      hex = (refl, (refl, (refl, tt)));
      found = omega arith;
    },
    tt,
  ),
)

sites_of-log_text_example : sites_of (log_text two_sites) ≡ map posted two_sites
sites_of-log_text_example = sites_of-log_text two_sites two_sites-IsLogged
