-- ===== src/Builds/Samples.antt =====
-- Builds for the tests.
use pikoci.Base.{ℕ, String, none, some}
use pikoci.Builds.{Build}

-- A build as the server sends it.
abbrev pub build : ℕ → String → String → Build
build id number status = record { id = id; number = none; build_number = number; status = status }

-- A build with the field that `sortBuilds` reads.
abbrev pub numbered : ℕ → String → Build
numbered id number = record {
  id = id;
  number = some number;
  build_number = number;
  status = "succeeded";
}
