-- ===== src/Metrics/Examples.antt =====
-- One run of `getprop` of 30 ms.
use adbq.Prelude.{List, [], ◌∷◌, Bool, Text, codes, replicate}
use adbq.Metrics.{Metrics}

abbrev empty : Metrics
empty = record {
  one_shots = 0;
  streams = 0;
  nanos = 0;
  buckets = replicate 7 0;
  by_cmd = [];
  tracking = Bool.false;
}

abbrev getprop : List Text
getprop = codes "adb" ∷ codes "shell" ∷ codes "getprop ro.build.id" ∷ []
