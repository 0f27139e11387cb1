-- ===== src/Forced/Audit/Tests.antt =====
-- A log whose second line is cut by the first read, and a request that waits for a record of it.
use minireplayer.Prelude.{none, some, Option, [], ◌∷◌, lookup, string_eq, nat_eq}
use minireplayer.Json.{Value, Fields, str, obj, end, field}
use minireplayer.Bytes.{Bytes}
use minireplayer.Forced.Audit.{Reader, pump, time_out, wait_for_record}
use minireplayer.Forced.Audit.Waiting.{IsFair}
use minireplayer.Forced.Audit.Leaving.{after_wait}
use minireplayer.Forced.Audit.Steps.{start, step, asks, pumped, gave_up, steps-IsFair}

abbrev idle : Reader
idle = record {
  identity = none;
  offset = 0;
  partial = [];
  seen = [];
  waiters = [];
  settled = [];
  failure = none;
}

abbrev audit : Fields
audit =
    field "schema_version" (str "native-agent-replay.vllm-audit/v4")
      (field "request_id" (str "nr-1") end)

abbrev loads : Bytes → Option Value
loads line = some (obj audit)

abbrev early : Bytes
early = 97 ∷ 10 ∷ 98 ∷ []

abbrev late : Bytes
late = 99 ∷ 10 ∷ []

idle-IsFair : IsFair idle []
unfolding lookup
idle-IsFair = ((λ i d h. cc), λ i f m. absurd m)

abbrev waiting : Reader
waiting = (wait_for_record "nr-1" 7 idle).0

abbrev read : Reader
read = pump loads (some (record { identity = (1, 2); content = early })) waiting

steps-IsFair_example :
    IsFair (time_out "nr-1" 7 read) (after_wait (wait_for_record "nr-1" 7 idle).1 "nr-1" 7 [])
steps-IsFair_example =
    steps-IsFair idle [] (time_out "nr-1" 7 read)
      (after_wait (wait_for_record "nr-1" 7 idle).1 "nr-1" 7 [])
      (step
        (step (step start (asks "nr-1" 7))
          (pumped loads (some (record { identity = (1, 2); content = early }))))
        (gave_up "nr-1" 7))
      idle-IsFair
