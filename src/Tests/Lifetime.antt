-- ===== src/Tests/Lifetime.antt =====
-- The life of the service (src/pitblu_core/service.py).
use pitblu_core.Prelude.{
  List, Option, String, [], adapter_error, arith, err, none, refl, some, string_eq, true, ℕ, ◌∷◌,
}
use pitblu_core.Models.{Datetime, physical, utc}
use pitblu_core.Connection.{default_backoff}
use pitblu_core.Service.{Job, Service, executes_connection, executes_scan, queued_operation}
use pitblu_core.Service.Operations.{connects}
use pitblu_core.Service.Lifecycle.{RecoveryRound, close_service, recover, start}
use pitblu_core.Service.Rest.{AllShownOff, IsAtRest, Refuses, close_service_is_final}
use pitblu_core.Service.Recovery.{HasReason, RecoversOwner, recover-HasReason, start-RecoversOwner}
use pitblu_core.Tests.Device.{default_is_valid}
use pitblu_core.Tests.Administration.{serving, silent}

-- A scan is under way, and a connection has not begun.
abbrev busy : Service
busy = record serving {
  tasks = executes_scan "scan" 5 ∷ executes_connection "c" "a" "connect" ∷ [];
  objects = ("scan", queued_operation "scan" none "scan" 1) ∷ [];
}

abbrev cut : Job → Option ℕ
cut (executes_scan id duration) = some 8
cut _ = none

close_service_is_final_example :
    (let closed = close_service cut [] (err (adapter_error "")) 9 (utc 1) (utc 2) (utc 3) busy in
      IsAtRest closed
      × AllShownOff busy.connected_device closed.store
      × Refuses "b" connects true 5 "o" 10 closed)
close_service_is_final_example =
    close_service_is_final cut [] (err (adapter_error "")) 9 (utc 1) (utc 2) (utc 3) busy "b"
      connects true 5 "o" 10

-- The first round fails, and the service closes while the second one sleeps.
abbrev rounds : List RecoveryRound
rounds =
    record { random = 0; meanwhile = λ s. s; id = "r1"; now = 1; attempt = silent }
    ∷ record {
      random = 0;
      meanwhile = λ s. record s { closing = true };
      id = "r2";
      now = 2;
      attempt = silent;
    }
    ∷ []

recover-HasReason_example :
    (let (end, used, after) = recover "a" rounds true default_backoff serving in
      HasReason "a" rounds end after)
recover-HasReason_example =
    recover-HasReason "a" rounds true default_backoff serving default_is_valid
      (omega arith, (omega arith, tt))

abbrev idle : Service
idle = record serving { owner = none }

abbrev times : String → Datetime × Datetime
times key = (utc 1, utc 2)

start-RecoversOwner_example : RecoversOwner (start physical times 3 idle)
start-RecoversOwner_example = start-RecoversOwner physical times 3 idle refl refl
