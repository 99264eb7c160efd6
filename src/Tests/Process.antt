-- ===== src/Tests/Process.antt =====
-- A process that answers two requests, stops at a signal, and shuts down in time.
use registry_k8s_io.Archeio.Main.{
  returned, server_closed, ended, Event, request, listen_returned, signalled, shutdown_returned,
  second, main_run, main_start,
}
use registry_k8s_io.Archeio.Main.Exits.{IsGraceful, main_run-returned_iff}
use registry_k8s_io.Archeio.Main.Run.{IsHonest, main_run-IsHonest}
use registry_k8s_io.Prelude.{ℕ, ◌*◌, ◌≡◌, ◌↔◌, Option, none, some, List, [], ◌∷◌, Text}
use registry_k8s_io.Tests.{table}
use registry_k8s_io.Tests.Redirects.{net, aws_request, gcp_request}

abbrev no_variables : Text → Option Text
no_variables key = none

abbrev in_time : ℕ → Option Text
in_time timeout = none

abbrev events : List Event
events =
    request (λ url. some 200) aws_request
    ∷ request (λ url. none) gcp_request
    ∷ signalled
    ∷ listen_returned (some server_closed)
    ∷ shutdown_returned
    ∷ []

main_run-returned_iff_example :
    ((main_run net table no_variables in_time events
        (main_start net table no_variables in_time)).phase
      ≡ ended returned)
    ↔ (IsGraceful events × (in_time (5 * second) ≡ none))
main_run-returned_iff_example = main_run-returned_iff net table no_variables in_time events

main_run-IsHonest_example :
    IsHonest net table no_variables in_time
      (main_run net table no_variables in_time events
        (main_start net table no_variables in_time)).log
main_run-IsHonest_example = main_run-IsHonest net table no_variables in_time events
