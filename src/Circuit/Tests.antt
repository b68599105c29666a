-- ===== src/Circuit/Tests.antt =====
-- Concrete runs of the circuit breaker and of the polling (backend/src/services/StarknetService.ts).
use starknet.Common.{◌≡◌, refl, List, [], ◌∷◌, codes, count_if, not, leb}
use starknet.Circuit.{initial, succeed, Event, started, failed_with, run}
use starknet.Circuit.Trip.{run-closed, is_closed, is_counted}

abbrev five_failures : List Event
five_failures =
    started 0
    ∷ failed_with (codes "fetch failed") 1
    ∷ failed_with (codes "ENOTFOUND") 2
    ∷ failed_with (codes "insufficient") 3
    ∷ failed_with (codes "?") 4
    ∷ failed_with (codes "503") 5
    ∷ failed_with (codes "network") 6
    ∷ []

run-closed_example :
    (is_closed (run five_failures (succeed initial))
      ≡ not (leb 5 (count_if is_counted five_failures)))
    × ((run five_failures (succeed initial)).failures ≡ count_if is_counted five_failures)
run-closed_example = run-closed five_failures initial refl
