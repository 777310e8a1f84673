-- ===== src/Examples/Meters.antt =====
-- Two requests and what the collectors hold of them.
use go_api_management.Examples.Limits.{request}
use go_api_management.Http.{Handler, Request, write_header}
use go_api_management.Errors.{ok}
use go_api_management.Base.{ℕ, refl, [], ◌∷◌, List, if◌then◌else◌, ◌+◌, Bytes, ◌==◌, codes, str_eq}
use go_api_management.Telemetry.{MetricsLibrary}
use go_api_management.Telemetry.Counts.{CountLaws, same_labels}

record World : Type 0 where
  totals : List Bytes → ℕ
  durations : List Bytes → List ℕ
  clock : ℕ

abbrev small : MetricsLibrary World
small = record {
  register = λ c w. (ok tt, w);
  observe = λ c labels d w. record w {
    durations =
        λ other. if same_labels labels other then d ∷ w.durations other else w.durations other;
  };
  inc = λ c labels w. record w {
    totals = λ other. (if same_labels labels other then 1 else 0) + w.totals other;
  };
  now = λ w. w.clock;
  status_text = λ code. if code == 200 then codes "OK" else codes "Not Found";
}

abbrev small_laws : CountLaws small
small_laws = record {
  total = λ w. w.totals;
  observed = λ w. w.durations;
  inc-total = λ labels other w. refl;
  inc-observed = λ c labels other w. refl;
  observe-observed = λ labels other d w. refl;
  observe-total = λ c labels other d w. refl;
}

abbrev answers : Handler World
answers r (s, w) = (
  record s { clock = s.clock + 5 },
  write_header (if str_eq r.path (codes "/health") then 200 else 404) w,
)

abbrev two_requests : List Request
two_requests =
    record request { path = codes "/private/transfers/17" }
    ∷ record request { path = codes "/health" }
    ∷ []

abbrev quiet : World
quiet = record { totals = λ labels. 0; durations = λ labels. []; clock = 0 }
