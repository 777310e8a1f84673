-- ===== src/Telemetry/Counts.antt =====
-- What the collectors hold of the requests.
use go_api_management.Http.{Handler, Request, fresh, Writer}
use go_api_management.Telemetry.{
  MetricsLibrary, metrics, Collector, http_requests_total, http_request_duration, labels_of,
}
use go_api_management.Base.{
  ℕ, [], ◌∷◌, true, false, ◌≡◌, ◌&&◌, List, Bytes, Bool, ◌+◌, if◌then◌else◌, length, str_eq, codes,
  some, none, ◌≢◌, ◌++◌, ◌⊎◌,
}

-- the same values of the labels
pub same_labels : List Bytes → List Bytes → Bool
same_labels [] [] = true
same_labels (a ∷ ls) (b ∷ ms) = str_eq a b && same_labels ls ms
same_labels _ _ = false

-- Prometheus' documented vectors: an increment adds one under its labels, and an observation adds its value
-- under its labels; neither touches another collector.
pub record CountLaws {W : Type 0} (meter : MetricsLibrary W) : Type 0 where
  pub total : W → List Bytes → ℕ
  pub observed : W → List Bytes → List ℕ
  pub inc-total :
      (labels other : List Bytes) (w : W)
      → total (meter.inc http_requests_total labels w) other
        ≡ (if same_labels labels other then 1 else 0) + total w other
  pub inc-observed :
      (c : Collector) (labels other : List Bytes) (w : W)
      → observed (meter.inc c labels w) other ≡ observed w other
  pub observe-observed :
      (labels other : List Bytes) (duration : ℕ) (w : W)
      → observed (meter.observe http_request_duration labels duration w) other
        ≡ (if same_labels labels other then duration ∷ observed w other else observed w other)
  pub observe-total :
      (c : Collector) (labels other : List Bytes) (duration : ℕ) (w : W)
      → total (meter.observe c labels duration w) other ≡ total w other

-- The handler leaves the two collectors alone.
unfoldable pub LeavesCounts :
    {W : Type 0} (meter : MetricsLibrary W) → CountLaws meter → Handler W → Type 0
LeavesCounts {W = W} meter laws next =
    (r : Request) (s : W) (w : Writer) (labels : List Bytes)
    → (laws.total (next r (s, w)).0 labels ≡ laws.total s labels)
      × (laws.observed (next r (s, w)).0 labels ≡ laws.observed s labels)

-- how many of them have these labels
abbrev pub number : List Bytes → List (List Bytes) → ℕ
number labels [] = 0
number labels (l ∷ ls) = (if same_labels l labels then 1 else 0) + number labels ls

abbrev transfers : Bytes
transfers = codes "/private/transfers/"

-- A path below /private/transfers/ has the label of all such paths, and any other is its own label.
abbrev pub IsPathLabel : Bytes → Bytes → Type 0
IsPathLabel path label =
    ((rest : Bytes) × (path ≡ transfers ++ rest) × (label ≡ codes "/private/transfers/:id"))
    ⊎ (((rest : Bytes) → path ≢ transfers ++ rest) × (label ≡ path))

-- The status of a response: the one that was written, or 200 if none was.
abbrev pub IsSentStatus : Writer → ℕ → Type 0
IsSentStatus w code = (w.status ≡ some code) ⊎ ((w.status ≡ none) × (code ≡ 200))

-- The labels of a request and of its response: the method, the label of the path, and the text of the
-- status.
abbrev pub IsLabelled : {W : Type 0} → MetricsLibrary W → Request → Writer → List Bytes → Type 0
IsLabelled meter r w labels =
    (path : Bytes) × (code : ℕ) × IsPathLabel r.path path
    × IsSentStatus w code
    × (labels ≡ r.method ∷ path ∷ meter.status_text code ∷ [])

abbrev pub AreLabelled :
    {W : Type 0} → MetricsLibrary W → List (Request × Writer) → List (List Bytes) → Type 0
AreLabelled meter [] [] = Unit
AreLabelled meter ((r, w) ∷ served) (l ∷ ls) = IsLabelled meter r w l × AreLabelled meter served ls
AreLabelled meter _ _ = ⊥

module _ {W : Type 0} (meter : MetricsLibrary W) (next : Handler W) where
  -- Requests that are served one behind the other: the world behind them, and each with its response.
  pub serve : List Request → W → W × List (Request × Writer)
  serve [] s = (s, [])
  serve (r ∷ rs) s =
      let (s', w') = metrics meter next r (s, fresh) in
      let (last, served) = serve rs s' in (last, (r, w') ∷ served)

  -- the labels that the middleware gives them
  given_labels : List (Request × Writer) → List (List Bytes)
  given_labels [] = []
  given_labels ((r, w) ∷ served) = labels_of meter r w ∷ given_labels served

module _ {W : Type 0} (meter : MetricsLibrary W) (laws : CountLaws meter) (next : Handler W) where
  -- What the collectors hold is what they held and one for each request with the labels.
  abbrev pub IsCounted : W → W → List (List Bytes) → Type 0
  IsCounted s last served =
      (labels : List Bytes)
      → (laws.total last labels ≡ number labels served + laws.total s labels)
        × (length (laws.observed last labels)
            ≡ number labels served + length (laws.observed s labels))
