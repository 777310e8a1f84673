-- ===== src/Telemetry/Tracer.antt =====
-- InitTracer of internal/adapters/telemetry/otel_tracer.go, over OpenTelemetry as a parameter: its
-- constructors, and what it holds as the global provider and the global propagator. Log lines are left
-- out.
use go_api_management.Errors.Laws.{Result-cases}
use go_api_management.Auth.{Action}
use go_api_management.Errors.{Result, Err, ok, wrapping, err, wrap}
use go_api_management.Base.{
  Bytes, refl, [], ◌∷◌, some, true, inl, inr, ◌≡◌, ◌∙◌, Option, if◌then◌else◌, Bool, is_empty,
  codes, List, ◌⊎◌, ap,
}

-- what the constructors are given: where an exporter sends and whether without TLS, the attributes of the
-- service, and the settings of a provider
pub record ExporterSettings : Type 0 where
  pub endpoint : Bytes
  pub is_insecure : Bool

pub record ServiceAttributes : Type 0 where
  pub name : Bytes
  pub version : Bytes

pub record ProviderSettings (Exporter Resource : Type 0) : Type 0 where
  pub samples_all : Bool
  pub resource : Resource
  pub batches_to : Exporter

-- the two propagators that are composed
pub data Propagator : Type 0 where
  trace_context baggage : Propagator

pub record TracerLibrary (W : Type 0) : Type 1 where
  pub Exporter : Type 0
  pub Resource : Type 0
  pub Tracer : Type 0
  pub new_exporter : ExporterSettings → Action W (Result Exporter)
  pub new_resource : ServiceAttributes → Action W (Result Resource)
  pub new_provider : ProviderSettings Exporter Resource → Tracer
  pub set_tracer : Tracer → W → W
  pub set_propagator : List Propagator → W → W

-- the collector's address, or the standard one
abbrev endpoint_of : Bytes → Bytes
endpoint_of collector_url = if is_empty collector_url then codes "localhost:4318" else collector_url

abbrev pub exporter_settings : Bytes → ExporterSettings
exporter_settings collector_url = record {
  endpoint = endpoint_of collector_url;
  is_insecure = true;
}

-- InitTracer
pub init_tracer :
    {W : Type 0} (lib : TracerLibrary W) → Bytes → Bytes → Action W (Result lib.Tracer)
init_tracer lib service_name collector_url w =
    let (e, w1) = lib.new_exporter (exporter_settings collector_url) w in
    elim (wrapping "failed to create OTLP HTTP trace exporter" e) [
      | err x ↦ (err x, w1)
      | ok exporter ↦
          let (r, w2) =
            lib.new_resource (record { name = service_name; version = codes "1.0.0" }) w1 in
          elim (wrapping "failed to create OTel resource attributes" r) [
            | err x ↦ (err x, w2)
            | ok resource ↦
                let tracer =
                  lib.new_provider
                    (record { samples_all = true; resource = resource; batches_to = exporter }) in
                (
                  ok tracer,
                  lib.set_propagator (trace_context ∷ baggage ∷ []) (lib.set_tracer tracer w2),
                )
          ]
    ]

-- What OpenTelemetry's globals hold: the constructors leave them alone, and each setter sets its own.
pub record GlobalLaws {W : Type 0} (lib : TracerLibrary W) : Type 0 where
  pub tracer : W → Option lib.Tracer
  pub propagators : W → List Propagator
  pub exporter-globals :
      (x : ExporterSettings) (w : W)
      → (tracer (lib.new_exporter x w).1 ≡ tracer w)
        × (propagators (lib.new_exporter x w).1 ≡ propagators w)
  pub resource-globals :
      (a : ServiceAttributes) (w : W)
      → (tracer (lib.new_resource a w).1 ≡ tracer w)
        × (propagators (lib.new_resource a w).1 ≡ propagators w)
  pub set-tracer : (t : lib.Tracer) (w : W) → tracer (lib.set_tracer t w) ≡ some t
  pub set_propagator-tracer :
      (ps : List Propagator) (w : W) → tracer (lib.set_propagator ps w) ≡ tracer w
  pub set-propagators : (ps : List Propagator) (w : W) → propagators (lib.set_propagator ps w) ≡ ps

module _ {W : Type 0} (lib : TracerLibrary W) (laws : GlobalLaws lib)
    (service_name collector_url : Bytes) (w : W) where
  abbrev pub started : Result lib.Tracer × W
  started = init_tracer lib service_name collector_url w

  -- the globals are those of the world before
  abbrev pub Untouched : Type 0
  Untouched =
      (laws.tracer started.1 ≡ laws.tracer w) × (laws.propagators started.1 ≡ laws.propagators w)

  -- The tracer exports in batches to the collector, or to the standard address where none is given, without
  -- TLS, and is the global one, with the two propagators.
  pub record IsInstalled (tracer : lib.Tracer) : Type 0 where
    pub before : W
    pub exporter : lib.Exporter
    pub exports_to : (lib.new_exporter (exporter_settings collector_url) w).0 ≡ ok exporter
    pub resource : lib.Resource
    pub describes :
        (lib.new_resource (record { name = service_name; version = codes "1.0.0" }) before).0
        ≡ ok resource
    pub is_tracer :
        tracer
        ≡ lib.new_provider
            (record { samples_all = true; resource = resource; batches_to = exporter })
    pub is_global : laws.tracer started.1 ≡ some tracer
    pub propagates : laws.propagators started.1 ≡ trace_context ∷ baggage ∷ []

  ends :
      {r : Result lib.Tracer} (v : W)
      → started ≡ (r, v)
      → laws.tracer v ≡ laws.tracer w
      → laws.propagators v ≡ laws.propagators w
      → Untouched
  ends v is same_tracer same_propagators = (
    ap (λ p. laws.tracer p.1) is ∙ same_tracer,
    ap (λ p. laws.propagators p.1) is ∙ same_propagators,
  )

  -- InitTracer fails and leaves the global provider and propagators as they were, or it returns a tracer
  -- that samples every trace, exports to the collector and is the global provider, with the propagators
  -- for the trace context and the baggage.
  pub tracer_cases :
      ((e : Err) × (started.0 ≡ err e) × Untouched)
      ⊎ ((t : lib.Tracer) × (started.0 ≡ ok t) × IsInstalled t)
  unfolding init_tracer
  tracer_cases =
      let to = exporter_settings collector_url in
      let about : ServiceAttributes = record { name = service_name; version = codes "1.0.0" } in
      let w1 : W = (lib.new_exporter to w).1 in
      let w2 : W = (lib.new_resource about w1).1 in
      let (tracer1, propagators1) = laws.exporter-globals to w in
      let (tracer2, propagators2) = laws.resource-globals about w1 in
      elim (Result-cases (lib.new_exporter to w).0) [
        | inl (e, failed) ↦
            let x : Err = wrap "failed to create OTLP HTTP trace exporter" e in
            let is : started ≡ (err x, w1) = rw (failed, init_tracer) refl in
            inl (x, ap (λ p. p.0) is, ends w1 is tracer1 propagators1)
        | inr (exporter, made) ↦ elim (Result-cases (lib.new_resource about w1).0) [
          | inl (e, failed) ↦
              let x : Err = wrap "failed to create OTel resource attributes" e in
              let is : started ≡ (err x, w2) = rw (made, init_tracer, failed) refl in
              inl
                (x, ap (λ p. p.0) is, ends w2 is (tracer2 ∙ tracer1) (propagators2 ∙ propagators1))
          | inr (resource, described) ↦
              let t : lib.Tracer =
                lib.new_provider
                  (record { samples_all = true; resource = resource; batches_to = exporter }) in
              let ps : List Propagator = trace_context ∷ baggage ∷ [] in
              let w3 : W = lib.set_tracer t w2 in
              let is : started ≡ (ok t, lib.set_propagator ps w3) =
                rw (made, init_tracer, described) refl in
              inr (
                t,
                ap (λ p. p.0) is,
                record {
                  before = w1;
                  exporter = exporter;
                  exports_to = made;
                  resource = resource;
                  describes = described;
                  is_tracer = refl;
                  is_global =
                      ap (λ p. laws.tracer p.1) is
                      ∙ laws.set_propagator-tracer ps w3
                      ∙ laws.set-tracer t w2;
                  propagates = ap (λ p. laws.propagators p.1) is ∙ laws.set-propagators ps w3;
                },
              )
        ]
      ]
