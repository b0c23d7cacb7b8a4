-- ===== src/Observability/Metrics.antt =====
-- src/fp/observability/metrics.py. The values are whole numbers.
use foundation_protocol.Prelude.{ℕ, ◌+◌, String, Option, none, some, List, [], ◌∷◌, ◌++◌}
use foundation_protocol.Dict
use foundation_protocol.Dict.{Dict}

pub record MetricsRegistry : Type 0 where
  pub counters : Dict ℕ
  pub gauges : Dict ℕ
  pub histograms : Dict (List ℕ)

-- `__init__`
unfoldable pub no_metrics : MetricsRegistry
no_metrics = record { counters = []; gauges = []; histograms = [] }

-- `d[name]` of a `defaultdict`
abbrev pub or_default : {A : Type 0} → A → Option A → A
or_default d none = d
or_default d (some a) = a

unfoldable pub inc : String → ℕ → MetricsRegistry → MetricsRegistry
inc name value m = record m {
  counters = Dict.put m.counters name (or_default 0 (Dict.get m.counters name) + value);
}

unfoldable pub set_gauge : String → ℕ → MetricsRegistry → MetricsRegistry
set_gauge name value m = record m { gauges = Dict.put m.gauges name value }

unfoldable pub observe : String → ℕ → MetricsRegistry → MetricsRegistry
observe name value m = record m {
  histograms =
      Dict.put m.histograms name (or_default [] (Dict.get m.histograms name) ++ value ∷ []);
}

unfoldable pub snapshot : MetricsRegistry → Dict ℕ × Dict ℕ × Dict (List ℕ)
snapshot m = (m.counters, m.gauges, m.histograms)
