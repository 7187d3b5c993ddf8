-- ===== src/Monitoring.antt =====
-- internal/monitoring/prom.go and internal/instance/monitoring.go: the histograms of each mode, their
-- labels, and what is registered. The registry of the Prometheus library is a parameter.
pub mod Registered
mod Tests
use waterhose.Prelude.{
  List, [], ◌∷◌, Option, none, some, Bytes, codes, bytes_eq, string_eq, Outcome, ok, panic, ◌>>=◌,
  if◌then◌else◌, Bool,
}
use waterhose.Prelude.Dict.{Dict, insert}

-- `labelsFromKeyValue`: the pairs of the configuration as a map.
unfoldable pub labels_from : Dict Bytes Bytes → Dict Bytes Bytes → Dict Bytes Bytes
labels_from [] labels = labels
labels_from ((key, value) ∷ pairs) labels = labels_from pairs (insert key value labels)

abbrev pub labels_from_key_value : Dict Bytes Bytes → Dict Bytes Bytes
labels_from_key_value pairs = labels_from pairs []

-- `prometheus.HistogramOpts`
pub record Histogram : Type 0 where
  pub name : Bytes
  pub labels : Dict Bytes Bytes
  pub help : Bytes

-- `mon`, with `MonitoringWaterHoseMaster` and `MonitoringWaterHoseSlave`.
pub record Mon : Type 0 where
  pub mode : Bytes
  pub total_channels : Histogram
  pub total_channels_banned_in : Histogram
  pub total_channels_suspended : Histogram
  pub total_channels_connected_to : Histogram
  pub total_messages : Histogram

-- The Prometheus library: `NewHistogram` returns for these labels, or it panics; and a registry, whose
-- `register` fails with an error.
pub record Registry : Type 1 where
  pub new_histogram_returns : Dict Bytes Bytes → Bool
  pub State : Type 0
  pub empty : State
  pub register : Histogram → State → Option State

module _ (r : Registry) where
  -- `prometheus.NewHistogram`
  unfoldable pub new_histogram : Histogram → Outcome Histogram
  new_histogram h = if r.new_histogram_returns h.labels then ok h else panic

  -- `NewPrometheus`, of the mode and the labels of the configuration.
  unfoldable pub new_prometheus : Bytes → Dict Bytes Bytes → Outcome Mon
  unfolding new_histogram
  new_prometheus mode pairs = do
    total_channels ← new_histogram (record {
      name = codes "total_channels";
      labels = labels_from_key_value pairs;
      help = codes "The total number of channels";
    })
    banned_in ← new_histogram (record {
      name = codes "total_channels_banned_in";
      labels = labels_from_key_value pairs;
      help = codes "The total number of channels the bot is banned in";
    })
    suspended ← new_histogram (record {
      name = codes "total_channels_suspended";
      labels = labels_from_key_value pairs;
      help = codes "The total number of channels suspended";
    })
    connected_to ← new_histogram (record {
      name = codes "total_channels_connected_to";
      labels = labels_from_key_value pairs;
      help = codes "The total number of channels connected to";
    })
    messages ← new_histogram (record {
      name = codes "total_messages";
      labels = labels_from_key_value pairs;
      help = codes "The total number of messages";
    })
    ok (record {
      mode = mode;
      total_channels = total_channels;
      total_channels_banned_in = banned_in;
      total_channels_suspended = suspended;
      total_channels_connected_to = connected_to;
      total_messages = messages;
    })

  -- `MustRegister`: an error of a collector is a panic.
  unfoldable pub must_register : List Histogram → r.State → Outcome r.State
  must_register [] s = ok s
  must_register (h ∷ histograms) s = elim (r.register h s) [
    | none ↦ panic
    | some s' ↦ must_register histograms s'
  ]

  -- `Register`
  unfoldable pub register : Mon → r.State → Outcome r.State
  unfolding must_register
  register m s =
      if bytes_eq m.mode (codes "master")
      then must_register (m.total_channels ∷ []) s
      else if bytes_eq m.mode (codes "slave")
      then must_register
          (m.total_channels_banned_in ∷ m.total_channels_suspended ∷ m.total_channels_connected_to
            ∷ [])
          s
      else ok s
