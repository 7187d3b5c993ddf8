-- ===== src/Monitoring/Tests.antt =====
-- The registration of a slave at concrete labels.
use waterhose.Prelude.{
  true, ◌<◌, arith, ◌≡◌, refl, inr, List, [], ◌∷◌, some, Bytes, codes, bytes_eq, ok, All,
}
use waterhose.Prelude.Dict.{Dict, insert}
use waterhose.Monitoring.{
  Histogram, Mon, Registry, labels_from, labels_from_key_value, new_prometheus, register,
}
use waterhose.Monitoring.Registered.{
  IsRegistry, IsLabel, is_name, HasLabels, histograms_of, onto, register_lem,
}

-- A registry that takes every histogram.
abbrev list_registry : Registry
list_registry = record {
  new_histogram_returns = λ labels. true;
  State = List Histogram;
  empty = [];
  register = λ h s. some (h ∷ s);
}

abbrev list_registry-IsRegistry : IsRegistry list_registry
list_registry-IsRegistry = record {
  held = λ s. s;
  empty_held = refl;
  makes = λ labels l. refl;
  takes = λ h s n l f. (h ∷ s, refl, refl);
}

abbrev pairs : Dict Bytes Bytes
pairs = (codes "zone", codes "a") ∷ (codes "zone", codes "b") ∷ []

zone-IsLabel : (value : Bytes) → All (λ c. c < 128) value → IsLabel (codes "zone", value)
unfolding is_name
zone-IsLabel value h = record { named = refl; ne_le = λ e. cc; ascii = h }

register_lem_example :
    (m : Mon) × (new_prometheus list_registry (codes "slave") pairs ≡ ok m)
    × (s : List Histogram) × (register list_registry m [] ≡ ok s)
    × (s ≡ onto (histograms_of m) [])
    × All (HasLabels pairs) (histograms_of m)
register_lem_example =
    register_lem list_registry (codes "slave") pairs list_registry-IsRegistry (inr refl)
      (zone-IsLabel (codes "a") (omega arith, tt), (zone-IsLabel (codes "b") (omega arith, tt), tt))

labels_runs : labels_from_key_value pairs ≡ (codes "zone", codes "b") ∷ []
unfolding labels_from insert bytes_eq
labels_runs = refl
