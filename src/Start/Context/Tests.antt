-- ===== src/Start/Context/Tests.antt =====
-- A context with a deadline and a value at concrete settings.
use waterhose.Prelude.{true, false, ◌≡◌, refl, some, List, [], ◌∷◌, codes, bytes_eq}
use waterhose.Start.{Config}
use waterhose.Start.Context.{World, background, is_done, deadline, value, as_context, new_context}
use waterhose.Start.Context.Derived.{
  Derivation, cancels, values, timeouts, derive_all, any_ends, soonest, latest, derive_all_lem,
}

abbrev config : Config
config = record {
  mode = codes "master";
  k8s_enabled = false;
  health_enabled = false;
  monitoring_enabled = false;
}

abbrev derivations : List Derivation
derivations = timeouts 2 5 10 ∷ values (codes "k") (codes "v") ∷ cancels 1 ∷ []

abbrev world : World
world = record { called = λ n. false; now = 20 }

derive_all_lem_example :
    let g = derive_all derivations (new_context 7 background config) in
    (g.config ≡ config)
    × (g.inst ≡ 7)
    × (is_done world (as_context g) ≡ any_ends world derivations (is_done world background))
    × (deadline (as_context g) ≡ soonest derivations (deadline background))
    × (value (codes "k") (as_context g)
        ≡ latest (codes "k") derivations (value (codes "k") background))
derive_all_lem_example = derive_all_lem derivations 7 background config world (codes "k")

derive_all_runs :
    let g = as_context (derive_all derivations (new_context 7 background config)) in
    (is_done world g ≡ true) × (deadline g ≡ some 15) × (value (codes "k") g ≡ some (codes "v"))
unfolding derive_all is_done deadline value bytes_eq
derive_all_runs = (refl, refl, refl)
