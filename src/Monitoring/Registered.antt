-- ===== src/Monitoring/Registered.antt =====
-- internal/monitoring/prom.go: what is registered in each mode.
use waterhose.Prelude.{
  ℕ, Bool, true, ◌&&◌, ◌||◌, ◌==◌, ◌<◌, leb, List, [], ◌∷◌, false, Option, none, some, ◌≡◌, ◌≢◌,
  refl, sym, ap, ◌∙◌, ◌⊎◌, inl, inr, Bytes, codes, bytes_eq, bytes_eq_iff, string_eq, ok, All,
  arith, if◌then◌else◌, Bool-cases, if_both,
}
use waterhose.Prelude.Dict.{Dict, lookup, insert, lookup-insert}
use waterhose.Monitoring.{
  labels_from, labels_from_key_value, Histogram, Mon, new_histogram, new_prometheus, Registry,
  must_register, register,
}

is_letter : ℕ → Bool
is_letter c = (leb b'a' c && leb c b'z') || (leb b'A' c && leb c b'Z')

is_name_byte : ℕ → Bool
is_name_byte c = is_letter c || (leb b'0' c && leb c b'9') || c == b'_'

all_name_bytes : Bytes → Bool
all_name_bytes [] = true
all_name_bytes (c ∷ cs) = is_name_byte c && all_name_bytes cs

-- A letter, and letters, digits and `_` behind it: a name that metrics and labels may have.
unfoldable pub is_name : Bytes → Bool
unfolding is_letter is_name_byte all_name_bytes
is_name [] = false
is_name (c ∷ cs) = is_letter c && all_name_bytes cs

-- A label of a histogram: its name is one, and not `le`, which names the buckets; its value is ASCII.
pub record IsLabel (label : Bytes × Bytes) : Type 0 where
  pub named : is_name label.0 ≡ true
  pub ne_le : label.0 ≢ codes "le"
  pub ascii : All (λ c. c < 128) label.1

-- The documented behaviour of `NewHistogram`, which panics for the label `le`, and of a registry, which
-- takes a histogram with a proper name that it has not seen, and with proper labels.
pub record IsRegistry (r : Registry) : Type 1 where
  pub held : r.State → List Histogram
  pub empty_held : held r.empty ≡ []
  pub makes :
      (labels : Dict Bytes Bytes) → All IsLabel labels → r.new_histogram_returns labels ≡ true
  pub takes :
      (h : Histogram) (s : r.State)
      → is_name h.name ≡ true
      → All IsLabel h.labels
      → All (λ g. g.name ≢ h.name) (held s)
      → (s' : r.State) × (r.register h s ≡ some s') × (held s' ≡ h ∷ held s)

-- The value of the last pair with a key, or that of a map behind the pairs.
abbrev pub last_value : Bytes → Dict Bytes Bytes → Option Bytes → Option Bytes
last_value key [] before = before
last_value key ((k, value) ∷ pairs) before =
    last_value key pairs (if bytes_eq k key then some value else before)

labels_from_lem :
    (pairs labels : Dict Bytes Bytes) (key : Bytes)
    → lookup key (labels_from pairs labels) ≡ last_value key pairs (lookup key labels)
unfolding labels_from
labels_from_lem [] labels key = refl
labels_from_lem ((k, value) ∷ pairs) labels key =
    rw (sym (lookup-insert k key value labels)) (labels_from_lem pairs (insert k value labels) key)

-- Histograms with proper names and labels, whose names are new to what is held, one after the other.
abbrev Fresh : List Histogram → List Histogram → Type 0
Fresh [] held = Unit
Fresh (h ∷ hs) held =
    (is_name h.name ≡ true)
    × All IsLabel h.labels
    × All (λ g. g.name ≢ h.name) held
    × Fresh hs (h ∷ held)

abbrev pub onto : List Histogram → List Histogram → List Histogram
onto [] held = held
onto (h ∷ hs) held = onto hs (h ∷ held)

must_register_lem :
    (r : Registry) (law : IsRegistry r) (hs : List Histogram) (s : r.State) (held : List Histogram)
    → law.held s ≡ held
    → Fresh hs held
    → (s' : r.State) × (must_register r hs s ≡ ok s') × (law.held s' ≡ onto hs held)
unfolding must_register
must_register_lem r law [] s held l f = (s, refl, l)
must_register_lem r law (h ∷ hs) s held l f =
    let (s1, e1, l1) = law.takes h s f.0 f.1 (rw l f.2) in
    let (s2, e2, l2) = must_register_lem r law hs s1 (h ∷ held) (l1 ∙ ap (◌∷◌ h) l) f.3 in
    (s2, rw (e1, must_register) e2, l2)

-- The histograms of each mode, in the order in which they are registered.
abbrev pub histograms_of : Mon → List Histogram
histograms_of m =
    if bytes_eq m.mode (codes "master")
    then m.total_channels ∷ []
    else m.total_channels_banned_in ∷ m.total_channels_suspended ∷ m.total_channels_connected_to
      ∷ []

-- The labels of a histogram are the last pairs of the configuration with each key.
abbrev pub HasLabels : Dict Bytes Bytes → Histogram → Type 0
HasLabels pairs h = (key : Bytes) → lookup key h.labels ≡ last_value key pairs none

has_labels :
    (pairs : Dict Bytes Bytes) (key : Bytes)
    → lookup key (labels_from_key_value pairs) ≡ last_value key pairs none
unfolding lookup
has_labels pairs key = labels_from_lem pairs [] key

not_same : (s t : Bytes) → bytes_eq s t ≡ false → s ≢ t
not_same s t h e = absurd (ground (arith, bytes_eq_iff s t))

insert-IsLabel :
    (k value : Bytes) (labels : Dict Bytes Bytes)
    → IsLabel (k, value)
    → All IsLabel labels
    → All IsLabel (insert k value labels)
unfolding insert
insert-IsLabel k value [] l h = (l, tt)
insert-IsLabel k value ((i, w) ∷ labels) l h = elim (Bool-cases (bytes_eq i k)) [
  | inl y ↦ rw (y, insert) (l, h.1)
  | inr n ↦ rw (n, insert) (h.0, insert-IsLabel k value labels l h.1)
]

labels_from-IsLabel :
    (pairs labels : Dict Bytes Bytes)
    → All IsLabel pairs
    → All IsLabel labels
    → All IsLabel (labels_from pairs labels)
unfolding labels_from
labels_from-IsLabel [] labels h k = k
labels_from-IsLabel ((key, value) ∷ pairs) labels h k =
    labels_from-IsLabel pairs (insert key value labels) h.1 (insert-IsLabel key value labels h.0 k)

-- What `NewPrometheus` makes where no histogram panics.
abbrev pub mon_of : Bytes → Dict Bytes Bytes → Mon
mon_of mode labels = record {
  mode = mode;
  total_channels = record {
    name = codes "total_channels";
    labels = labels;
    help = codes "The total number of channels";
  };
  total_channels_banned_in = record {
    name = codes "total_channels_banned_in";
    labels = labels;
    help = codes "The total number of channels the bot is banned in";
  };
  total_channels_suspended = record {
    name = codes "total_channels_suspended";
    labels = labels;
    help = codes "The total number of channels suspended";
  };
  total_channels_connected_to = record {
    name = codes "total_channels_connected_to";
    labels = labels;
    help = codes "The total number of channels connected to";
  };
  total_messages = record {
    name = codes "total_messages";
    labels = labels;
    help = codes "The total number of messages";
  };
}

new_prometheus_lem :
    (r : Registry) (mode : Bytes) (pairs : Dict Bytes Bytes)
    → r.new_histogram_returns (labels_from_key_value pairs) ≡ true
    → new_prometheus r mode pairs ≡ ok (mon_of mode (labels_from_key_value pairs))
unfolding new_prometheus new_histogram
new_prometheus_lem r mode pairs h = rw h refl

histograms_Fresh :
    (mode : Bytes) (labels : Dict Bytes Bytes)
    → All IsLabel labels
    → Fresh (histograms_of (mon_of mode labels)) []
unfolding bytes_eq is_name
histograms_Fresh mode labels l =
    if_both (λ hs. Fresh hs []) (bytes_eq mode (codes "master")) (refl, l, tt, tt)
      (
        refl,
        l,
        tt,
        (
          refl,
          l,
          (not_same _ _ refl, tt),
          (refl, l, (not_same _ _ refl, (not_same _ _ refl, tt)), tt),
        ),
      )

histograms_HasLabels :
    (mode : Bytes) (pairs : Dict Bytes Bytes)
    → All (HasLabels pairs) (histograms_of (mon_of mode (labels_from_key_value pairs)))
histograms_HasLabels mode pairs =
    let l = has_labels pairs in
    if_both (All (HasLabels pairs)) (bytes_eq mode (codes "master")) (l, tt) (l, (l, (l, tt)))

register_mode :
    (r : Registry) (m : Mon) (s : r.State)
    → (m.mode ≡ codes "master") ⊎ (m.mode ≡ codes "slave")
    → register r m s ≡ must_register r (histograms_of m) s
unfolding register
register_mode r m s o = elim (Bool-cases (bytes_eq m.mode (codes "master"))) [
  | inl y ↦ rw y refl
  | inr n ↦ elim o [
    | inl e ↦ absurd (not_same _ _ n e)
    | inr e ↦ rw (n, (bytes_eq_iff m.mode (codes "slave")).1 e) refl
  ]
]

-- In both modes, and where the labels of the configuration are proper, `NewPrometheus` does not panic,
-- and an empty registry takes the histograms of the mode without a panic and then holds exactly these;
-- the labels of each are those of the last pairs of the configuration with their key.
pub register_lem :
    (r : Registry) (mode : Bytes) (pairs : Dict Bytes Bytes) (law : IsRegistry r)
    → (mode ≡ codes "master") ⊎ (mode ≡ codes "slave")
    → All IsLabel pairs
    → (m : Mon) × (new_prometheus r mode pairs ≡ ok m)
      × (s : r.State) × (register r m r.empty ≡ ok s)
      × (law.held s ≡ onto (histograms_of m) [])
      × All (HasLabels pairs) (histograms_of m)
register_lem r mode pairs law o proper =
    let labels = labels_from_key_value pairs in
    let m = mon_of mode labels in
    let l = labels_from-IsLabel pairs [] proper tt in
    let (s, e, k) =
      must_register_lem r law (histograms_of m) r.empty [] law.empty_held
        (histograms_Fresh mode labels l) in
    (
      m,
      new_prometheus_lem r mode pairs (law.makes labels l),
      s,
      register_mode r m r.empty o ∙ e,
      k,
      histograms_HasLabels mode pairs,
    )
