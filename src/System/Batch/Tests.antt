-- ===== src/System/Batch/Tests.antt =====
-- A batch over the user loader at concrete inputs.
use waterhose.Prelude.{
  true, false, List, [], ◌∷◌, ◌≡◌, refl, Option, none, some, Bytes, codes, arith,
}
use mathlib.Core.List.{append-nil}
use waterhose.Prelude.Int.{ℤ, pos}
use waterhose.Structures.{PbChannel}
use waterhose.Svc.AutoScaler.{new}
use waterhose.Svc.AutoScaler.Invariant.{new-Inv}
use waterhose.Svc.AutoScaler.Rescale.{K8sApi}
use waterhose.Svc.AutoScaler.Rescale.Retries.{IsCluster}
use waterhose.Svc.AutoScaler.Fetch.{Setting, fetch}
use waterhose.Svc.AutoScaler.Fetch.Correct.{Correct}
use waterhose.Svc.Twitch.{Answers, fetch_users}
use waterhose.Svc.Twitch.Users.{keys_of}
use waterhose.System.Batch.{over_twitch, AllFail, fetch-get_users}

abbrev cluster : K8sApi
cluster = record {
  State = Option ℤ;
  get_stateful_set = λ s. (some s, s);
  update_stateful_set = λ s n. (true, some n);
}

cluster-IsCluster : IsCluster cluster (λ s. s)
cluster-IsCluster = record { get_reads = λ s r e. cc; update_sets = λ s n e. refl }

abbrev setting : Setting
setting = record {
  limit = 1;
  enabled = true;
  users = λ ids. [];
  answers = λ n. true;
  k8s = cluster;
}

abbrev found : Answers
found = record {
  client_made = true;
  stored_token = none;
  app_token = some (codes "t");
  token_kept = true;
  users = λ token ids. some (record { id = codes "7"; login = codes "bot" } ∷ []);
}

-- The ids in one batch, with the same answers.
abbrev plan : Answers → List Bytes → List (Answers × List Bytes)
plan a ids = (a, ids) ∷ []

abbrev bot : PbChannel
bot = record {
  id = codes "7";
  login = codes "bot";
  priority = pos 1;
  use_anonymous = false;
  bot_banned = false;
}

plan-keys : (ids : List Bytes) → keys_of (plan found ids) ≡ ids
plan-keys ids = append-nil ids

fetch-get_users_example :
    Correct
      (over_twitch setting (plan found))
      (λ s. s)
      (bot ∷ [])
      new
      (fetch (over_twitch setting (plan found)) new none (bot ∷ []))
fetch-get_users_example =
    fetch-get_users setting (λ s. s) (plan found) new none (bot ∷ []) cluster-IsCluster plan-keys
      (omega arith) new-Inv (omega arith)

abbrev offline : Answers
offline = record found { client_made = false }

offline-AllFail : (ids : List Bytes) → AllFail (plan offline ids)
unfolding fetch_users
offline-AllFail ids = (refl, tt)
