-- ===== src/Master/Stream/Routing.antt =====
-- internal/modes/master/server/server.go with internal/svc/events/events.go: which events reach which
-- slave.
use mathlib.Core.List.{append_assoc}
use waterhose.Prelude.{
  refl, true, List, ◌++◌, ◌≡◌, ◌↔◌, some, Bytes, codes, arith, bytes_eq_iff, take-append,
  drop-append, bytes_eq_refl,
}
use waterhose.Prelude.Int.{ℤ}
use waterhose.Structures.{Channel}
use waterhose.Irc.Slice.{trim_prefix}
use waterhose.Strconv.{itoa}
use waterhose.Strconv.RoundTrip.{IsInt, atoi-itoa}
use waterhose.Svc.Events.{
  publish_slave_channel_update, publish_twitch_chat_login, slave_channel_update_format,
  twitch_chat_login_format,
}
use waterhose.Svc.Events.Topics.{topics_lem}
use waterhose.Master.Stream.{slave_index, hears}

-- The name that Kubernetes gives to pod `i` of a stateful set.
abbrev pub pod_name : Bytes → ℤ → Bytes
pod_name statefulset_name i = statefulset_name ++ (codes "-" ++ itoa i)

slave_index-itoa :
    (statefulset_name : Bytes) (i : ℤ)
    → IsInt i
    → slave_index statefulset_name (pod_name statefulset_name i) ≡ some i
unfolding slave_index trim_prefix
slave_index-itoa name i h =
    let prefix = name ++ codes "-" in
    let whole = append_assoc name (codes "-") (itoa i) in
    rw (slave_index, ← whole)
      (rw
        (
          trim_prefix,
          take-append prefix (itoa i),
          drop-append prefix (itoa i),
          bytes_eq_refl prefix,
        )
        (atoi-itoa i h))

-- Pod `i` of the stateful set, known by the set's name, a dash and `i`, is taken for slave `i`. Of all
-- updates of slaves its stream hears those for `i`, and of all logins those of its account.
pub routing_lem :
    (statefulset_name a b : Bytes) (i j : ℤ) (channels : List Channel)
    → IsInt i
    → IsInt j
    → (slave_index statefulset_name (pod_name statefulset_name i) ≡ some i)
      × ((hears a i (publish_slave_channel_update j channels) ≡ true) ↔ (i ≡ j))
      × ((hears a i (publish_twitch_chat_login b) ≡ true) ↔ (a ≡ b))
unfolding hears
routing_lem name a b i j channels h k =
    let (updates, _, apart) = topics_lem i j a b h k in
    let (_, logins, apart') = topics_lem j i a b k h in
    let (_, _, apart_i) = topics_lem i j b b h k in
    (
      slave_index-itoa name i h,
      ground (
        arith,
        updates,
        apart',
        bytes_eq_iff (twitch_chat_login_format a) (slave_channel_update_format j),
        bytes_eq_iff (slave_channel_update_format i) (slave_channel_update_format j),
      ),
      ground (
        arith,
        logins,
        apart_i,
        bytes_eq_iff (twitch_chat_login_format a) (twitch_chat_login_format b),
        bytes_eq_iff (slave_channel_update_format i) (twitch_chat_login_format b),
      ),
    )

pub hears_login :
    (account_id : Bytes) (idx : ℤ)
    → hears account_id idx (publish_twitch_chat_login account_id) ≡ true
unfolding hears
hears_login account_id idx = rw (bytes_eq_refl (twitch_chat_login_format account_id)) refl
