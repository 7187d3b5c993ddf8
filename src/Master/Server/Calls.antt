-- ===== src/Master/Server/Calls.antt =====
-- internal/modes/master/server/server.go: how the calls of the service end.
use waterhose.Prelude.{
  List-cases, true, List, [], ◌∷◌, ◌≡◌, ◌≢◌, ◌∙◌, refl, sym, ap, Option, Bytes, arith, ok, panic,
  length, ◌⊎◌, inl, inr,
}
use mathlib.Core.Option
use waterhose.Structures.{Channel, PbChannel, suspended, joined, unknown}
use waterhose.Slave.Connection.{
  EventType, joined_event, suspended_event, bot_banned_event, unknown_event,
}
use waterhose.Master.Server.{
  Update, set_bot_banned, set_state, set_state_banned, Collection, CallError, Loader, Answer,
  success, answer, allocate_channels, join_channel, event_update, publish_slave_channel_event,
}

-- The loader gives one error, which may be none, for each channel.
abbrev pub IsLoader : Loader → Type 0
IsLoader loader =
    (s : loader.State) (channels : List PbChannel)
    → length (loader.load_all s channels).0 ≡ length channels

-- What an update does to a row.
abbrev pub apply_update : Update → Channel → Channel
apply_update set_bot_banned c = record c { bot_banned = true }
apply_update (set_state st) c = record c { state = st }
apply_update (set_state_banned st banned) c = record c { state = st; bot_banned = banned }

-- A collection whose rows are read by `row`: an update that succeeds changes its own row, and none
-- changes another.
pub record IsCollection (collection : Collection) (row : collection.State → Bytes → Option Channel)
    : Type 0 where
  pub own_row :
      (s : collection.State) (id : Bytes) (u : Update)
      → (collection.update_one s id u).0 ≡ true
      → row (collection.update_one s id u).1 id ≡ Option.map (apply_update u) (row s id)
  pub other_row :
      (s : collection.State) (id other : Bytes) (u : Update)
      → id ≢ other
      → row (collection.update_one s id u).1 other ≡ row s other

-- A row behind an event that a slave tells of.
abbrev pub noted : EventType → PbChannel → Channel → Channel
noted joined_event channel c = record c { state = joined; bot_banned = channel.bot_banned }
noted suspended_event channel c = record c { state = suspended }
noted bot_banned_event channel c = record c { bot_banned = true }
noted unknown_event channel c = record c { state = unknown }

empty : {A : Type 0} (xs : List A) → length xs ≡ 0 → xs ≡ []
empty [] e = refl
empty (x ∷ xs) e = absurd (omega (arith, e))

module _ (loader : Loader) (l : IsLoader loader) where
  -- `AllocateChannels` panics for no channels, and else gives the error of the first.
  Allocates : loader.State → List PbChannel → Type 0
  Allocates s channels =
      ((channels ≡ []) × (allocate_channels loader s channels ≡ panic))
      ⊎ ((e : Option CallError) × (es : List (Option CallError)) × ((loader.load_all s channels).0
            ≡ e ∷ es)
          × (allocate_channels loader s channels ≡ ok (e, (loader.load_all s channels).1)))

  allocate_channels-Allocates :
      (s : loader.State) (channels : List PbChannel) → Allocates s channels
  unfolding Allocates allocate_channels
  allocate_channels-Allocates s channels = elim (List-cases (loader.load_all s channels).0) [
    | inl f ↦
        inl (empty channels (sym (l s channels) ∙ ap length f), rw (allocate_channels, f) refl)
    | inr (e, es, f) ↦ inr (e, es, f, rw (allocate_channels, f) refl)
  ]

  -- `JoinChannel` panics for a request without channels, and answers with the error of the first
  -- channel else, whatever the errors of the others.
  pub join_channel_lem :
      (s : loader.State) (channels : List PbChannel)
      → ((channels ≡ []) × (join_channel loader s channels ≡ panic))
        ⊎ ((e : Option CallError) × (es : List (Option CallError)) × ((loader.load_all s channels).0
              ≡ e ∷ es)
            × (join_channel loader s channels ≡ ok (answer e, (loader.load_all s channels).1)))
  unfolding join_channel Allocates
  join_channel_lem s channels = elim (allocate_channels-Allocates s channels) [
    | inl (none_asked, p) ↦ inl (none_asked, rw (join_channel, p) refl)
    | inr (e, es, f, p) ↦ inr (e, es, f, rw (join_channel, p) refl)
  ]

  module _ (collection : Collection) (row : collection.State → Bytes → Option Channel)
      (rows : IsCollection collection row) where
    -- `PublishSlaveChannelEvent` does not panic. It succeeds for every event but that of an unknown
    -- channel, which answers as the allocation of the channel does. The row of the channel is as the
    -- event says if the update succeeds, and no other row changes.
    pub publish_slave_channel_event_lem :
        (event : EventType) (channel : PbChannel) (m : collection.State) (s : loader.State)
        → (a : Answer) × (m' : collection.State) × (s' : loader.State)
          × (publish_slave_channel_event loader collection event channel m s ≡ ok (a, m', s'))
          × (event ≢ unknown_event → (a ≡ success) × (s' ≡ s))
          × ((collection.update_one m channel.id (event_update loader collection event channel)).0
                ≡ true
              → row m' channel.id ≡ Option.map (noted event channel) (row m channel.id))
          × ((other : Bytes) → channel.id ≢ other → row m' other ≡ row m other)
    unfolding publish_slave_channel_event Allocates
    publish_slave_channel_event_lem joined_event channel m s = (
      _,
      _,
      _,
      refl,
      λ _. (refl, refl),
      rows.own_row m channel.id _,
      λ other. rows.other_row m channel.id other _,
    )
    publish_slave_channel_event_lem suspended_event channel m s = (
      _,
      _,
      _,
      refl,
      λ _. (refl, refl),
      rows.own_row m channel.id _,
      λ other. rows.other_row m channel.id other _,
    )
    publish_slave_channel_event_lem bot_banned_event channel m s = (
      _,
      _,
      _,
      refl,
      λ _. (refl, refl),
      rows.own_row m channel.id _,
      λ other. rows.other_row m channel.id other _,
    )
    publish_slave_channel_event_lem unknown_event channel m s =
        elim (allocate_channels-Allocates s (channel ∷ [])) [
          | inl (none_asked, _) ↦ absurd (cc)
          | inr (e, es, f, p) ↦ (
            answer e,
            (collection.update_one m channel.id (set_state unknown)).1,
            (loader.load_all s (channel ∷ [])).1,
            rw (publish_slave_channel_event, p) refl,
            λ h. elim (h refl) [ ],
            rows.own_row m channel.id _,
            λ other. rows.other_row m channel.id other _,
          )
        ]
