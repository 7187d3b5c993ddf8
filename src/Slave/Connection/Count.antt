-- ===== src/Slave/Connection/Count.antt =====
-- internal/modes/slave/manager/connection.go: the map of channels and the atomic `length` beside it.
use waterhose.Prelude.{
  ℕ, suc, ◌+◌, ◌<◌, Bool, true, List, [], ◌∷◌, ◌≡◌, refl, ap, inl, inr, none, some, arith, Bytes,
  Option-cases, codes, ◌++◌, length, ltb, string_eq,
}
use waterhose.Prelude.Dict.{
  lookup, erase, lookup-erase_self, length-insert_new, length-insert_old, length-erase_old,
}
use waterhose.Prelude.Int.{pos, pred}
use waterhose.Structures.{PbChannel}
use waterhose.Irc.Message.{Message}
use waterhose.Irc.Client.{write}
use waterhose.Slave.Connection.{
  Channel, Connection, JoinTask, range_channels, sweep, sweep_state, twenty_minutes, join_channel,
  start_join, finish_join, part_channel, on_message, on_connect, join_requested,
}
use waterhose.Slave.Connection.Changes.{
  Keyed, Change, leaves, puts, adds, Changes, here, next, erase-Keyed, Change-Keyed,
  join_channel-Change, one, start_join-Changes, finish_join-Changes, on_message-Changes,
  on_connect-Changes,
}

-- `length` counts the channels and `extra` more, in a map with distinct keys.
pub record Sound (extra : ℕ) (c : Connection) : Type 0 where
  pub keyed : Keyed c.channels
  pub counted : c.len ≡ pos (length c.channels + extra)

Change-counted :
    {c c' : Connection} (extra : ℕ)
    → Change c c'
    → c.len ≡ pos (length c.channels + extra)
    → c'.len ≡ pos (length c'.channels + extra)
Change-counted extra (leaves e l) k = rw (e, l) k
Change-counted {c} extra (puts ch old f e l) k =
    rw (e, l, length-insert_old ch.raw.login ch old c.channels f) k
Change-counted {c} extra (adds ch f e l) k =
    rw (e, l, length-insert_new ch.raw.login ch c.channels f, k) (ap pos (omega arith))

pub Change-Sound : {c c' : Connection} (extra : ℕ) → Change c c' → Sound extra c → Sound extra c'
Change-Sound extra h s = record {
  keyed = Change-Keyed h s.keyed;
  counted = Change-counted extra h s.counted;
}

pub Changes-Sound : {c c' : Connection} (extra : ℕ) → Changes c c' → Sound extra c → Sound extra c'
Changes-Sound extra here s = s
Changes-Sound extra (next hs h) s = Change-Sound extra h (Changes-Sound extra hs s)

-- An event of a connection: a channel is joined, the two halves of a join, a message, and the
-- client's connection with Twitch.
pub data Event : Type 0 where
  joins : PbChannel → Event
  starts : JoinTask → Event
  finishes : Bool → JoinTask → Event
  message : Message → Event
  connects : List Bytes → Event

pub step : ℕ → Event → Connection → Connection
step now (joins channel) c = (join_channel now channel c).0
step now (starts t) c = start_join now t c
step now (finishes granted t) c = finish_join now granted t c
step now (message m) c = (on_message now m c).0
step now (connects logins) c = (on_connect now logins c).0

pub run : List (ℕ × Event) → Connection → Connection
run [] c = c
run ((now, e) ∷ es) c = run es (step now e c)

step-Changes : (now : ℕ) (e : Event) (c : Connection) → Keyed c.channels → Changes c (step now e c)
unfolding step
step-Changes now (joins channel) c k = one (join_channel-Change now channel c)
step-Changes now (starts t) c k = start_join-Changes now t c k
step-Changes now (finishes granted t) c k = finish_join-Changes now granted t c k
step-Changes now (message m) c k = on_message-Changes now m c k
step-Changes now (connects logins) c k = on_connect-Changes now logins c k

-- Where the keys of the map are the logins of its channels, none twice, and `length` is the
-- number of channels and `extra` more, that is so after any run of joins, messages, halves of
-- joins and reconnections, in any order.
pub run-Sound :
    (es : List (ℕ × Event)) (extra : ℕ) (c : Connection) → Sound extra c → Sound extra (run es c)
unfolding run
run-Sound [] extra c s = s
run-Sound ((now, e) ∷ es) extra c s =
    run-Sound es extra (step now e c) (Changes-Sound extra (step-Changes now e c s.keyed) s)

pred-pos : (n m extra : ℕ) → n + 1 ≡ m → pred (pos (n + 1 + extra)) ≡ pos (n + extra)
pred-pos n m extra e = rw (the-suc n extra) refl
  where
    the-suc : (n extra : ℕ) → n + 1 + extra ≡ suc (n + extra)
    the-suc n extra = omega arith

erased-Sound :
    (extra : ℕ) (login : Bytes) (ch : Channel) (c c' : Connection)
    → lookup login c.channels ≡ some ch
    → Sound extra c
    → c'.channels ≡ erase login c.channels
    → c'.len ≡ pred c.len
    → Sound extra c'
erased-Sound extra login ch c c' e s at l = record {
  keyed = rw at (erase-Keyed login c.channels s.keyed);
  counted =
      rw (at, l, s.counted, ← length-erase_old login ch c.channels e) (pred-pos _ _ extra refl);
}

-- Parting a channel that the connection has takes it out of the map, and `length` counts the
-- channels with the same surplus as before.
pub part_channel-Sound :
    (extra : ℕ) (login : Bytes) (ch : Channel) (c : Connection)
    → lookup login c.channels ≡ some ch
    → Sound extra c
    → Sound extra (part_channel login c) × (lookup login (part_channel login c).channels ≡ none)
unfolding part_channel
part_channel-Sound extra login ch c e s =
    elim (Option-cases (write (codes "PART #" ++ login) c.client)) [
      | inl off ↦
          rw (part_channel, off)
            (
              erased-Sound extra login ch c _ e s refl refl,
              lookup-erase_self login c.channels s.keyed.is_map,
            )
      | inr (client, on) ↦
          rw (part_channel, on)
            (
              erased-Sound extra login ch c _ e s refl refl,
              lookup-erase_self login c.channels s.keyed.is_map,
            )
    ]

sweep-timed_out :
    (now : ℕ) (login : Bytes) (ch : Channel) (c : Connection)
    → lookup login c.channels ≡ some ch
    → ch.state ≡ join_requested
    → ch.last_event + twenty_minutes < now
    → (sweep now (login ∷ []) c).0 ≡ record c { channels = erase login c.channels }
unfolding sweep range_channels
sweep-timed_out now login ch c e st late =
    rw
      (
        sweep,
        range_channels,
        e,
        sweep_state,
        st,
        ltb-true (ch.last_event + twenty_minutes) now late,
      )
      refl
  where
    ltb-true : (a b : ℕ) → a < b → ltb a b ≡ true
    ltb-true a b h = ground arith

-- A join request that timed out leaves the map and not `length`: where `length` counted the
-- channels and `extra` more, it counts one more than that behind the ticker.
pub sweep_timeout :
    (extra now : ℕ) (login : Bytes) (ch : Channel) (c : Connection)
    → lookup login c.channels ≡ some ch
    → ch.state ≡ join_requested
    → ch.last_event + twenty_minutes < now
    → Sound extra c
    → Sound (extra + 1) (sweep now (login ∷ []) c).0
sweep_timeout extra now login ch c e st late s = record {
  keyed = rw (sweep-timed_out now login ch c e st late) (erase-Keyed login c.channels s.keyed);
  counted =
      rw (sweep-timed_out now login ch c e st late, s.counted)
        (ap pos (omega (arith, length-erase_old login ch c.channels e)));
}
