-- ===== src/Lib.antt =====
-- waterhose keeps a fleet of Twitch chat connections: a master allocates channels to slaves, and
-- each slave joins its channels over pooled IRC connections and passes the chat on over Redis.
-- This library models the parts that carry the program's own logic.
--
-- The parts, and the files that model them:
--
-- - internal/modes/slave/irc/irc.go: Irc/Slice.antt has what it uses of Go's slices and of the
--   package strings, Irc/Message.antt the types of message and `ToMessageType`, Irc/Tags.antt
--   `ParseTags`, Irc/Parse.antt `ParseMessage`. Strings are lists of bytes. A slice or an index
--   out of range is `panic`, and the error of `ParseTags` is `ok none`.
-- - internal/modes/slave/irc/client.go and error-channel.go: Irc/Client.antt has the state of a
--   client and the rounds of `read`, `write` and `pinger` as steps, with the two ends of `init`.
--   What the socket answers is an argument. Irc/Client/Session.antt puts the steps in sequences,
--   Irc/Client/Goroutines.antt those of a whole session, with the end of each goroutine.
-- - internal/modes/slave/manager/connection.go: Slave/Connection.antt has the map of channels
--   with its `length`, `JoinChannel` with its goroutine as a task in two halves, `PartChannel`,
--   `onMessage`, `onConnect` and the ticker. A step takes the time, and what it does outside
--   (publications, `go JoinChat`) is a list of actions in its result. It uses `write` of the
--   client.
-- - internal/modes/slave/manager/manager.go: Slave/Manager.antt has `JoinChat`, `PartChat`,
--   `SetLoginCreds` and `newConn`, over the operations of Connection. A nil connection is
--   `panic`.
-- - internal/svc/autoscaler/autoscaler.go: Svc/AutoScaler.antt has the loops of `Fetch` over the
--   users, Svc/AutoScaler/Fetch.antt the whole batch, with the ids that it asks for in
--   Svc/AutoScaler/Fetch/Ids.antt, Svc/AutoScaler/Rescale.antt the retries against MongoDB and
--   Kubernetes, Svc/AutoScaler/Load.antt the loop of `Load` and `GetChannelsForSlave`,
--   Svc/AutoScaler/Startup.antt `Load` as a whole; Svc/AutoScaler/Order.antt forgets the order of
--   the maps.
-- - internal/svc/redis/redis.go: Svc/Redis.antt has the two rate limits, over a Redis server that
--   is a parameter; Svc/Redis/Window.antt states them for one window.
-- - internal/svc/twitch/twitch.go: Svc/Twitch.antt has the batch of the user loader and
--   `GetUsers`, Svc/Twitch/Login.antt `GetOAuth` and the form of a login in Redis,
--   Svc/Twitch/Users.antt and Svc/Twitch/Login/Kept.antt what they give; System/Batch.antt puts
--   the autoscaler over it. It uses Strconv.antt, Go's numbers in decimal.
-- - internal/svc/ratelimiter/ratelimiter.go: Svc/RateLimiter.antt has a tick of `Start` and the
--   two parts of `RequestJoin`, over a priority queue that is a parameter.
-- - internal/svc/events/events.go: Svc/Events.antt has the topics and the publications.
-- - internal/modes/master/http/http.go: Master/Http.antt has the routes and the handlers, each
--   with its response, what it asks of Twitch and the logins that it publishes.
--   Master/Http/Session.antt follows a login into `GetOAuth`, and System/Login.antt to the
--   slaves.
-- - internal/modes/master/server/server.go: Master/Stream.antt has `RegisterSlave` as a machine
--   over its two channels of events, with a relation for its steps; Master/Server.antt has the
--   other calls, and `AllocateChannels`.
-- - internal/modes/slave/client/client.go: Slave/Client.antt has what a slave does with each
--   message, over the manager, and the loop over streams. System/Slave.antt and
--   System/Delivery.antt put it behind a stream of the master, and System/Rows.antt follows what
--   it publishes into the rows of the master.
-- - internal/modes/slave/manager/connection.go, the loops that dial: Slave/Connection/Dial.antt,
--   over the rate limit of Svc/Redis.antt.
-- - internal/modes/modes.go, internal/modes/slave/slave.go, internal/configure/config.go:
--   Start.antt has the modes, the order in which `setupGlobal` makes the instances, and the end
--   of a slave.
-- - internal/modes/master/master.go: Start/Servers.antt has the goroutines of `New` as a machine,
--   with its wait group; Start/Servers/Ends.antt states when its channel is closed.
-- - cmd/main.go: Start/Process.antt has `main`, up to its goroutines and then as a machine over
--   what the mode runs, which is an interface (`App`, `AppLaws`); System/Shutdown.antt gives it
--   the servers of the master, and System/SlaveExit.antt those of a slave, which
--   Start/SlaveServers.antt has.
-- - internal/global/context.go: Start/Context.antt has the contexts, and
--   Start/Context/Derived.antt what derived ones keep.
-- - internal/configure/config.go, `BindEnvs` and `Config`, and logging.go: Configure.antt, over
--   the slices of Configure/Slices.antt, which share their arrays as Go's do; Configure/Keys.antt
--   and Configure/Distinct.antt have the keys.
-- - internal/monitoring/prom.go: Monitoring.antt has the histograms, their labels and the
--   registration.
-- - internal/structures/mongo.go: Structures.antt, with the messages of other packages.
--
-- Prelude.antt and the files below it have the shared notation: maps as association lists
-- (Prelude/Dict.antt), results that may panic (Prelude/Outcomes.antt), integers with their
-- wrap-around to 32 and 64 bits (Prelude/Int.antt), and lists over the native numbers.
--
-- Bounds and fuel: the loops of `Fetch` for one user have fuel for two rounds more than there are
-- edges, which is enough where the limit is at least one and there are fewer than 2^31 edges,
-- since each edge is passed at most once and at most one is appended. The retries have fuel for
-- twelve rounds (MongoDB, at most eleven attempts) and 22 (Kubernetes, at most 21), since the
-- program stops at the next.
--
-- The fuel of `getNewConnection` and `onReconnect` is any number, since they ask until Redis
-- gives a permit, which is not said to come.
--
-- What other packages do is a parameter with named hypotheses: a Redis server in a window
-- (`IsWindow`) and as a store (`IsStore`), JSON (`IsCodec`), a stateful set (`IsCluster`), a
-- collection of MongoDB (`IsCollection`), the data loader (`IsLoader`), the priority queue
-- (`IsQueue`) and the histograms and the registry of Prometheus (`IsRegistry`).
--
-- Not modelled: the interleaving of two calls of the manager for one channel; that a sender waits
-- on a full channel; the batching of the data loader; the queries of `Load`, whose answers are
-- arguments; the wrappers of client libraries (internal/svc/k8s, internal/svc/mongo), the flags
-- and files of the configuration and what Viper does with a key, and the servers of health and
-- metrics, which are input and output.
pub mod Prelude
pub mod Structures
pub mod Strconv
pub mod Irc
pub mod Svc
pub mod Slave
pub mod Master
pub mod System
pub mod Start
pub mod Configure
pub mod Monitoring
