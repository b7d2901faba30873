-- ===== src/Lib.antt =====
-- OrbMQ, an MQTT 3.1.1 broker in Go: a model of its core packages.
--
-- The program. `internal/server` reads packets from connections with `internal/protocol`, keeps
-- the subscriptions of all clients in the tree of `internal/topic`, which `internal/broker` owns
-- together with the retained messages, and hands QoS 1 messages to the queues of
-- `internal/session`, from which a connection takes them to send. What is modelled:
--
--   Base        names, Boolean tests, lists, texts and maps that the other files share
--   Topic       internal/topic. Topic/Parse is parse.go (splitFilter, splitTopic, MatchFilter,
--               CoversFilter), Topic/Tree is tree.go (Subscribe, Unsubscribe, UnsubscribeAll,
--               Clone, Match). Parse/Split and Parse/Covers hold the theorems on texts;
--               Tree/Lookup and Tree/Subscribed those on changes of the tree, Tree/Built the trees
--               that the operations build, Tree/Match and Tree/Delivery those on Match.
--   Session     internal/session. Session/Limits and Session/State are the data of queue.go and
--               store.go, Session/Queue is queue.go (Admit, BeginDelivery, PauseDelivery,
--               ResumeDelivery, Next, Ack). Queue/Entries, Send and Ids hold lemmas, Queue/Stamp
--               those on the bytes of a copy, Queue/Invariant the invariant of a session with
--               Admit and BeginDelivery, Queue/Selects and Queue/Progress Next, Queue/Acknowledge
--               Ack. Session/Subscriptions and Session/Store
--               are store.go: the methods of a session that concern its subscriptions and its
--               connection, and the map of sessions (NewWithLimits, Get, GetOrCreateOwned, Delete,
--               Expire, ExpireSession, the snapshots). Store/Accounts, Deliveries and Methods say
--               what a method moves in the totals, Store/Invariant and Lifetimes hold the
--               invariant of the store, Store/Reachable its runs.
--   Protocol    internal/protocol. Packet, Wire, Decoder and Encoder are packet.go, wire.go,
--               decoder.go and encoder.go; Reader is what they use of Go's readers.
--               Length holds the theorem on the remaining length, Encoded what an encoding is.
--   Broker      internal/broker: broker.go (Subscribe, Unsubscribe, UnsubscribeAll, Publish,
--               RetainedMatching, updateRetained). Broker/Retained holds the theorem on the limits,
--               Broker/Reachable the runs of the operations.
--   Auth        internal/auth. Auth/Password is password.go, Auth/Local is local.go (New,
--               Authenticate, CanUseClientID, CanPublish, CanSubscribe). Auth/Policy holds the
--               theorems on what a policy allows, Auth/Credentials those on passwords.
--   Client      internal/client: client.go, the queue of a connection (Enqueue, Close,
--               SetWriteTimeout) and the rounds of writeLoop; Client/Order is the order of writes and
--               of their bytes on the connection.
--   Server      internal/server. Server/Connections is the admission of connections in server.go
--               (connectionGroup), with Connections/Bounds; Server/Templates the encodings that
--               the subscribers of a message share, with Templates/Offset. Server/Sessions is
--               openSession, acquireConnection, closeSession, the tick of startSessionExpiry, and
--               the filters of handleSubscribe and handleUnsubscribe with canSubscribe of
--               security.go. Sessions/Stored, Expiry, Held, Routes and Quiet say what each call
--               does to the subscriptions that the store and the broker hold and to the sessions
--               that connections hold; Sessions/Coherent, Acquire and Filters what the functions
--               of the server keep, Sessions/Serves the states that its steps lead to,
--               Sessions/Ownership whose session a connection gets, and Sessions/Reaches where the
--               subscriptions that Match returns lead. Server/Security is the rest of security.go
--               (authenticateConnect, rejectConnection, canPublish), with Security/Admission.
--               Server/Delivery is publishMessage and deliverPublishToSubscriber, and
--               Delivery/Steps is about them as steps of the server, Delivery/Fills, Spares and
--               Offers about what one delivery does to the totals, to other sessions and to its
--               own, Delivery/Loop and Once about a whole message.
--
-- How the model stands to the code. A Go string or slice of bytes is a list of numbers. A map is an
-- association list; where Go ranges over a map, the model takes the order of the list, and no
-- theorem states that order. A pointer that two structures share is a number, its address: the
-- queue of a session and its map of messages in flight share entries so. A method is a function
-- from the state to its result and the new state; the source runs each of them under one lock, so
-- an interleaving of calls is a sequence of them. A method of a session sees the session and the
-- totals of its store. A limit is a natural number: validation refuses negative ones. Counts held
-- in an int are not bounded; the uint16 identifiers and the uint64 epochs wrap. A session that was
-- deleted is still an object that a connection holds: the sessions stand in a heap, and the map of
-- the store holds their addresses. A time is a natural number; 0 is the zero time.
--
-- The server's functions run under its lock on the registry of connections, so a state of the server
-- is reached by a sequence of them; the filters of one packet are steps of their own, since the
-- handlers of other clients run between them. SetSubscription and the broker's Subscribe for one
-- filter are one step: only the connection that holds a session asks for its filters, and a session
-- that a registered connection holds is neither deleted nor expired in between. A connection that
-- waits for another to leave is a round of acquireConnection that answers so.
--
-- Parameters. `Auth.Password.Crypto` stands for `pbkdf2.Key` and `base64.StdEncoding`; `IsCrypto`
-- says that decoding inverts encoding, that encoded text has no `$`, and that a key has the length
-- asked for. The publish encoder, which is a field of the server, is an argument of the templates.
-- What a connection answers to a write, and whether a context has ended, are arguments too.
--
-- Fuel. The search for a packet identifier in Next runs 65,536 rounds, one more than there are
-- identifiers. It finds one while fewer than 65,535 are in flight, which the validated limits see
-- to; a search that found none would be the outcome `exhausted`. The loop of a decoder over the
-- rest of a body runs one round for each byte that is left. The loop of the remaining length has
-- four rounds, as in the source, and so has the encoder's, whose lengths have four groups at most.
-- The loop of encodedLengthSize has ten rounds, for an int has ten groups of seven bits at most.
--
-- What is not modelled: handlePacket, the retained messages of handleSubscribe, the loop that takes
-- deliveries from a session to its client, and the sockets, goroutines, timers and metrics (the rest
-- of internal/server, internal/observation), the
-- configuration of internal/config, the commands of cmd, and the pool of slices in
-- internal/topic/pool.go, which only reuses memory. That a comparison of keys takes the same time
-- for all of them is no matter of its value.
pub mod Base
pub mod Topic
pub mod Session
pub mod Protocol
pub mod Broker
pub mod Auth
pub mod Client
pub mod Server
