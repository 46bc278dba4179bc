-- ===== src/Lib.antt =====
-- LAN IM (lan-im-go): a chat server whose gateways hand messages to Kafka, where a sequencer
-- numbers them, a relay publishes them, and the gateways' hubs send them to the connected clients.
--
-- The parts and their files:
--   Events (contracts/events/message.go): `marshal` and `unmarshal` are Marshal and Unmarshal, over
--     the protobuf and the legacy JSON format. An instant is its distance from 1970 in nanoseconds.
--   Sequencer (services/messages/sequencer/sequencer.go): `assign` is Sequencer.Assign, one atomic
--     step under its mutex; `assign_all` is a sequence of calls. Numbering is about single calls,
--     History about the list of all messages that were numbered.
--   Retry (services/messages/sequencer/pipeline.go): `retry` is Retry; each round of its loop is
--     decided by an `Attempt`.
--   Consumer (services/messages/sequencer/batch.go): `consume_batches` is consumeBatches for any
--     handler; `collect` is its inner loop, and a `Round` holds the answers of kafka-go and of the
--     contexts in one round of the outer loop.
--   Pipeline (services/messages/sequencer/batch.go, relay_batch.go, pipeline.go): `run_batched` and
--     `relay_batched` are RunBatched and RelayBatched, which join the three parts above;
--     `run_record` is the body of Run.
--   Producer (services/messages/producer/producer-kafka.go): `handle_incoming_message_at` and `close` are
--     calls of HandleIncomingMessageAt and Close, `step` is what the goroutine of run does up to its
--     next select; `run` is any interleaving of these.
--   Archiver (services/messages/archiver/worker-kafka.go): `run` is Worker.Start, `flush` its closure;
--     a `Pass` holds the answers of the environment in one pass of the loop.
--   Hub (services/gateway/websocket/hub.go and the parts of client.go it calls): `register`,
--     `unregister`, `update_rooms`, `join_room`, `leave_room`, `disband_room`, `publish` and
--     `dispatch_message` are the methods of Hub; the clients are a heap, and each method is one step.
--     Hub/State has the data, Hub/Dispatch the last two methods with what they call; the tasks of a dispatch take turns
--     in any order, which is an argument. In Hub/Loop,
--     `run_forward` and `run_kill` are the cases of a shard's run, and `on_broadcast` is the body of StartGlobalListener;
--     `run_hub` is any sequence of these and of the methods.
--   Socket (services/gateway/websocket/client.go): `read_pump` and `write_pump` are the loops of ReadPump
--     and WritePump over what their reads and selects find; ReadPump ends in the hub's Unregister, and
--     what it hands over is a call of the producer.
--   Login (services/auth/security/login_protector.go): `allow` is LoginProtector.Allow;
--     `begin_compare` and `end_compare` are the two ends of Compare.
--   Rooms (services/rooms/application/service.go): `create_room`, `join_room`, `remove_member`,
--     `room_members`, `search_rooms` and `disband_room` are the methods of Service, over the interface
--     `Repositories` of the database and a list of what the runtime was told. Rooms/Api (services/rooms/api/module.go)
--     has the handlers, as functions of the parsed parameters.
--   Roles (shared/auth/roles.go): `has_permission`, `is_admin_role`, `role_name`.
--   Access (shared/auth/jwt.go, shared/http/middleware): `generate_token`, `parse_token` and the middlewares
--     of the routes as functions of the request's context, run in turn by `run_chain`.
--   Admin (services/admin/application/user_service.go, room_service.go, services/admin/api):
--     `apply_user_action` and `apply_room_action` are the ApplyAction of the two services, over the interface
--     `Backend` of the database and the runtime; `post_user_action` and `post_room_action` are their routes,
--     middlewares included.
--   AdminFiles (services/admin/application/file_service.go): `delete_file`, `scan_anomalies` and `cleanup_orphans` are
--     DeleteFile, ScanAnomalies and CleanupOrphans, over a `FileBackend`.
--   AgentConfig (services/admin/application/agent_config_service.go): `update_config` and `rollback_config` are Update
--     and Rollback, over a `Database`; `store_config` is the transaction of both.
--   Accounts (services/gateway/handlers/auth_handler.go, services/admin/api/admin_auth.go): `login_handler`,
--     `admin_login` and `register_handler` are LoginHandler, AdminLogin and RegisterHandler, over the users' table,
--     bcrypt and the login protector; the token they give is Access's.
--   RoomEvents (services/rooms/events/redis_notifier.go, services/gateway/websocket/room_events.go): `event_of` and
--     `publish` are the notifier that Rooms tells of its changes, `listen` is the loop of StartRoomEventListener,
--     whose calls are those of Hub.
--   Online (cache/redisconfig.go): the entries that tell on which connection a user is online, in a Redis with a clock;
--     `set_user_connection_online`, `set_user_connection_offline` and `renew_user_connection_online` are the functions
--     of these names with the scripts that they run.
--   Messages (services/messages/models, repository, api/history_handler.go, cache/redisconfig.go): `get_chat_history`
--     is GetChatHistory over a `Module`; Mysql and Mongo are the two repositories over an `Engine`, a condition that
--     the source hands to the database being a test on its rows; `mysql_save_message_batch` and
--     `mongo_save_message_batch` are SaveMessageBatch; Cache is the cache of the newest messages. Search and Elastic
--     (api/search_handler.go, search/elasticsearch.go) are the search: `search_room` is its handler, `search_index`
--     and the two `search_messages` what it asks. Pages, Paging, Ordered and Store carry the proofs on the history,
--     Searching those on the search.
--   Files (services/messages/application/file_service.go, api/file_handler.go): `complete_upload`,
--     `download_url_by_id`, `download_url_by_object_key` are the methods of the file service, over its repositories
--     and the object storage.
--   Prelude: Go's integers with their wrap-around, maps as association lists, results, lists.
--
-- Bounds and fuel. Integers of Go are ℤ with the wrap-around of int64 and int8 where the source
-- computes. The loop that cuts a room into slices runs on the number of clients as fuel, and every
-- slice takes at least one. A reader of a history or of a search has as fuel one page more than
-- there are messages, and every page but the last has one. The loops of the consumer and the
-- archiver run on the list of the environment's answers, since they end only by an error. The sequencer is followed for fewer than 2^62 calls with clock readings
-- within 2^50 milliseconds of 1970; a login window for fewer than 2^63 attempts.
--
-- Not modelled: Kafka, Redis, MySQL, MongoDB, Elasticsearch, the object storage, protobuf, encoding/json, bcrypt and
-- golang-jwt, which are parameters where the code relies on them; logging and metrics; the HTTP handlers but those
-- named above and the gRPC handlers; PreSignUpload; the lists and the statistics
-- of the administration; interleavings inside one method of the hub but those of
-- the tasks of a dispatch, and the closing of its connections.
mod Prelude
pub mod Events
pub mod Sequencer
pub mod Retry
pub mod Consumer
pub mod Pipeline
pub mod Hub
pub mod Login
pub mod Rooms
pub mod RoomEvents
pub mod Online
pub mod Roles
pub mod Archiver
pub mod Producer
pub mod Messages
pub mod Files
pub mod Accounts
pub mod Admin
pub mod AdminFiles
pub mod AgentConfig
pub mod Access
pub mod Socket
