-- ===== src/Lib.antt =====
-- A verification library for rdma-cpp: the C transport over librdmacm and libibverbs in
-- src/c/transport.h and src/c/transport.c, the connection functions in src/Connection.cc, the
-- functions on GlusterFS in src/Transport.cc and src/Qp.cc, and the choice and display of devices
-- in src/Device.h and src/c/device.c.
--
-- The program. fs_rdma_create_ctx makes the global context `rdma_ctx`: an event channel, an
-- identifier, and three arrays for queue pairs, buffers and their registrations. fs_rdma_connect
-- starts a connection and fs_rdma_listen waits for one. fs_rdma_cm_event_handler fetches the events
-- of the channel and runs a handler for each kind: on the client ADDR_RESOLVED, ROUTE_RESOLVED and
-- ESTABLISHED, on the server CONNECT_REQUEST and ESTABLISHED. The handlers share
-- fs_rdma_create_resources, which makes everything a connection needs, and fs_rdma_teardown, which
-- releases it. fs_rdma_do_reads fetches the chunks of a message with RDMA reads. src/Connection.cc
-- connects without an event loop: rdma_client_connect and rdma_server_connect wait for each event
-- in turn, establish_connection picks one of them, and retry_rdma_connect repeats the client's.
-- src/Transport.cc has a second event loop, which hands each event to a function of GlusterFS, and
-- the initialisation of a transport, which counts the transports of a shared context and registers
-- its pool of buffers for the first; src/Qp.cc makes the queue pair of a peer. Find of src/Device.h
-- is another version of fs_rdma_find_dev; hrd_ibv_devinfo of src/c/device.c goes through all devices.
--
-- The files.
--   Common            tests, lists over native numbers, C integers (Cint), commands with their
--                     invariants and total correctness (Cmd, Cmd/Keeps, Cmd/Returns)
--   Fs/Config         constants, enumerations and parameters of src/c/transport.h
--   Fs/Foreign        the calls of librdmacm, libibverbs and the C library, with their arguments
--   Fs/Context        `struct rdma_context`, the state, and the environment
--   Fs/Device         fs_rdma_find_dev; the device that it finds (Finds)
--   Fs/Holds          commands that return on a context, and what they keep of it
--   Fs/Setup          fs_rdma_create_ctx, fs_rdma_destroy_ctx, fs_rdma_connect, fs_rdma_listen; how
--                     the last two end (Ends, Listen), and fs_rdma_destroy_ctx after the teardown
--                     (Destroy)
--   Fs/Resources      fs_rdma_create_resources: its stages (Stages), and below it what holds when
--                     it fails (Failure) and when it succeeds (Loops, Success), and its run to the
--                     end (Steps, Returns)
--   Fs/Teardown       fs_rdma_teardown, fs_rdma_cm_handle_disconnect; their effect (Effect)
--   Fs/Handlers       the handlers of events; their failures (Failure, TornDown) and peers (Peers)
--   Fs/Loop           fs_rdma_cm_event_handler; acknowledgements (Acks), the end of the loop
--                     (Exit), the client's sequence (Client) and what it is from fs_rdma_connect
--                     on (Connect) and in the loop (Session), the order of calls (Order),
--                     `connected` (Flag), the run of a round to its end (Returns), the phases of a
--                     context (Phases, Ends), how long the loop runs (Running) and which
--                     identifiers it destroys (Once)
--   Fs/Frame          what the handlers touch, and the loop (Round)
--   Fs/Inputs, Fs/Tests   concrete environments, and the theorems at them
--   Reads             fs_rdma_do_reads; the references it takes (Balance, Build, Post, Refs), the
--                     requests it makes (Tiles, Chain), their place in the buffer (Bounds, Log,
--                     Posts), what the hardware reads (Walk, Gather) and the run in which every
--                     call succeeds (Success, Delivers)
--   Connection        the client of src/Connection.cc, its foreign code (Foreign), the server and
--                     establish_connection (Server), retry_rdma_connect and ctx_close_connection
--                     (Retry), the client's events and retries (State, Loops, Client) and its
--                     result where only resolutions fail (Flaky, Up); below Server the events and
--                     the flag (Serving, Acks), the run in which every call succeeds (Accepted) and
--                     both sides together (Establish) and what ctx_close_connection does then
--                     (Closing), below Retry the calls for resources (Made) and the rounds (Rounds)
--   Gf                src/Transport.cc and src/Qp.cc: their foreign code (Foreign); the event loop
--                     (Loop), its protocol (Protocol), its events (Tally) and its end (Halts); init
--                     and Listen (Init), the locked block of init (Init/Attached) and the registered
--                     pool (Init/Registered); the queue pair (Qp) and how it ends (Qp/Ends)
--   Devices           Find of src/Device.h (Find), hrd_ibv_devinfo of src/c/device.c (Info) and the
--                     devices that it visits (Visits)
--
-- The state. A command changes a state and returns, faults (undefined behaviour of C), exits, or
-- runs out of fuel. The state is the memory and the trace of the calls of foreign code, newest
-- first. For src/c/transport.c the memory is `*rdma_ctx`, or none where the pointer is NULL; for
-- fs_rdma_do_reads it is the part of the post that it uses, and for src/Connection.cc the fields of
-- the context and of the parameters that it writes. For init of src/Transport.cc it is the private
-- block, the shared context and whether the pool's functions are set, and for src/Qp.cc the peer;
-- the event loop of src/Transport.cc and hrd_ibv_devinfo have none. `config` and the environment
-- are arguments.
--
-- Foreign code. libibverbs, librdmacm, the C library, perftest, the functions of GlusterFS that
-- begin with `gf_rdma_`, and the buffer and registration functions that fs_rdma_do_reads calls are
-- parameters: an environment chooses each answer from the calls before it. No theorem assumes more
-- of an answer than its statement says.
--
-- Readings of the source, which does not compile as it stands.
--   * `ctx->`, `config.` and `priv->device->context` where no such name is in scope are read as
--     `rdma_ctx->`, `config->` and the device of the environment; `attr.qp_type` is read as
--     `init_attr.qp_type`.
--   * The fields `cq` and `content`, which only the clean-up names, are fields of their own.
--   * `ret` in fs_rdma_cm_handle_connect_init, declared nowhere, has a value that the environment
--     chooses.
--   * A failed rdma_get_cm_event leaves `event` as it was; an acknowledged event is freed.
--   * In src/Connection.cc the brace that a comment takes from the block of unreliable datagrams
--     stands before that comment. SUCCESS, FAILURE, ON, OFF and NUM_OF_RETRIES are the
--     environment's, and so is what the functions of perftest leave in the context.
--   * A fresh context and fresh arrays hold what the environment says.
--   * Counts are natural numbers; the product of depth and count faults where it overflows an
--     `int`; `retry_count`, ports and sizes wrap around in their types.
--   * The label `err` of Listen is missing: the model says whether Listen reaches its end. The
--     count of transports faults where it overflows an `int32_t`.
--   * In src/Device.h `dev_list` and `ib_dev` are read as the members with a trailing underscore.
--   * Messages on stderr and through fs_msg are left out. The message of a disconnect on stdout has
--     a `NULL` format: whether fprintf returns then is the environment's to say, and where it does
--     not the round faults.
--   * `hints` is read as `&hints` in both calls of getaddrinfo; `res` in fs_rdma_listen is read as
--     it stands, without a value, so that the lookup does not set it. Where fs_rdma_create_ctx
--     failed, fs_rdma_connect faults when it reads `cm_id`, which is not set.
--   * What a library makes of an argument that it should not be given, such as rdma_disconnect of
--     `NULL` or ibv_dereg_mr of the array `mr`, is left to the environment like any answer.
--
-- Fuel. The loops of fs_rdma_cm_event_handler and gf_rdma_cm_event_handler take one unit for each
-- round; on a channel that delivers n events the second needs n + 1 (Gf/Halts).
-- All other loops are structural.
--
-- Not modelled: src/interface/ (a copy of the transports of Apache Thrift), src/api/ (van.h is a
-- copy from ps-lite, and transport.h declares functions that are defined nowhere), src/utils/ (a
-- copy of the port layer of LevelDB); the classes that src/Transport.h, src/Connection.h and
-- src/Buffer.h only declare; and in src/Transport.cc the constructor, whose fields nothing reads,
-- the call without arguments in Init, and the empty Connect and CtxInit.
pub mod Common
pub mod Connection
pub mod Devices
pub mod Fs
pub mod Gf
pub mod Reads
