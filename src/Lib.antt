-- ===== src/Lib.antt =====
-- A model of the hub of mckmt, a manager of Kubernetes clusters, and the theorems about it.
--
-- The hub keeps clusters and operations in PostgreSQL, with copies in Redis. Requests reach it by
-- HTTP, behind a check of a token and of a permission, and from the agents of the clusters by gRPC.
-- A service stores an operation and hands it to the orchestrator, which runs it and writes its
-- status, its result and its times; a cancellation goes the same way through a second channel.
--
-- The parts, each with its code and its module:
--   - internal/repo/interfaces.go, migrations/000001_initial_schema.up.sql: Repo (the entities and
--     their states), Repo.Store (the world: tables, cache entries, channels; each call to the
--     database or to Redis may fail), Repo.Interfaces (the repository interfaces);
--   - internal/repo/postgres/operation_repository.go: Repo.OperationTable, one function for each
--     method; Rows, Lifecycle and Steps prove what the statements do to the rows;
--   - internal/repo/postgres/cached_operation_repository.go, internal/repo/redis/cache_adapter.go:
--     Repo.CachedOperations, and Coherence on the agreement of cache and table;
--   - internal/repo/postgres/cluster_repository.go, cached_cluster_repository.go:
--     Repo.ClusterTable, Repo.CachedClusters;
--   - internal/orchestrator/orchestrator.go: Orchestrator (processOperation is process_operation,
--     with its parts run_registered and settle; handleCancellation is handle_cancellation); Runs and
--     Traces are on what a run leaves and what it leaves alone; Orchestrator.Workers has the goroutines side by side: a run is cut into its accesses
--     (act), and between two of them any other goroutine may go on (Schedules); Exclusion, Gauge
--     and Endings are on what schedules keep and on how long they are, Rounds and Settling on a
--     goroutine that goes on alone;
--   - internal/operation/service.go, internal/cluster/service.go: OperationService, ClusterService (its
--     GetClusterResources is ClusterService.Resources);
--   - internal/repo/redis/manager.go: Redis, over any client; Keys and Laws are on its keys and on what
--     it leaves in the cache;
--   - internal/agent/agent.go: Agent, over any hub, with Agent.Status for what it reads of its cluster
--     (GetClusterInfo and HealthCheck of internal/kube/client.go); Reports and Sessions compose it with
--     AgentServer, Health is on the status that it reports;
--   - internal/api/grpc/server.go: AgentServer (State, Handlers, and Streams for the rounds of
--     StreamOperations); Registration and Results prove what the handlers do;
--   - internal/user/user.go, internal/repo/postgres/user_repository.go, role_repository.go,
--     audit_log_repository.go: Accounts (the entities and the tables) with UserTable, RoleTable and
--     AuditTable, one function for each method; Uniqueness and Assignments prove what writes keep and
--     what an assignment grants;
--   - internal/auth/password.go: Auth.Password (ValidatePasswordStrength), Auth.Password.Hash
--     (HashPassword, VerifyPassword), with Scan and Roundtrip; internal/auth/jwt.go: Auth.Tokens;
--     internal/auth/role_mapper.go: Auth.RoleMapper; LoadPolicy and the model of
--     internal/auth/casbin.go: Auth.Policies;
--   - internal/auth/service.go: AuthService (login), with Register, Refresh (refresh_tokens, logout,
--     change_password, get_user_profile) and Oidc (the methods of OIDC); Logins, Sessions,
--     Registration, OidcLogins and OidcSubjects prove what they do;
--   - internal/auth (strategies.go, strategy_factory.go, authorization.go, middleware.go,
--     casbin_middleware.go, types.go, CheckPermission of casbin.go), and the query
--     CheckUserPermission of internal/repo/postgres/permission_repository.go: Auth, with Guards,
--     Roles, Ownership and the proofs beside the definitions; the other statements of that repository:
--     Accounts.PermissionTable, with UserPermissions on the queries about a user; CasbinService:
--     Auth.Policies.Service, with Changes; internal/auth/oidc.go: Auth.Oidc;
--   - internal/api/http (cluster_handler.go, operation_handler.go, auth_handler.go, router.go): Http,
--     with Clusters, Operations and Accounts for the handlers, Numbers for strconv.Atoi, Routes for
--     the guarded routes, and Pipeline for the middleware around all of them (with
--     internal/metrics/middleware.go).
--
-- An operation of the program is a function of the world that returns a result and the new world.
-- The environment (Repo.Store.Env) gives for each numbered call whether it fails and the time; the
-- theorems hold for every environment unless they say otherwise. Numbers of the program (ids,
-- times) are natural numbers. The capacities of the channels are those of the code: 1000
-- operations, 100 cancellations, 100 tasks of an agent. Three definitions run on fuel: `decimal` of
-- AgentServer.State and `digits` of Auth.Password.Hash, which write a number with one step for each
-- digit and are given the number plus one (enough by decimal_from_enough of AgentServer.Decimal and
-- value-digits of Auth.Password.Scan), and `deliver`, whose count is the number of rounds that are
-- looked at. The accounts have a state of their own (Accounts.Directory), which counts its calls in
-- the same way.
--
-- Parameters: uuid.Parse and uuid.New, random salts, states and ids of tokens, Argon2 and base64,
-- the signing and parsing of the JWT library, the provider of OIDC, Casbin's enforcer and its role manager, the
-- client of Redis, the Kubernetes API, how the driver of the database writes a list of roles, the
-- orders of its collation, the order in which a map is visited, the decoding of the bodies of requests,
-- and the texts of the errors of the drivers.
-- Not modelled: logging and the other counters of the metrics; the start and the end of the goroutines;
-- StreamLogs and StreamMetrics; the calls of the OAuth2 library that only pass arguments on; the
-- connection of the agent, and the methods of the Kubernetes client that nothing calls; the address of a
-- client; the system handlers; configuration and the commands, which only read settings and wire.
pub mod Base
pub mod Repo
pub mod Orchestrator
pub mod OperationService
pub mod Redis
pub mod ClusterService
pub mod Agent
pub mod AgentServer
pub mod Auth
pub mod Accounts
pub mod AuthService
pub mod Http
pub mod Tests
