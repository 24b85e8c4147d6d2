-- ===== src/Lib.antt =====
-- Minikura, the panel for Minecraft servers on Kubernetes: a model of its backend and of parts of
-- its web application.
--
-- A request comes in with a session or an API key. Guards decide who it is and whether it may go
-- on (apps/backend/src/middleware); a route checks the body and calls a service
-- (apps/backend/src/routes); the service checks rules, calls a repository and publishes an event on
-- the bus (apps/backend/src/application/services); the repository writes the database
-- (apps/backend/src/infrastructure/repositories/prisma). The handlers of events tell the open
-- sockets and bring the cluster in line with the database (apps/backend/src/services). What is
-- thrown on the way is turned into an answer (apps/backend/src/middleware/error-handler.ts).
--
-- An asynchronous call is a function from a world to an outcome, `ok` or `thrown`, and the world
-- that it leaves (Common/Results.antt): what was written before a throw stays written. Names are
-- those of the code in the spelling of the model: `updateWithAdminSafety` is
-- `update_with_admin_safety`.
--
-- - Common: names and lemmas that all share; lists, association lists, asynchronous calls.
-- - Domain: the errors (apps/backend/src/domain/errors/base.error.ts) and the answers to them.
-- - Events: the bus (apps/backend/src/infrastructure/event-bus.ts) as a map from event names to
--   lists of handlers, and the sockets (apps/backend/src/services/websocket.ts).
-- - Users: Account has the data and the suspension (packages/db/src/models/user.ts), Repository the
--   repository with its checks for the last administrator, with what each method does in Outcomes
--   and what it keeps in Safety, Service the service and what follows for it, Guards the session
--   plugin and the guards, Routes the routes (apps/backend/src/routes/users.ts). Store is the table
--   of users and its laws, and Memory a table in memory that keeps them.
-- - Servers: Entities and Inputs have the rows and the validated requests, Repository the two
--   repositories, whose common methods are in Rows, Crud the shared service (base-crud.service.ts),
--   Service the services of servers and of reverse proxies, Routes their routes and those of the
--   proxies' plugins (apps/backend/src/routes/plugin.ts), and PluginKeys the callers with an API key
--   (apps/backend/src/middleware/api-key.ts). Store and Memory are the
--   tables of the two, as for users.
-- - Operator: Names has the names of resources, Specs what is written into them, Sync the
--   synchronization (apps/backend/src/services/operator-resource-sync.ts) and Handlers the
--   reactions to events (apps/backend/src/infrastructure/event-handlers). Cluster is the cluster
--   and its laws, and Memory a cluster in memory that keeps them. Specs/Described says of a
--   specification what row and plugins it describes. Of the synchronization, Steps, Outcomes and
--   Proxies have what one server or proxy leaves, Marks what stays marked for deletion, Removal and
--   Stale the deletions, Runs what a run over a list leaves, and Convergence the whole run.
-- - Plugins: the registry of plugins (apps/backend/src/services/plugin-registry.ts) and its routes
--   (apps/backend/src/routes/registry.ts). Entities has the rows, Store the database, Providers the
--   search at the two providers, Versions their versions, Artifacts the registration of an address,
--   Files what is uploaded and taken out of the library, Registry which plugins a server has,
--   Service the calls and Routes the routes; Memory is a database in memory.
-- - Terminal: a terminal in a pod (apps/backend/src/routes/terminal.ts): Opening has the admission
--   and the opening, Traffic what the client and Kubernetes send, History sequences of both.
-- - Bootstrap: the first administrator (apps/backend/src/routes/bootstrap.ts); Overlap has set-ups
--   that overlap as steps, with the lock and the timeout of the transaction. Single, Exclusion and
--   Doubled have what one, many and late ones do.
-- - Web: Topology is the graph of the topology view (apps/web/lib/topology-utils.ts): Graph has its
--   parts, Build the whole and the filters. ServerForm is the form of a server
--   (apps/web/lib/server-form/mappings.ts, apps/web/components/server-form.tsx): Environment has the
--   variables that it manages, Request what it sends, Initial what it reads of a server and State
--   what it begins with; Lookups, Sent and Reloaded follow a variable on its way, Kept and Forgotten
--   say what becomes of it.
--
-- The database client, the cluster's client, the authentication library, the store of files and the
-- providers of plugins are no part of the program. Their calls are fields of the records UserStore,
-- Store, Cluster, the registry's store and Accounts, or arguments; the laws asked of them are in
-- the records whose names begin with Is. The clock is an argument of each call that reads it, one
-- for each reading; random identifiers are arguments, and so are the parser of addresses and of
-- JSON, the encoding of texts, the way that numbers are read and written, and, in the filter of
-- nodes, the lower case of any text. All loops run over lists, so that no fuel is needed. Calls that
-- the code starts together run one after the other, in the order of their start; a transaction is
-- atomic, but for the one of the bootstrap, whose steps are told apart.
--
-- An object of the cluster whose deletion is accepted is marked and may stay until what it owns is
-- gone, and so may a pod: the theorems say which objects and pods are there without a mark.
--
-- Not modelled: the time stamps of rows, which are only stored; logging; the bounds on numbers and
-- texts in the schemas, but for those on ids; what the framework answers by itself to a body or a
-- query that its schema refuses, before any guard runs; the reading of the cluster's state
-- (apps/backend/src/services/k8s.ts) but for what a restart of a server asks for; the metrics of
-- pods and nodes (apps/web/lib/k8s-metrics.ts) and the rest of the web application, which is the
-- user interface; the operator in Go and the plugins in Kotlin (operator, plugins).
pub mod Common
pub mod Domain
pub mod Events
pub mod Operator
pub mod Plugins
pub mod Servers
pub mod Terminal
pub mod Users
pub mod Bootstrap
pub mod Web
