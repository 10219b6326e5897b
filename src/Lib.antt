-- ===== src/Lib.antt =====
-- Verification of the role service (chremoas/role-srv).
--
-- The program
--
-- The service keeps roles, filters and the members of filters in Redis and makes the roles of a
-- Discord server follow them. handler/Roles.go answers the requests. A client (the package in
-- client/) turns chat commands into requests and the replies into text. Two requests go further: a
-- request to synchronise is put on a channel, and one thread takes it from there, runs syncRoles and
-- then syncMembers, and reports to the chat.
--
-- Redis holds `role:<short name>` (a hash of the role's fields), `filter_description:<name>` (a
-- string), `filter_members:<name>` (a set of user ids) and `members:no_sync` (a set of user ids),
-- each behind the prefix of the permissions service.
--
-- The model
--
-- A handler is an `Exec World A`: a function from the world to a result and the world after it. A
-- result is `ok`, `err` with the text of the Go error, or `panic`. A Go string is its list of bytes.
-- An int32 field is an integer, and its range is a hypothesis where it matters.
--
-- Code that is not in the repository is a parameter: the Redis client (Redis), `StringSet`
-- (StringSets), the Discord gateway (Gateway), the permissions client, the `command` package,
-- viper, `structs.Map`, the clock and the order in which Go loops over a map (Services,
-- Client/Services). `RedisLaws` says what Redis documents: a command that replies without an error
-- has read or written its own key as the manual says, and no command changes another key. Every
-- command may fail at any time. `StringSetLaws` says the same of the sets, and `IsRoleMap` of the
-- hash that `structs.Map` gives a role. `DiscordLaws`, `EditLaws`, `UpdateLaws` and `PagingLaws`
-- say what the gateway does with roles, with their attributes, with users and with pages of
-- members, and `Delivers` that go-micro brings a request to its endpoint. The list of roles that the
-- gateway replies with may come from a cache: no law ties it to the roles that Discord has. `Answers`
-- says that no call panics. `TurnLaws` says that no call of a turn of the thread but those of syncRoles changes the roles of Discord. `ServerLaws`
-- puts the store and the server beside each other: reads change neither, a page leaves no member
-- out in its middle, and an update overwrites the roles of a user. Tests has an instance of each.
--
--   Base              strings, the monad, rules for what a call leaves (Ensures, Leaves, Keeps)
--   Strconv           ParseInt, ParseBool and the printing of numbers, as the code calls them
--   Proto             the messages of proto/roles.pb.go
--   Redis, StringSets, Gateway, Services
--                     the parameters of the handlers and their laws
--   Handler/Keys      keys of Redis; roleKeys, roleTypes and validListItem of handler/Roles.go
--   Handler/Roles     AddRole, UpdateRole, RemoveRole, GetRole, GetRoles, getRoles, getRole,
--                     mapRoleToProtobufRole, GetRoleKeys, GetRoleTypes
--   Handler/Roles/Book
--                     the roles of the store as an abstract book
--   Handler/Membership
--                     getRoleMembership, GetRoleMembership, ListUserRoles
--   Handler/Filters   GetFilters, AddFilter, RemoveFilter, GetMembers, AddMembers, RemoveMembers
--   Handler/Users     GetDiscordUser, GetDiscordUserList
--   Handler/Reads     what the handlers that only read leave alone
--   Handler/Writes    what the handlers that write leave alone
--   Handler/Tidy      histories of requests to the store
--   Handler/Overlap   a request that is served between two commands of another
--   Handler/Setup     NewRolesHandler, updateSchema
--   Handler/Sync      sendMessage and sendDualMessage (Report), syncRoles (Roles), syncMembers
--                     (Members), SyncToChatService and syncThread as a step relation (Thread)
--   Client/Services   RolesService of proto/roles.micro.go as a record of calls, GetSyncRequest
--   Client/Names      MapName of client/misc.go and the texts of replies
--   Client/Roles, Client/Filters, Client/Sigs
--                     the commands of client/roles.go, client/filters.go and client/sigs.go
--   Client/Denied     what the commands do without permission or with a bad sender
--   Client/Guarded    a client beside the handlers, and refused commands on SIGs over them
--   Client/Confined   the one key that a command on a SIG changes
--   Client/Joined     what JoinSIG and LeaveSIG do to the members of the filter
--   Client/Removed    RemoveRole over the handlers
--   Client/Recolored  Set of a hexadecimal color over the handlers
--   Client/Listed     ListRoles over the handlers
--   Client/Emptied    RemoveAllMembers over the handlers
--   Stub              rolesService and RegisterRolesHandler of proto/roles.micro.go, the two ends of
--                     the connection
--   Start             initialize of main.go
--   Tests             instances in memory, and a witness for each result
--
-- Bounds and fuel
--
-- The channel has room for 30 requests. syncMembers reads pages of 1000 members until one is empty,
-- which depends on the gateway: `gather_pages` takes fuel and returns `none` where the fuel runs out.
-- Under `PagingLaws` fuel above the number of members is enough. Where it is not enough, a turn of the
-- thread does not end, and the thread takes no further request. All other loops run over a list.
--
-- Not modelled
--
-- Logging, contexts and timeouts, the marshalling of requests (generated code) and go-micro, main()
-- of main.go (wiring and a listener for profiles), and the SQL schema in sql/, which no Go code
-- reads. But for Handler/Overlap, requests that are served at the same time are not interleaved: a
-- theorem on a handler is about the handler alone.
pub mod Base
pub mod Strconv
pub mod Proto
pub mod Redis
pub mod StringSets
pub mod Gateway
pub mod Services
pub mod Handler
pub mod Client
pub mod Start
pub mod Stub
mod Tests
