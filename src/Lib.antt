-- ===== src/Lib.antt =====
-- A verification library for pmap, a privacy data mapping service. The service hears of each
-- object that is uploaded to a bucket, reads it, decodes it, has a list of processors look at it and
-- enrich it, and passes the event on: to a topic for successes or, with the error as an
-- attribute, to a topic for failures. A command validates the same files before they are merged.
--
-- The parts and their files:
-- - Errors: pkg/pmaperrors/pmaperrors.go over Go's error values (`New` is `new`, `Is` is `is`). Errors
--   that wrap or join others are constructors. A result is a value, an error or a panic (Errors), or,
--   for code that cannot panic, a value or an error (Errors/Fallible).
-- - Server/Handler: `EventHandler` of pkg/server/event_handler.go. `Handle` is `handle`,
--   `generatePmapEventBytes` is `generate_pmap_event_bytes`, `getGCSObjectBytes` is
--   `get_gcs_object_bytes`. The state that a send changes is a type `W` that is passed along.
-- - Server/Source: `parseGitHubSource`. Server/Http: `HTTPHandler`, with sequences of requests
--   (Server/Http/Deliveries), one request that is sent again (Server/Http/Redelivery), and sequences
--   of requests down to the topics (Server/Http/Published).
--   Server/Options: `NewHandler` and its options, all of the same file.
-- - Server/PubSub: pkg/server/pubsub.go; UTF-8, for the attribute values, is in Server/PubSub/Runes.
--   Server/Config: pkg/server/config.go.
-- - Api: apis/v1alpha1. Api/Messages has the generated messages with their getters, Api/Validation and
--   Api/Subscope the functions of validation.go.
-- - Mapping: pkg/mapping/processors/assetinventory.go. `parseScope` is in Mapping/Scope,
--   `mergeAnnotations` in Mapping/Merge, `AssetInventoryProcessor` with `Process` in Mapping/Inventory.
-- - Cli/Validate: `MappingValidateCommand` of pkg/cli/mapping_validate.go. Cli/Server: `RunUnstarted` and
--   `Run` of pkg/cli/mapping_server.go and policy_server.go, over the closer and the resources that are
--   open (Cli/Start); `Flags` and `Run` from the arguments on are in Cli/Server/Commands, `Desc` and
--   `Help` of all commands in Cli/Texts. `NewAssetInventoryProcessor` is in Mapping/Inventory/Create.
-- - Cli/Root: the command tree of pkg/cli/root.go and `main` of cmd/pmap/main.go, with the program as
--   it validates a directory (Cli/Root/Validating). Version: internal/version/version.go.
--   Server/Config/Flags: the two `ToFlags` methods of pkg/server/config.go, as the sections and flags
--   that they add.
-- - Service: the event handler with the asset inventory processor, as the mapping server runs it
--   (Service/Outcomes), the handler that the policy server starts (Service/Policy), the mapping
--   service as the prober sees it (Service/Probed), a file that the command has validated in the
--   mapping service (Service/Validated), and both servers by their flags (Service/Serving,
--   Service/PolicyServing).
-- - Testhelper: `SingleBQEntry` and `UploadGCSFile` of internal/testhelper. Prober: prober/main.go and
--   prober/config.go. `probeMapping` and `probePolicy` are in Prober/Probe, `realMain` and `main` in
--   Prober/Main, the configuration, the texts and the queries in Prober/Config, and the metadata that
--   is uploaded in Prober.
-- - Go: what these files call of the Go library, as functions: strings.Split, Join, Cut and TrimPrefix,
--   strconv.ParseInt, sort.Strings, url.ParseQuery, io.ReadAll of an io.LimitReader, and %d.
-- - Base: natural numbers, texts, lists and association lists.
--
-- Messengers that journal what is tried (Server/Handler/Journal), and topics that record what they are
-- asked to publish (Server/Http/Topics), answer as they like, by all that came before. A handler over
-- one pair of messengers is compared with the same handler over another in Server/Handler/Messengers.
-- Requests come one after the other, since a handler keeps no state of its own between them. What the
-- bucket holds and what the asset inventory answers is fixed while one request is handled. From one
-- delivery of a request to the next it may change in Server/Http/Redelivery; over the sequences of
-- Server/Http/Deliveries and Server/Http/Published it is fixed.
--
-- A text is the list of its bytes. A Go map is an association list. Where the code ranges over a map,
-- the order is an argument (Api/Subscope), or the map is one whose keys are distinct by a hypothesis
-- (Mapping/Merge). A method with a pointer receiver that may be nil takes an `Option`.
--
-- The retries of `SingleBQEntry` are go-retry's: what its documentation says of `Do` is the relation
-- `Runs` of Testhelper/Retries, and a context that does not end is one with no error. All other loops
-- are structural recursion. The one use of fuel is `decimal`, whose fuel is the number plus
-- one, and a number has fewer digits than that (`spelled-decimal` of Go/Fmt).
--
-- Parameters, since their code is not in the repository: the storage client and its readers, the
-- Pub/Sub topic, the asset client with its iterators (finite streams that end or fail), the decoders
-- and encoders of YAML, JSON and protobuf, time.Parse, mail.ParseAddress, url.Parse, the quoting
-- of %q, structpb.Struct with AsMap and NewStruct, protoutil.ToProtoStruct, the walk over a directory,
-- reading of files, the flag parser, the dispatch of commands, buildinfo, the HTTP server, multicloser,
-- and for the prober BigQuery, the upload of files, envconfig, go-retry, go-cmp and the clock. What is
-- assumed of multicloser is `IsLawful` of Cli/Server/Releases: a closer keeps what is appended. What
-- is assumed of structpb is `IsLawful` of Mapping/Inventory/Enrich and, of ToProtoStruct, the
-- hypothesis `packs`: the struct has the keys of the map that it is made of.
--
-- Of the dispatch it is assumed that the first argument names the command that gets the others, and
-- that a command whose error is `flag.ErrHelp` has its help shown and no error (`DispatchLaws`), of
-- structs inside of structs `IsNested` of Service/Probed, of go-cmp that a difference is empty exactly
-- for equal values (`DiffLaws`), and of go-retry, around a constant backoff, `RetryLaws`: that its
-- `Do` ends is part of what is assumed. A reader gives an error behind its last byte, not with it.
--
-- Not modelled: logging, signals, the cancellation of contexts but for that of the retries, the
-- generated protobuf reflection, what the linker overrides, the integration tests, which drive live
-- cloud services, and all that is not Go.
pub mod Base
pub mod Errors
pub mod Go
pub mod Version
pub mod Server
pub mod Api
pub mod Mapping
pub mod Cli
pub mod Service
pub mod Testhelper
pub mod Prober
mod Tests
