-- ===== src/Lib.antt =====
-- The build server gobuild: it builds Go commands on request, one binary for each module, version,
-- package directory, target and toolchain, and adds every result to a transparency log.
--
-- The modules follow the files of the repository.
--
--   Common, Strings   results, byte strings and the functions of Go's strings, path and strconv
--                     packages that the code calls (Split, Cut by SplitN, path.Clean, ParseInt)
--   Sdk               gosdk.go: in Targets the list of targets, in Versions goVersion with its text
--                     and parser, in Ensure ensureSDK as its two parts under the two locks, in
--                     Listing listSDK and the lists of toolchains
--   Spec              parse.go: buildSpec, its texts (String, outputPath, filename), and in Parse
--                     the parsers parseBuildSpec and parseGetSpec
--   Record            parse.go: buildResult, packRecord and parseRecord
--   Request           request.go: a request, its link and parseRequest
--   Tlog              tlog.go and tlogserver.go: the files of the log, addSum as a chain of writes of
--                     which each can fail, in Read the functions ReadRecords and lookupResult, in
--                     Server Lookup and lookupBuild, in Signed the signed tree and the tiles, and in
--                     State verifySumState of serve.go. Abstract says what a log is, as a list of
--                     results
--   Coordinate        coordinate.go: the goroutine coordinateBuilds. A Coordinator holds its local
--                     variables, `kick` and `start_build` are its closures, and in Steps the cases
--                     of its select are `register`, `unregister` and `finish`. Runs puts the steps
--                     together with the clients, in any order, and Drained lets the builds end
--   Build             command.go, fetch.go and gobuild.go: in Command makeCommand, in Module
--                     ensureGobin and ensureModule, in Prepare prepareBuild, in Verify the verifiers,
--                     in Run the compilation of build, in Run/Store the rest of build and
--                     saveFailure, in Recent readRecentBuilds, and in Latest resolveModuleVersion
--                     of modversion.go. Machine and Calls hold the answers of what build calls
--   Cleanup           cleanup.go: the removal of old binaries and of the go command's cache
--   History           a server in time: builds, removals of old binaries and restarts, in any order,
--                     with the list of the results that were built. Builds that run at the same
--                     time touch the files of others only under the lock of addSum and in one
--                     rename, which are the steps; the recent links are pushed in any order
--   Web               home.go, build.go, result.go and serve.go: in Home serveHome, in Build
--                     serveBuild, in Results serveResult, in Modules serveModules, in Index
--                     serveIndex of index.go as the arguments of its template, in Files serveLog and
--                     acceptsGzip, in Clients the patterns of bad clients. Facts, IndexFacts and
--                     Visit hold what the handlers ask of the other parts
--   Access            accesslog.go: noctl, and the batches of accessLogger; in Files the log files
--                     that it writes, and in Responses the writer that logs a request
--   Get               get.go and tlogclient.go: the get command with the files that it writes, and in
--                     Client the configuration and cache files of the client of the log
--   Tests             runs at fixed inputs, and instances of the theorems
--
-- A byte string is a list of numbers. A Go map is a function, a channel is a number with the list
-- of what was sent to it and not yet received, and its capacity is the 100 that clients give. A
-- send that waits fails with `blocked` where the channel is full, a nil map entry with
-- `nil_build`. What lookupResult and build return are arguments of the steps, so that a run is
-- one for every content of the disk and every outcome of a build. The hashes of the log are a
-- parameter with the documented laws of its library, and an int64 offset keeps its wrap-around.
-- Fuel is used by the digits of a number, which are at most as many as the number says, and by
-- `drain`, which takes as many ends of builds as builds wait or run.
--
-- A call of the file system, of the network or of the go command has its answer as a field of a
-- record of answers (Disk, Machine, Calls, Facts, IndexFacts, Visit, Remote, Startup), one for each call, so
-- that a theorem holds for every such answer. What functions of other packages compute, such as
-- hashes and escaped paths, is a field too.
--
-- Not modelled: the JSON encoding of updates, metrics and the lines on standard error, which
-- nothing here depends on; the templates, headers and error statuses of the HTTP replies, the
-- routes and the flags, which are I/O around the parts above; and internal/sumdb, a copy of
-- another project's library.
pub mod Common
pub mod Strings
pub mod Sdk
pub mod Spec
pub mod Record
pub mod Request
pub mod Tlog
pub mod Coordinate
pub mod Access
pub mod Build
pub mod Cleanup
pub mod Get
pub mod History
pub mod Web
pub mod Tests
