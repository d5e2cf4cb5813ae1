-- ===== src/Lib.antt =====
-- VnV: the core of the injection library, under injection/.
--
-- A numerical code that is instrumented with VnV calls BeginLoop, IterLoop and EndLoop at its
-- injection points. The runtime makes an object for each point that the input file configured,
-- keeps the open ones on a stack, asks a sampler whether to run, runs the tests of the point and
-- of its open parents, calls the actions, and tells the output engine about all of it.
--
-- The files, and the code that each models:
--   Base            what the modules share: strings as lists of bytes, `std::map` as an ordered
--                   association list, and code that may throw over a state that outlives the
--                   exception. Undefined behaviour, such as a null pointer read, is an exception
--                   of its own that no handler takes.
--   Engine          injection/include/base/TestConfig.h, the callbacks of
--                   injection/include/interfaces/IOutputEngine.h (the engine is the list of the
--                   callbacks made to it, and its answers are given) and injection/src/interfaces/IOutputEngine.cpp.
--   Json            the JSON values that the core reads. The library nlohmann::json is not part of
--                   the repository; its values are taken as data, with lookup by key.
--   Samplers        injection/src/plugins/samplers (skip.cpp, proc.cpp, random.cpp) and, in
--                   Samplers/Store, injection/src/base/stores/SamplerStore.cpp.
--   Testing         injection/src/base/stores/TestStore.cpp and injection/src/interfaces/ITest.cpp.
--   Injection       injection/src/base/stores/InjectionPointStore.cpp,
--                   injection/src/base/InjectionPoint.cpp and
--                   injection/src/base/FunctionSigniture.cpp: a shared_ptr is a place in the list
--                   of all objects that were made, and the null pointer is `none`.
--   Actions         injection/src/base/stores/ActionStore.cpp and
--                   injection/include/interfaces/IAction.h.
--   Runtime         the injection point part of injection/src/base/Runtime.cpp, and
--                   injection/src/interfaces/Injection.cpp.
--   Workflow        injection/include/interfaces/IWorkflow.h, the validators of
--                   injection/src/plugins/workflows/validators.cpp, and the loop over the jobs in
--                   JobManager::run of injection/src/base/stores/WorkflowStore.cpp.
--   Parsing         injection/src/base/parser/JsonParser.cpp: the injection points and the run scopes,
--                   and in Parsing/Sections the other sections of the input file and the command
--                   line.
--   Stores          injection/src/base/stores/OutputEngineStore.cpp and
--                   injection/src/base/stores/OptionsParserStore.cpp.
--   Streams         injection/include/plugins/engines/streamtemplate.h over the writer of
--                   injection/src/plugins/engines/json_file.cpp, as one rank runs them: the numbers of the
--                   lines, the communicators, the callbacks, and in Streams/Fetching, Streams/Opening
--                   and Streams/Globals the questions to the reader, the choice of the directory and
--                   the global arrays. The long that numbers the lines is a natural number.
--   Arrays          injection/include/interfaces/IOutputEngine.h: the actions that put the data of
--                   all ranks as one array.
--   Startup         the start and the end in injection/src/base/Runtime.cpp: packages and plug-ins,
--                   clean up actions, the choice of the configuration, configure, and in
--                   Startup/Points the injection points of loadRunInfo, from what Parsing read, through
--                   Testing, to Injection. The linker, and what a package registers, are parameters.
--   Logging         injection/include/base/Logger.h and injection/src/base/Logger.cpp: the streams are
--                   the list of the lines written, and the engine is a state of its own.
--   Transport       injection/src/base/communication/Communication.cpp and
--                   injection/src/base/communication/ICommunicator.cpp: messages between ranks as
--                   blocks of memory, in which a byte may not have been written; in
--                   Transport/Grid what GatherV does with what it gathered, in
--                   Transport/Reductions the operation that MPI calls on two buffers, and in
--                   Transport/Strings the data type of strings of
--                   injection/src/plugins/dataTypes/generic.cpp.
--   Comms           injection/include/base/communication/CommMapper.h and
--                   injection/src/base/communication/CommMapper.cpp: the log of the communicators,
--                   the ids given to them, the walks over the graph of those that contain
--                   others, and in Comms/Maps its roots and the map of what is below them.
--   UnitTests       the tables of injection/src/base/stores/UnitTestStore.cpp and the loop of runAll
--                   that shares the ranks of a communicator among the tests.
--
-- What a test, an action or the callback of a point does is a parameter, which may look at all
-- that the engine was told and may throw; so are the makers of the tests, what the engine answers
-- when it is told of a point, a test or an action, which may be an exception, the schedulers, the
-- clock, rand(), what the files do, whether a JSON value can be printed,
-- StringUtils::squash_copy, StringUtils::StringSplit and the JSON schema validator. The results
-- about plug-ins that throw nothing, or nothing but std::exception, say so in their conditions.
--
-- Most loops here run over a list and need no fuel; of the loop that waits for the jobs of a
-- workflow one pass is modelled, and the loop that shares the ranks is taken turn by turn, for any
-- number of turns. On fuel are the loop over the saved messages in Logging, for which one unit for
-- each of them is enough where the engine takes the messages, the walks of Comms, for which one for
-- each node and one more is enough, and the registration of packages in Startup, for which one for
-- each package and one more is enough. A number that a rank sends is an eight byte word, the
-- lowest byte first; sizes and places are natural numbers. Every rank of a communicator calls a
-- collective operation, and what MPI does between the ranks is not part of the model: a buffer is
-- received as it was sent, and the gathers put the buffers of the ranks one behind the other.
--
-- Not modelled are the standard output that the runtime reads back, the schemas that the stores
-- print, the pipes and files that the runtime opens, how the graph of the communicators is built
-- and the files of the ranks are merged, MPI, the C and Fortran interfaces, and the extraction
-- tools.
pub mod Base
pub mod Engine
pub mod Json
pub mod Samplers
pub mod Testing
pub mod Injection
pub mod Actions
pub mod Runtime
pub mod Workflow
pub mod UnitTests
pub mod Logging
pub mod Transport
pub mod Comms
pub mod Parsing
pub mod Stores
pub mod Streams
pub mod Arrays
pub mod Startup
