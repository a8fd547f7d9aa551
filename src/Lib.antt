-- ===== src/Lib.antt =====
-- Routr, a SIP server made of small services: what each service does to a request, and what is
-- remembered between requests.
--
-- A message arrives at an edge port, which hands it to the dispatcher; the dispatcher runs it through
-- the middlewares and gives it to the first processor that takes it; the connect processor asks the
-- Connect API who calls whom, asks the location service for a route, and sends the message on after
-- altering it for that route. Endpoints that register put their routes into the location service.
--
-- The parts and where they are modelled:
--   Sip.antt, Sip/: the messages, routes and resources of mods/common/src/types.ts and
--     mods/common/src/connect/types.ts. A property with `?` is an Option.
--   Common.antt, Common/: formatNet, hasIp, getLocalnetIp (mods/common/src/ip_utils.ts),
--     getListeningPoint (mods/common/src/helper.ts), the parameters and the URL of Redis
--     (mods/common/src/redis.ts), and the client of the data services (mods/common/src/connect/api).
--   Processor.antt, Processor/: the library of processors, mods/processor/src. Each function of
--     alterations.ts is a function from a request to a request, or to a Result where it may throw;
--     the names are the source's in snake case.
--   Location.antt, Location/: the location service, mods/location/src. A store is a record of
--     methods on a state (LocatorStore), which MemoryStore.antt implements and Service.antt uses;
--     Client.antt is client.ts, RedisStore.antt is redis_store.ts, and Cache.antt has the choice of
--     the store.
--   Dispatcher.antt, Dispatcher/: mods/dispatcher/src. A remote processor or middleware is a function
--     from a request to its answer.
--   Connect.antt, Connect/: the connect processor, mods/connect/src, with the digest and the
--     responses of mods/common/src/auth.ts and response.ts. Access.antt is access.ts, Router.antt and
--     Router/ are router.ts, Tailor.antt is tailor.ts, Handlers/ has the handlers and service.ts.
--   SimpleAuth.antt, SimpleAuth/: the middleware of mods/simpleauth/src.
--   RtpRelay.antt, RtpRelay/: the middleware of mods/rtprelay/src. Directions.antt is utils.ts and
--     Client.antt is client.ts.
--   Registry.antt, Registry/: the registrations of trunks, mods/registry/src. Store.antt is
--     memory_store.ts, RedisStore.antt is redis_store.ts, Cache.antt is buildStore, Request.antt is
--     request.ts, and Service.antt is a round of the interval of service.ts with sender.ts and
--     utils.ts.
--   EdgePort.antt, EdgePort/: the assertions on the configuration of an edge port and its listening
--     points, and the properties of its SIP stack (ServerProperties.antt), of mods/edgeport/src.
--   Validations.antt, Validations/: mods/common/src/connect/validations.ts (Checks.antt, Rules.antt)
--     and assertions.ts. A check answers a verdict or throws; an assertion passes or throws.
--   PgData.antt, PgData/: the data service over a database, mods/pgdata/src. Managers.antt has what
--     the managers of mappers/ check and Mappers.antt, Mappers/ what they map; Api.antt and
--     Api/Reads.antt are the handlers of api/.
--   Ctl.antt, Ctl/: of the command line, mods/ctl/src, the loop that shows pages, the parsing of
--     typed values, the validators, and the commands that create, update and delete a resource
--     (Create.antt, Update.antt and their Loops.antt, Delete.antt), which ask through Prompts.antt.
--   SimpleData.antt, SimpleData/: the data service over files, mods/simpledata/src, with the mappers
--     of mods/common/src/connect/mappers.
--   Prelude.antt, Prelude/: the shared helpers: Boolean tests, lists, texts, integers, maps as
--     association lists, exceptions (Result) and methods that may throw (Exec).
--   Tests.antt, Tests/: the theorems at concrete inputs.
--
-- Conventions. An exception is a value: type_error for a property of `undefined`, error for a plain
-- Error, status for an error with a gRPC code. What a method had written before it threw stays
-- written. A loop over a list is structural recursion, so no fuel is needed. Three kinds of loops have
-- fuel: the calls between the loaders of mods/simpledata, for which five nested calls are enough when
-- references go down the kinds; the pages of the command line, for which one turn more than there are
-- rows is enough; and its questions for the URIs of a trunk and the policies of a domain, for which as
-- many rounds as the user asks for are enough. Running out is a value of its own. The clock is an argument.
-- Numbers of the program are integers, and NaN, where it arises, is `none`; a number is written in a
-- text with at most 21 digits, above which JavaScript writes an exponent. An object that a function
-- changes in place is returned; the copies that deepCopy makes are the values themselves.
--
-- Parameters, for code outside the repository: the package ip-utils (IpLib), MD5, nonces, Base64,
-- regular expressions and the verifier of tokens (Packages), the package phone, the order of
-- localeCompare, the Connect API (ApiClient), and, for the handlers, the location service as it is
-- called over gRPC (LocationClient); what arrives of the messages of the location service (Wire); the
-- media engine (Engine), the remote requester (Requester) and the points of the SIP stack; the packages
-- validator, phone and uniqid (the Packages of Validations and of Registry); the schemas of the configuration; the client of Redis (RedisClient), JSON, and the
-- struct of the package pb-util; the stub of the data services (ConnectClient); the package inquirer and
-- the remote API as the command line calls it (Terminal); what gRPC makes of an exception;
-- and the database client (Writer, Reader). Of the
-- database it is assumed, where a theorem says so, that a failed operation leaves it as it was
-- (update_keeps), that it answers pages as documented (IsPaged) and that its rows keep to their schema
-- (IsRow); of Redis, that a value with an expiry can be set and is then found by the scans whose
-- pattern its key matches (RedisLaws); of the rest nothing. The handlers over the database use the
-- managers by an interface (Manager), which Mappers/Service.antt fills; over the location service the
-- connect processor uses an interface too (LocationClient), which Handlers/Register/Reached.antt fills
-- with the client of the location service itself, for calls that are answered and messages that arrive
-- with the defaults of the fields that are not set (arrived_call).
--
-- Not modelled: gRPC servers and the stubs of its clients, logging, metrics, configuration files and
-- start-up code; the SIP stack in Java; of the command line what it prints and the commands that show a
-- resource; the SDK and the site.
pub mod Prelude
pub mod Sip
pub mod Common
pub mod Processor
pub mod Location
pub mod Dispatcher
pub mod Connect
pub mod SimpleAuth
pub mod RtpRelay
pub mod Registry
pub mod EdgePort
pub mod Validations
pub mod PgData
pub mod Ctl
pub mod SimpleData
pub mod Tests
