-- ===== src/Lib.antt =====
-- A model of bomba, a header-only C++ library for serialisation and remote procedure calls.
--
-- The parts. bomba_core.hpp declares the structured interface: an output that is told what to write
-- (integers, strings, arrays, objects, optional values) and an input that is asked what stands next;
-- the typed serialisers walk over a value of a C++ type and make these calls. bomba_json.hpp and
-- bomba_binary_protocol.hpp implement the interface for two formats. bomba_http.hpp parses the
-- messages of HTTP/1.1 and answers them; it gives the bodies to the same structured interface. The
-- same header as the binary format has a protocol of remote calls: a tree of callables on the server,
-- and a client that names a method of it by indices. bomba_tcp_server.hpp takes what arrives on
-- connections, keeps what is not a whole message yet, and feeds it to a protocol's session.
-- bomba_download_server.hpp answers requests of HTTP with files, bomba_json_rpc.hpp with remote calls in
-- JSON.
--
-- The files.
-- - Base: lists, integers, the results of an operation (Outcome: a value, an exception, undefined
--   behaviour, no end) and std::to_chars and std::from_chars (Charconv).
-- - Core/Flags, Core/Integer: SerialisationFlags, typeToFlags, typeWithFlags; the casts to a narrow
--   integer. Core/Structured, Core/Serialiser: IStructuredOutput and IStructuredInput as records of
--   operations over a state, TypedSerialiser for integers, bool, strings, vectors and arrays.
--   Core/Tcp: ServerReaction. (bomba_core.hpp)
-- - Json/Output, Json/Input, Json/Object, Json/Format: BasicJson::Output and BasicJson::Input, and the
--   interface filled by them; Json/RoundTrip: what the writer writes is read back. (bomba_json.hpp)
-- - Binary/Number: prepareNumber, writeNumber, readNumber; Binary/Output, Binary/Input, Binary/Format:
--   BinaryFormat::Output and ::Input. Core/Callable: IRemoteCallable; Binary/Protocol:
--   BinaryProtocolServer::Session::respond, and of BinaryProtocolClient send and getResponseReader; its
--   Request, Reply and Calls are proofs. (bomba_binary_protocol.hpp, bomba_core.hpp)
-- - Tcp/Buffer: TcpServerBuffer; Tcp/Stream: ITcpServerSession, and the queue that the buffer stands
--   for; Tcp/Connection: a session's receptions one after another; Tcp/Sessions: startSession and
--   destroySession. (bomba_tcp_server.hpp)
-- - Core/Buffer: GeneralisedBuffer and the streaming, non-expanding and expanding buffers; Core/Path:
--   PathWithSeparator, over any tree of callables. (bomba_core.hpp)
-- - Http/Parse: Detail::HttpParseState::parse, over any first-line and header readers; Http/Url: the
--   escapes of URLs and of HTML forms; Http/Form: HtmlMessageEncoding::Input and ::Output;
--   Http/Server/Request: the readers of a request; Http/Server/Respond: HttpServer::Session::respond,
--   over any responders; Http/Server/Responders: the responders of the repository; Http/Client: the
--   requests of HttpClient and its callback. (bomba_http.hpp)
-- - Dynamic: RpcLambdaHolder and DynamicRpcObject. (bomba_dynamic_object.hpp)
-- - JsonRpc: JsonRpcServerProtocol::respondInternal. (bomba_json_rpc.hpp)
-- - Download/Extensions: FileServerBase; Download/Dynamic: DynamicFileServer; Download/Caching:
--   CachingFileServer. (bomba_download_server.hpp)
-- Modules named RoundTrip and below, Whole, Lines, HandedOn, Get, Malformed, Refused, Memory, Reads,
-- Taken, Spaces, Room, Refine, Indices, Paths, Reading, Lookup, Reload, Once, Calling, Members, Reports,
-- Steps, JsonReader, Rounds and Children hold proofs, and Tests the examples.
--
-- Characters are natural numbers below 256, text is a list of them, an int64_t is an integer, and the
-- casts between integer types that wrap around are written out. A stateful operation is a function from a state to an
-- Outcome. What C++ leaves undefined (an index out of bounds, an unterminated C string) is the outcome
-- `undefined`. The loops of the parsers take fuel: one unit for every character that is left and one
-- more, and since every round consumes a character this is enough. The loop of TcpServerBuffer takes
-- one more than the memory holds, and every message has a byte at least; the binary server looks for
-- a method with one more than the bytes of the input, of which each round reads one. The loops over a vector
-- and over the members of an object take their fuel from outside, since the formats and the callbacks
-- decide when they end; a theorem on a vector names a fuel that is enough.
--
-- Not modelled: floating-point values (std::from_chars for a double is not in the repository; the
-- binary format takes the conversion of their bit patterns as a parameter), std::map and
-- ISerialisable members, the parent pointers of callables, descriptions of interfaces, the templates
-- of bomba_object.hpp and bomba_rpc_object.hpp, the client of JSON-RPC, sockets, threads, and the
-- components that only connect the modelled ones to a network. A chunk is never more than the space that the socket was given, as the socket promises.
--
-- Where the source keeps an index, a position or a count in an int and the model in a natural number, the
-- model is of inputs below two gibibytes: the positions of the readers of JSON, of the binary format and
-- of forms, the parse position and the indices of HttpParseState, and the indices of TcpServerBuffer. The
-- conversions of a size to an int are written out (the loops over a vector and over the text that is
-- appended to a buffer, the sizes of the binary format and of its messages, the copying of a file), and
-- a count of a buffer, and the position behind a string of the binary format, that an int cannot say are
-- undefined behaviour. An exception of a session goes out of the server's receive; those of the callbacks
-- of the parsers go out of the parsers.
pub mod Base
pub mod Binary
pub mod Core
pub mod Download
pub mod Dynamic
pub mod Http
pub mod Json
pub mod JsonRpc
pub mod Tcp
