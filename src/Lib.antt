-- ===== src/Lib.antt =====
-- A cloud storage server in C++: HTTP over a network library of its own (mymuduo), and an
-- application for uploading, downloading and sharing files on top of it.
--
-- Data comes from a socket into a connection's input buffer (mymuduo/tcp/Buffer.cpp). The server
-- (http/HttpServer.cpp) hands what the buffer holds to the connection's parser, `HttpContext`, takes
-- from the buffer as many bytes as the parser consumed, and calls the application with the parsed
-- `HttpRequest`. The `HttpResponse` is written to the connection's output buffer.
--
--   Tcp/Buffer.antt      mymuduo/tcp/Buffer.cpp, inc/Buffer.h. `Buffer` has the vector and the two
--                        indices; one function per method, an assertion that fails is `none`.
--   Tcp/Channel.antt     mymuduo/tcp/Channel.cpp, inc/Channel.h, and `updateChannel` and
--                        `removeChannel` of mymuduo/tcp/Epoll.cpp: the mask of a descriptor and what
--                        the kernel watches of it.
--   Tcp/Connection.antt  mymuduo/tcp/Connection.cpp, inc/Connection.h: the state of a connection, its
--                        sending and receiving over the answers of the system; Connection/Files:
--                        `SendFile` and `SendFileRange`.
--   Tcp/EventLoop.antt   mymuduo/tcp/EventLoop.cpp: the queue of tasks, the wake-up, the timers.
--   Http/Request.antt    http/HttpRequest.cpp, inc/HttpRequest.h: setters, getters, query strings and
--                        URL decoding; Request/Path: `ExtractPathParams`; Request/Range:
--                        `ParseRangeHeader`.
--   Http/Response.antt   http/HttpResponse.cpp, inc/HttpResponse.h: `GetBeforeBody`,
--                        `AppendToBuffer`, `SetContentRange`, `MakeSimple`.
--   Http/Context.antt    http/HttpContext.cpp, inc/HttpContext.h: the state of the parser;
--                        Context/Headers: the loop over lines of `ParseIncremental`; Context/Body:
--                        `ParseBodyBlock` and `ParseChunkedBlock`; Context/Incremental: the whole;
--                        Context/Whole: the older `ParseRequest`.
--   Http/Server.antt     http/HttpServer.cpp, inc/HttpServer.h: the callbacks, `onRequest`, the deferred
--                        response, the timeout; Server/Message: `onMessage`.
--   Router/Trie.antt     mymuduo/router/RouterTrie.cpp, inc/RouterTrie.h: the tree of routes,
--                        `addRoute` and `findRoute`.
--   TimerQueue.antt      mymuduo/timer: the set of timers in order of time and what it runs.
--   App/Range.antt       application/src/inc/RangeUtil.h: the Range header of a download.
--   App/Upload.antt      application/src/FileUploadContext.cpp: the writes of an upload.
--   App/Download.antt    application/src/FileDownContext.cpp: the chunks of a download.
--   App/Filenames.antt   application/src/FilenameMap.cpp: the map of names in its file; the JSON
--                        library is a parameter.
--   App/Routes.antt      application/src/inc/Router.h: the routes of the application; the library of
--                        regular expressions is a parameter.
--   App/World.antt       what the handlers use of the outside, as one record of operations on a type of
--                        states: the MySQL client, nlohmann/json, files, clock, random numbers; and
--                        application/src/Util.cpp.
--   App/Database.antt    application/src/Db.cpp; Database/Files, Shares, Users: the repositories of
--                        application/src/inc with the text of each statement; Database/Sessions: the
--                        sessions of application/src/AuthHandler.cpp.
--   App/Exchange.antt    what a handler is given and gives back: request, response, what the connection
--                        keeps, the callback, the database; application/src/inc/HttpUtil.h.
--   App/Serve.antt       the sending of a file, common to both downloads, and its callback.
--   App/Handlers.antt    the handlers: List, Delete, Access (`handleDownload`) and Upload for
--                        application/src/FileHandler.cpp; Share and ShareAccess for ShareHandler.cpp;
--                        Login for AuthHandler.cpp; Static and Users for StaticHandler.cpp and
--                        UserHandler.cpp; Table: `registerRoutes` of application/src/Router.cpp and
--                        `HttpCallback` of application/http_upload.cpp.
--   Log.antt             mymuduo/log/LogStream.cpp, inc/LogStream.h: the line of a log message.
--   Prelude.antt         helpers on numbers, lists, bytes, maps and numerals (`strtoul`, `stoll`).
--
-- The modules below each of these hold the proofs, and Tests the runs.
--
-- Loops. The loop over header lines has the length of the data plus one as fuel, since each line
-- takes at least two bytes. The loop of `ParseChunkedBlock` has twice the length plus two: each round
-- takes a byte, or leaves a chunk that has no byte to come. A loop that ran out of fuel is `none`.
--
-- The loop of `onMessage` has the length of the read buffer plus two: each request but the first takes
-- a byte. `ReadNonBlocking`, `SendFile` and `SendFileRange` run over the answers of the system.
-- A `SendFile` that is never done is `none`; an answer that is not a text and does not go through is
-- for `onMessage` the outcome `unending`.
--
-- `ParseRequest` has the length of the data plus two: a round for each byte, one past the end, and the
-- end.
--
-- Bounds. A string is a list of bytes, a `std::map` an association list in the order of its keys.
-- `size_t` arithmetic that can wrap is written out modulo 2^64; the size of a buffer stays below 2^64
-- where a theorem needs it.
--
-- A handler gives its answer and all that it may change; `none` is an exception that leaves it, or
-- undefined behaviour, as the cast of a kept upload to a download. What `HttpCallback` answers to an
-- exception is left out, since it depends on what the handler had done before it.
--
-- Not modelled: the calls of the operating system (sockets, epoll, threads, files), the MySQL client
-- and server, nlohmann/json and the library of regular expressions, which are parameters where the
-- code calls them; the files of the log and their thread, the pools of threads, the acceptor, and the
-- start of the program.
pub mod Prelude
pub mod Tcp
pub mod Http
pub mod Router
pub mod TimerQueue
pub mod App
pub mod Log
