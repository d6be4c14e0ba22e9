-- ===== src/Lib.antt =====
-- A verification library for the HTTP proxy of server-coursework-2014.
--
-- The program is a single-threaded proxy. `main` (src/proxy.cpp) makes an `http_server`
-- (src/http_server.cpp), which stands on the template `tcp_server` (src/tcp.h). The server adds its
-- sockets to an `epoll_wrapper` (src/epoll_wrapper.cpp), which calls back for each event. Bytes that
-- come in from a client are given to an `http_request` (src/http_request.cpp); a complete request is
-- sent on over an `http_connection` (src/http_connection.cpp) to its host, and what comes back is
-- given to an `http_response` (src/http_response.cpp), which is written to the client. Sockets and
-- connections are `tcp_socket` and `tcp_connection` (src/tcp_socket.cpp, src/tcp_connection.cpp).
--
-- The files:
--   Base      numbers, lists, byte strings, `Outcome` (a call returns, throws, never comes back, or uses
--             an object that is gone), and signed values of 32 bits in `ℤ`.
--   Text      `std::string`: `find`, `substr`, `std::stoi`, `std::stoul` with base 16,
--             `std::to_string` and `std::hex`, with the texts on which they throw.
--   OrdMap    `std::map` as a list of entries in the order of their keys, over an instance of the order.
--   Message   what both parsers share: the loop `while (true)` with its rules, the search for a line
--             end, and header lines.
--   Request   `http_request`: `parse_title`, `parse_header` and `parse_body` are the three branches of
--             `parse`, `parse_round` is one turn of its loop, `append_data` and `commit` are themselves.
--   Response  `http_response` in the same way; `chunk_round` is a turn of the loop over the chunks,
--             `Trim` is `trim`, `Commit` is `commit`, `Status` is the list of the status codes.
--   Epoll     `epoll_wrapper`: the maps `handlers` and `fd_status`, and the dispatch of a batch of
--             events. What a callback does to the program is the interface `World`; Courses is what a
--             batch does to what one sees of the program.
--   Actions   calls that change a state: what they come to, and the state behind them; what was done
--             before an exception stays done. `recover` is `try`, `Ends` is what a call leaves true.
--   Program   the whole program in one state: the members of `tcp_server` and `http_server`, the
--             proxy's `con_map`, the responses that `query` puts on the heap, the wrapper and the kernel.
--             TcpServer (src/tcp.h), HttpConnection, HttpServer and Proxy (src/proxy.cpp) have the
--             callbacks of their parts, Proxy composes them to the `World` of the wrapper, and Main has
--             the constructors, the loop of `start`, the signals and the end. A closure is a constructor
--             of `Handler` with what it captures; what it refers to is looked up when it runs, and is
--             `dangles` if it is gone. Safety has the invariant of the state, a module for each callback,
--             and the batches (Events), the whole life (Life) and the end (Quit). Sessions is what one
--             sees from outside: which clients there are, and to which host each has a bridge; its `Step`
--             is the state machine that an event moves, and Runs follows it from the start of the
--             program on. Forward follows a response to the client, Arrive a request from the client,
--             and Route on to its host.
--   Socket    `tcp_socket`, and Connection `tcp_connection`, over the interface `Os` of the calls of
--             the operating system. What a theorem relies on of those calls is a record of laws
--             (`Opens`, `Fcntl`), which the small kernel of Socket/Tests fulfils.
--
-- Bounds and fuel. `size_t` has 64 bits, and its sums wrap; `int` and `unsigned int` have 32. Where the
-- code puts a position into an `int`, a theorem asks for texts shorter than 2^31 bytes (`Fits`). A
-- `while (true)` runs on fuel and is `spins` when that runs out. `parse` gets four rounds more than there
-- are bytes, and the loop over the chunks one more: each round that goes on takes bytes away or ends a
-- stage, and the termination theorems show that this is enough; where the loop of the program does not
-- end, the model spins with any fuel.
--
-- An exception leaves no object behind: the callers of the parsers throw the object away. Uninitialised
-- members (the code of a fresh response, `is_server` of a moved socket, `id`) are arguments. Log calls
-- have no effect on the state and are left out, as are the getters, which are the fields.
--
-- Closing the descriptor -1, as the destructor of a moved socket does, has no effect and is left out.
-- An `Action` gives the state behind an exception too, since the proxy catches what `query` throws. A
-- signal is taken while `epoll_wait` waits. The addresses of responses are counted up and not used
-- again, which is what no two objects at one address comes to.
--
-- Not modelled: `logger` (pure output), the member `query_back`, which nothing uses, the unused older
-- server (src/tcp_server.cpp) and the example programs (src/server.cpp, src/http_example.cpp). In the
-- callback for new clients, the loop that compares addresses is left out: what it finds is not used.
mod Base
pub mod Text
pub mod OrdMap
mod Message
pub mod Request
pub mod Response
pub mod Epoll
pub mod Socket
pub mod Connection
mod Actions
pub mod Program
