-- ===== src/Lib.antt =====
-- A model of yonaa, a small library for TCP clients and servers in C++, with the theorems that say
-- what its parts do.
--
-- The parts and the files that model them, from the bottom up; paths are from the root of the
-- repository.
--
--   Base        lists, bytes and decimal numbers; `std::to_string`, `memcpy` and `memcmp`.
--   Os          the code outside the repository: the system calls, `inet_ntop`, and the bitmask
--               library. Os/Platform has them as a record of functions, with what they document as
--               named hypotheses; Os/Sample has one concrete platform, on which the hypotheses hold.
--   Buffer      include/yonaa/buffer.hpp. A buffer is the list of its bytes.
--   Endpoint    include/yonaa/endpoint.hpp, src/endpoint.cpp, src/detail/sockaddr_ops.cpp. The
--               storage is a buffer that holds the bytes of a native socket address.
--   Poll        include/yonaa/detail/poll.hpp and src/detail/poll.cpp.
--   SocketOps   src/detail/socket_ops.cpp.
--   Connection  include/yonaa/connection.hpp and src/connection.cpp; Connection/Send has `send`.
--   Acceptor    include/yonaa/acceptor.hpp and src/acceptor.cpp.
--   Resolve     src/resolve.cpp, src/detail/getaddrinfo.cpp, include/yonaa/addresses.hpp.
--   Logging     include/yonaa/logging.hpp and src/logging.cpp, over spdlog as a record of functions.
--   Client      include/yonaa/client.hpp and src/client.cpp. A client owns one connection.
--   Server      include/yonaa/server.hpp and src/server.cpp; Server/Network has the handlers of the
--               network thread. A server owns an acceptor, a poll group and its clients' connections.
--
-- State and calls. The history of system calls and callbacks is a list of events, the last one
-- first (Os/Events). Each system call is a function of its arguments and the history, so that the
-- environment may answer the same call in another way the next time. The monad `M` of Os/Calls
-- passes the history on. The monad `R` of Os/Outcome adds the ways in which a function does not
-- return: a null pointer that is read, a callback that is not installed, `exit`, and a loop that
-- the environment keeps going for longer than the rounds that the model gives it. Os/After and
-- Os/Always have what holds of the value of such a run if it comes to its end, and that it does;
-- Os/Ends has what holds of its value and its history. Os/Unseen is about the views of a history,
-- such as the calls of callbacks (Told), the descriptors that are open (Os/Descriptors), and the bytes
-- that went through a socket (Connection/Stream).
--
-- A member function takes the object and gives back the changed one. An `std::error_code &` is a
-- number that goes in and comes out, 0 for no error. Overloads have names of their own: `_sized`
-- for a buffer size, `_or_throw` for an error code that is thrown.
--
-- Bounds. `send` has one round more than the message has bytes, which is enough when each call of
-- the kernel takes a byte or more. The loops of the network thread and `handle_incoming_connections_`
-- go on as long as the environment wants, so their rounds are arguments. So is the depth to which
-- the client's calls of `on_disconnect_` nest, since such a call may send a message that fails.
--
-- Threads. Server/Thread has the network thread as one function: the requests of other threads are
-- done where it sleeps, a callback's requests when it is called. Server/System has it among other
-- threads, as a step relation: a step is one call of the interface, or one handler of the network
-- thread, and the steps come in any order. Server/Registry is the specification, a table of ids and
-- marks with three things that may happen to it, and Server/Refining relates the code to it.
-- A step in which clients are taken on has ids left that were never given out: the counter has 64
-- bits. Client/System is the step relation of a client, with a turn of its loop as a step.
--
-- Server/Order and Client/Order are the specifications of the order of the callbacks. Client/Telling,
-- Server/Ordering, Server/Hearing and Server/Parting are about what each handler tells the user.
-- Server/Holding, Server/Releasing and Server/Sparing are about the sockets that each handler opens
-- and closes.
--
-- Server/Mailing has what a message to all clients sends on each socket, and Connection/Refusing
-- counts the calls of `send` that the kernel refuses.
--
-- While `handle_disconnected_clients_` runs, the client table may hold null pointers, which
-- `std::remove_if` has left. Server/Emptied has what a callback's requests do then.
--
-- Not modelled: what two threads do to one another inside a handler, where the code has no lock; a
-- second server in the program, with which a server shares its counter of ids; where the other parts
-- write to the log; the examples and the tests.
pub mod Base
pub mod Os
pub mod Buffer
pub mod Endpoint
pub mod Poll
pub mod SocketOps
pub mod Connection
pub mod Acceptor
pub mod Resolve
pub mod Told
pub mod Client
pub mod Server
pub mod Logging
