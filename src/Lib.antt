-- ===== src/Lib.antt =====
-- libxio: buffers and byte streams for asynchronous network programs.
--
-- Buffers (include/xio/Buffer.h, lib/Buffer.cpp) own a block of memory and views (`BufferRef`) look
-- into one. A `BufferStream` (lib/BufferStream.cpp) reads behind what it writes in such a buffer. A `Pipe` (lib/Pipe.cpp) is a kernel pipe with a count of
-- its bytes. A `ChunkedStream` (lib/ChunkedStream.cpp) is a queue of buffer streams and pipes, and
-- calls their methods. A `FilterStream` (lib/FilterStream.cpp) runs bytes through a chain of filters.
-- `IPAddress` and `SocketSpec` say where a socket is. A `Socket` (lib/Socket.cpp) is a client's
-- connection with its state, a watcher, a timer and a handler; a `SocketDriver`
-- (lib/SocketDriver.cpp) makes them. A `ServerSocket` (lib/ServerSocket.cpp) accepts them; its two
-- kinds, `InetServer` and `UnixServer` (lib/InetServer.cpp, lib/UnixServer.cpp), open it anew, or take
-- it over from a parent process or from systemd.
--
--   Base           the names, list lemmas and machine integers that the other files share, and `Run`:
--                  code ends with a value or with the fault that it commits (a read or write outside
--                  its block, use of a freed block, a failed assertion, signed overflow)
--   Memory         the heap block of a buffer; `realloc` is a parameter with what the C standard says
--   Buffer         `MutableBuffer<ensure>` and `Buffer`: the template argument is `Policy`;
--                  `setCapacity` is `set_capacity`, the overloads of `push_back` are `push_back`,
--                  `push_back_char`, `push_back_int` and `push_back_range`
--                  Buffer/Printf is `printf`, Buffer/Slice the slices and the other constructors,
--                  Buffer/Dump the dump of bytes, with the array of a line and `isprint` as parameters
--   Decimal        the decimal print of `snprintf` that `push_back(int)` makes
--   BufferRef      `BufferBase<char*>`: searches, cuts, trims, `toInt` and `hex`, over the bytes from
--                  the view's first one to the end of the array into which it points; BufferRef/Compare
--                  has the comparisons with text from outside, copies and the hash
--   BufferStream   the stream over memory; BufferStream/Transfer its calls of pipes and descriptors
--   Kernel         the system calls as a parameter: a state, one function for each call, and the
--                  documented behaviour of pipes as laws
--   ReadLoop       the loop of `Pipe::read(Buffer&)` and `Socket::read(Buffer&)`, which have one body
--   Pipe           the methods of `Pipe`
--   ChunkedStream  the queue of chunks; the loops of its three `read` are one function, `drain`
--   FilterStream   `process` and the reads; the filters and the parent stream are parameters
--   Address        `IPAddress` and `SocketSpec`: equality, copying and hashes
--   Text           `strcmp`, `strtok_r` and `atoi` of the C library, as far as the servers use them
--   System         the other system calls as a parameter: a function from the calls made so far and
--                  the next call to its result; code carries the calls that it has made, so what it did
--                  to descriptors is read off them
--   Listen         the variable `XZERO_LISTEN_FDS`: `getInheritedSocketList`, `serialize`;
--                  Listen/Lookup is `getSocketInet` and `getSocketUnix`
--   ServerSocket   the base of the servers; `close` is `close_socket`, `stop` is `halt`, `accept`,
--                  `handleOne` and `acceptOne` are `accept_ready`, `handle_one` and `accept_one`
--   Server         what the two `open` have in common: flags, the labels `done`, `syserr` and `err`,
--                  and the search among systemd's descriptors
--   InetServer     the TCP servers: `open` is `open_inet`, with its three parts `looked_up`,
--                  `open_systemd` and `open_new`; `bind` is `bind_inet`
--   UnixServer     the local servers, alike
--   Socket         the client sockets: `open` is `open_socket`, `io` and `timeout` are `io_event` and
--                  `timeout_event`, `stop` is `halt`; Socket/Steps has the steps,
--                  Socket/Transfer the reads and writes
--   SocketDriver   `create`
--   File           the watch of a file
--   FileMgr        the cache of file information with its types and ETags
--   TimeSpan       the whole-number parts of a time span
--   DateTime       dates and their order
--   Echo           the client of examples/echo-server.cpp, which uses `BufferStream`
--   Splicing       the loop of the proxy of examples/network-splicing.cpp
--   Concrete       an allocator and two kernels at which the theorems are tested
--
-- A `size_t` is a natural number whose sums and differences are reduced by 2^64. Loops over bytes are
-- structural. Three loops run on fuel. That of `read(Buffer&, n)` has `n` rounds, which is enough,
-- since a round that goes on has taken a byte. That of `Pipe::clear` needs one for each byte that the
-- pipe counts, and that of `ChunkedStream::read` one for each chunk, if the chunks are buffers with
-- unread bytes. Fuel that runs out stands for a loop that goes on. The decimal print has fuel for 20
-- digits, which a 64-bit number does not exceed. The loop that accepts clients and the search among
-- systemd's descriptors have the number of rounds that the code gives them.
--
-- A row of calls with `goto syserr` behind each is a list of steps, which ends with the first that
-- fails (`attempt`). The callbacks of servers and sockets are lists of what they were called with. What
-- a callback does to its socket is a later step. The messages of errors that go to the terminal are
-- left out; `strerror`, the text of an address and the `sd_` functions are parameters.
--
-- The bound on the rounds of `printf` is a parameter too; two are enough where the buffer may grow. The
-- proxy has rounds for the bytes of its client and one more, and `dump` a round for each byte, of which
-- it needs one for sixteen.
--
-- Not modelled: `vprintf`, and what `snprintf` makes of a format (the text is a parameter);
-- what the plain reads and writes of sockets store, and those of files, which only pass their arguments
-- to a system call; the inotify branches of lib/FileMgr.cpp, which that file switches off, and its reader
-- of MIME tables, whose tokenizer is not in the repository; an append of a buffer's own bytes; what
-- `isspace` and `isprint` make of a negative `char`; dates before 1970 and parts of seconds; the parse of HTTP dates; the copy of systemd's
-- sd-daemon; the destructors of streams; the methods that only return 0 because they are not written yet.
pub mod Base
pub mod Memory
pub mod Buffer
pub mod Decimal
pub mod BufferRef
pub mod BufferStream
pub mod Kernel
pub mod ReadLoop
pub mod Pipe
pub mod ChunkedStream
pub mod FilterStream
pub mod Address
pub mod Text
pub mod System
pub mod Listen
pub mod ServerSocket
pub mod Server
pub mod InetServer
pub mod UnixServer
pub mod Socket
pub mod SocketDriver
pub mod File
pub mod FileMgr
pub mod TimeSpan
pub mod DateTime
pub mod Echo
pub mod Splicing
pub mod Concrete
