-- ===== src/Lib.antt =====
-- A reactor network library and the chat server that runs on it.
--
-- The parts and their files. Paths are from the repository's root.
--
--   Buffer (Buffer.h, Buffer.cc, Endian.h) is the byte array with a reader and a writer index that
--   every connection has twice. The record `Buffer` has the three members; each method is the
--   function of its name in Buffer.antt. Sums and differences of `size_t` are taken modulo 2 ^ 64.
--   Bytes are numbers, and the bytes of `hostToNetwork32` are those of its argument, most
--   significant first (Prelude/Words). readv(2) is an argument of `read_fd`.
--
--   Connection (TcpConnection.cc, TcpConnection.h, Channel.h) is one TcpConnection in its loop
--   thread: its state, the channel's read and write events, the two buffers, what it queued in the
--   loop, the callbacks that it made and the bytes that write(2) took. `send_in_loop` is sendInLoop,
--   cut where the code asks after errors and leftovers (`write_direct`, `finish_send`, `keep_rest`,
--   `keep_bytes`); `handle_read`, `handle_write`, `handle_close`, `shutdown`, `force_close`,
--   `connect_established` and `connect_destroyed` are the methods of these names. The answers of
--   write(2) and readv(2) are arguments. Logging and socket options are left out.
--
--   Connector (Connector.cc, Connector.h) opens the client's connection and tries again after a
--   failure. Its record also has the sockets that are open, the sockets given to the callback, and
--   the delays asked of the timer, with those of the timers that have not fired. connect(2), SO_ERROR
--   and isSelfConnect are arguments. `cancel` is EventLoop::cancel (EventLoop.cc), whose body is empty.
--   Connector/Steps has the events that can reach a connector and the states that they lead to.
--
--   Poller (Poller.cc, Poller.h, Channel.h) is the table of pollfds, the map from descriptors to
--   channels and the channels themselves, which table and map share: a channel is a number into a
--   store. `update_channel`, `remove_channel`, `fill_active_channels` and `poll` are the methods of
--   these names; `set_events` is a change of a channel's events with its `update`. What poll(2)
--   answers is an argument.
--
--   EventLoop (EventLoop.cc) is the list of functors that wait in a loop: `run_in_loop`,
--   `queue_in_loop` and `do_pending_functors`, over any functors and what they queue in their turn.
--   A write to the wakeup descriptor is counted.
--
--   LengthCodec (excercises/chat/codec.h; excercises/chatServer/codec.h is the same text) cuts the
--   connection's bytes into messages by a length header. `on_message` is onMessage over the input
--   buffer, `turn` the body of its loop, `send` the sender.
--
--   ProtobufCodec (protobuf/codec/codec.cc and codec.h; the copy under excercises/chatServer/codec
--   differs in two include paths) does the same for protobuf messages, with the type's name and a
--   checksum. `fill_empty_buffer`, `create_message`, `parse`, `on_message` and `send` are the methods
--   of these names; `write_message`, `seal`, `parse_named`, `parse_data`, `turn`, `turn_at` and
--   `take_message` are parts of them. It sends through Connection. The protobuf library and zlib are
--   the record `Protobuf`, with the laws of the types that are linked into the program;
--   ProtobufCodec/Tests has one such record with Adler-32 written out.
--
--   ChatServer (excercises/chatServer/server_threaded.cc) has the handlers of the chat server:
--   `on_sign_up`, `on_login`, `on_quit`, `on_p_message`, `on_g_message`, `on_create_group` and
--   `on_add_group`. Its record has the three tables and the messages sent. MySQL's rows are
--   arguments; redis and protobuf are the record `Services`, with LPUSH, LLEN and LRANGE as redis
--   documents them, and the order of the group table boost's. A redis command without a reply is
--   not modelled. onLogin frees a reply twice; the model counts this and goes on.
--
--   TimerQueue (TimerQueue.cc, Timer.h, Timer.cc) has the two sets of timers, the heap that they point
--   into and the clock that they set. `insert`, `add_timer`, `cancel_in_loop`, `get_expired`, `reset`
--   and `handle_read` are the methods of these names; `renew` is the loop of reset, `cancel_active`
--   the branch of a timer that waits, `run_expired` the loop of callbacks, which may call the queue.
--   A set is a sorted list of pairs (TimerQueue/Sets). The clock's answers and the addresses of new
--   timers are arguments; an address in use, which operator new never returns, adds nothing.
--
--   TcpServer (TcpServer.cc, Acceptor.cc, EventLoopThreadPool.cc) is the map of connections by the
--   number in their name, 32 bits, the turn of the loops, and what each loop was asked to call. `start`,
--   `new_connection`, `remove_connection_in_loop`, `get_next_loop` and `handle_read` are the methods.
--
--   Date and TimeZone (Date.cc, Date.h, TimeZone.cc) are the Julian day numbers, UTC and local times,
--   the search in the table of transitions (`find_localtime`) and the reader of zone files
--   (TimeZone/File), whose loops are functions of their own. A time is an integer; C's `/` and `%`
--   are `quot` and `rem` of Prelude/Int, the conversion to int is `to_int` of Prelude/Words, and a
--   date whose numbers an int does not hold is `none`. gmtime_r(3) and timegm(3) are arguments.
--
--   SudokuStat (excercises/sudoku/stat.h, percentile.h) counts requests and latencies for each of
--   the last sixty seconds. A circular buffer is the list of its elements, newest first, and its
--   push_back an argument with the law that boost documents. `count_response` is the part of
--   recordResponse behind its first tests; `advance`, `jump_ahead` and `count_earlier` are branches.
--
--   Hub (excercises/hub/hub.cc) is the publish-subscribe server: topics with their audiences, the
--   subscriptions of each connection and the messages sent. `do_subscribe`, `do_unsubscribe`,
--   `do_publish`, `on_connection` and `on_message` are the methods of these names; Topic::add, remove
--   and publish are written into them. What the text codec parses is an argument. Hub/History has the
--   histories of the network's events, and what a history says of who hears what.
--
--   LogStream (LogStream.cc, LogStream.h) is the buffer of fixed size that log lines are written
--   into, by the characters before `cur_`. `put` is the operators `<<` but the one of double, whose
--   arguments are the type `Value`; `convert` and `convert_hex` are the conversions of these names,
--   with their loops on fuel for the digits of 64 bits, and `format_integer` is formatInteger.
--
--   Prelude has what the parts share: lists by native numbers, slices of byte arrays, signed
--   integers, machine words, steps that may fail, and maps as association lists.
--
-- Failure. `none` is a failed assertion or a LOG_FATAL, which abort the program, a read through a null
-- pointer, or an int that overflows.
--
-- Loops. The receiving loops run on fuel, one unit for each turn. Each message takes at least one
-- byte from the buffer, so that fuel above the number of readable bytes is enough, for any bytes.
-- Other loops of the code are recursion on a list.
--
-- Bounds. A vector of more than 2 ^ 63 - 1 bytes throws; theorems about growing buffers ask for room
-- below that. The length-header codec accepts up to 65536 bytes, the protobuf codec 64 MiB.
--
-- Not modelled: EventLoop::loop and TcpClient but for what the parts above use of them; the sudoku
-- solver and its servers, the hub's text codec and client, and the time, echo, finger and
-- file-transfer programs; logging but for its LogStream; wrappers of system calls and threads, whose
-- answers are arguments; the clients and load tests; code that protoc generated. Calls from other threads are modelled as what they queue in the loop, in
-- order; the locks are taken to work. Dates before the year 0 and timers before 1970 are left out.
pub mod Prelude
pub mod Buffer
pub mod LengthCodec
pub mod ProtobufCodec
pub mod TimerQueue
pub mod Date
pub mod TimeZone
pub mod SudokuStat
pub mod TcpServer
pub mod Hub
pub mod LogStream
pub mod Connection
pub mod ChatServer
pub mod Connector
pub mod Poller
pub mod EventLoop
