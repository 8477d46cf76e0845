-- ===== src/Lib.antt =====
-- kongja express: an event-driven C framework with byte streams and the Modbus protocol.
--
-- A watcher (src/core/watcher.c) starts and stops the event sources of a descriptor. A stream
-- (src/stream/stream.c) reads on its events and writes through a circular buffer
-- (src/utils/circ_buffer.c). The Modbus slaves and masters (src/protocols/modbus) run on streams:
-- frames come by the MBAP reader over TCP and with a CRC over a serial line. The TCP master gets its
-- stream from a connector (src/net) that dials again when it fails. Tasks (src/core/task.c) send each
-- other messages; a pool (src/core/item_pool.c) lends buffers that a task consumes, as the
-- log (src/core/log.c) does. The command line (src/cli/cli.c) reads lines and runs commands.
--
-- Prelude: shared names, C arrays as lists, bytes, bit operations.
-- ByteQueue: a queue of bytes with a bound, the abstract view of the circular buffer.
-- CircBuffer: src/utils/circ_buffer.c and inc/circ_buffer.h. The operations have the names of the
--   C functions, and a return value of 0 is true, -1 false. Inv has the invariant, Contents the
--   bytes held, Refine the refinement to ByteQueue.
-- Watcher: src/core/watcher.c, over an interface for the event loop of libev. Sync relates the
--   flags to the active event sources.
-- Stream: src/stream/stream.c. What read and write return is an argument. Transmit is about the
--   transmit queue, Stranded about partial writes, Sources about its watcher.
-- Modbus.Common: inc/modbus/modbus_common.h, inc/modbus/modbus_slave.h.
-- Modbus.Crc: src/protocols/modbus/modbus_crc.c. Reference has a bitwise CRC-16, Detect the
--   trailer of a frame and corrupted bytes.
-- Modbus.Funcs: modbus_func_coils.c, modbus_func_discrete.c, modbus_func_input.c and
--   modbus_func_holding.c (Read, Write) and modbus_rtu_request_handler.c (Dispatch). The
--   application's callbacks are a parameter that is asked to store bytes in place.
-- Modbus.Mbap: src/protocols/modbus/mbap_reader.c, with the callback as a parameter. Framing is
--   about one frame, Stream about reads cut at any places, Resync about wrong length fields, World
--   about the state of the callback.
-- Modbus.RtuSlave: src/protocols/modbus/modbus_rtu_slave.c. Bounds has the invariant of its buffer,
--   Gather the reads and silences of the line, Serve the answers.
-- Modbus.TcpSlave: src/protocols/modbus/modbus_tcp_slave.c. Serve has the answers to the frames of a
--   connection. Connections has the connections of a slave, as events that reach it in any order:
--   Closed is about their descriptors, Others about one beside the others, Reads and Served about what
--   a client is served, Quiet about the event loop.
-- Modbus.BitFields: src/protocols/modbus/modbus_util.c. Words is about the word that it works on,
--   Contents about the bits of the array.
-- Modbus.Master: src/protocols/modbus/modbus_master.c (the requests) and
--   modbus_rtu_response_handler.c (Validate). Built is about the PDU of a request, Coils about the
--   coils in it, Accept about a read from the request to the callback, Writes and Written about the
--   write of many values.
-- Modbus.TcpMaster: src/protocols/modbus/modbus_tcp_master.c, over the connector, the stream and the
--   reader. Frames has the frames of requests and the check of transactions.
-- Modbus.RtuMaster: src/protocols/modbus/modbus_rtu_master.c. Answered is about a request at the RTU
--   slave.
-- Modbus.Session: a read from the TCP master to the TCP slave and back.
-- TcpServer: src/net/tcp_server.c, tcp_server_ipv4.c and tcp_server_unix_domain.c, with the results of
--   the system calls as arguments. Listening is about the event loop and the descriptor.
-- UdpSocket: src/net/udp_socket.c. Watching is about the event loop.
-- TcpConnector: src/net/tcp_connector.c, with the results of the system calls as arguments.
-- TcpAutoConnector: src/net/tcp_auto_connector.c. Its functions call each other, on fuel, which
--   Terminates is about. Valid has the invariant, Safety is about the steps.
-- Sbuf: src/utils/sbuf.c. Appended is about calls that write and read, Numbers about a number written
--   and read.
-- ConfigReader: src/utils/config_reader.c, with cJSON as an interface and the memory of
--   strdup and strndup as an argument. Paths is about the loop over a path, Loaded about the load of
--   parameters.
-- BHash: src/utils/bhash.c. Find is about one bucket, Refine has the map that the table is.
-- Task: src/core/task.c and idle_task.c. The message queue of a task, as steps of threads; Delivery is
--   about the order of its messages. Threads has the tasks of a process and their threads, Own the task
--   of a thread, Routed the steps of a process as steps of each task.
-- ItemPool: src/core/item_pool.c, over Task. Whole is about where the buffers are.
-- Log: src/core/log.c, over ItemPool. Printed is about the lines that are printed.
-- RequestQueue: src/utils/request_queue.c. Order is about the lists of the priorities, Calls about
--   sequences of calls.
-- Cli: src/cli/cli.c. Edit is about the buffer of a line, Lines about the lines that are executed,
--   Printed about the calls that print.
-- CliTelnet: src/cli/cli_telnet.c. Session is about what a client types, Output and Heard about what
--   reaches it, Server, Listed and Served about the connections of the
--   server.
-- CliSerial: src/cli/cli_serial.c. Typed is about what is typed on the line.
-- Serial: src/serial/serial.c, with the flags of termios.h as a parameter. Flags and Flagged are about
--   these, where CS5 is taken to be 0, Settings about the settings of a line.
-- Telnet: src/protocols/telnet_reader.c, with the codes of the protocol as a parameter. Data is about
--   escaped data, Command about subnegotiations and the bound of the buffer.
--
-- Numbers are natural numbers, with the wrap-around of uint8_t and uint16_t written out; int fields
-- are sizes and indices that stay far below 2 ^ 31. Every loop is structural recursion over the
-- bytes or the elements; the auto connector uses fuel, where its functions call each other, and the
-- configuration reader for the loop over a path, with two more than the bytes of the path.
-- What other threads and the event loop do is a step relation, in which any order is possible.
--
-- Not modelled: the file of the configuration reader and what it prints; timers, which are libev's;
-- libev and cJSON (vendored); the options of sockets and of the program; tracing; the demo.
pub mod Prelude
pub mod BHash
pub mod ByteQueue
pub mod CircBuffer
pub mod CliSerial
pub mod Sbuf
pub mod Serial
pub mod ConfigReader
pub mod Watcher
pub mod Stream
pub mod Modbus
pub mod Telnet
pub mod Task
pub mod ItemPool
pub mod Log
pub mod RequestQueue
pub mod Cli
pub mod CliTelnet
pub mod TcpServer
pub mod UdpSocket
pub mod TcpConnector
pub mod TcpAutoConnector
