-- ===== src/Lib.antt =====
-- UDPspeeder: the forward error correction of a UDP tunnel.
--
-- The tunnel collects packets into groups, cuts each group into `k` shards, adds `r` redundant ones and
-- sends them; the other side brings the packets back from any `k` of the `k + r`. This library models
-- that path, from the packets given to the encoder to the packets out of the decoder.
--
--   Bytes     words and 64-bit keys of common.cpp: write_u16, read_u16, write_u32, read_u32, pack_u64,
--             get_u64_h, get_u64_l, round_up_div.
--   Blob      blob_encode_t and blob_decode_t (fec_manager.h, fec_manager.cpp): packets in one buffer.
--             Blob/Serial is the layout told apart from the code, Blob/Encode and Blob/Decode relate
--             the two buffers to it.
--   Replay    anti_replay_t (fec_manager.h): the numbers of closed groups.
--   Group     fec_group_t (fec_manager.h): the bitmap and the indices of one group.
--   Rs        lib/rs.cpp: rs_encode2 and rs_decode2.
--   Param     fec_parameter_t (fec_manager.h): the table from a number of data shards to a number of
--             redundant ones, filled by rs_from_str from a list of pairs (Param/Table). Param/Rows and
--             Param/Line follow the rows of that table, Param/Str is its text, Param/Printed the way
--             from the table to the text and back.
--   Text      what the program uses of the C library on texts, and string_to_vec (common.cpp).
--   Command   handle_command (misc.cpp): the settings that a line from the fifo changes. Command/Kept is about
--             the settings it leaves, Command/Waits about what an encoder sees of them.
--   Encoder   fec_encode_manager_t (fec_manager.h, fec_manager.cpp): append, input, output, clear_data.
--             Encoder/Best is the search for the number of data shards, Encoder/Flush makes a group;
--             Encoder/Collect is about the packets that wait.
--   Decoder   fec_decode_manager_t (fec_manager.h, fec_manager.cpp): input is Decoder.input, made of
--             Decoder/Wire (the header and its checks), Decoder/State (the tables) and Decoder/Deliver
--             (decoding and delivery). Decoder/Collect, Joins, Complete and Recovery follow one group.
--   Crc       crc32c.h: the checksum in software, with its tables, and in Crc/Hardware with the instructions of
--             x86. Crc/Linear and Crc/Slices compare the tables with one byte at a time, Crc/Bitwise with one
--             bit.
--   Cook      packet_cook.cpp: do_cook and de_cook, which put a checksum behind a packet, mix it with
--             random bytes and combine it with a key. Cook/Xor is xor_tile in its vector forms, Cook/Tile
--             the repeated pattern; Cook/Obscure, Checksum and RoundTrip go there and back.
--   Handles   fd_manager_t (fd_manager.h, fd_manager.cpp): numbers of 64 bits for descriptors.
--   Lru       lru_collector_t (common.h): keys in the order of their last use.
--   Dict      the maps of the standard library (std::unordered_map) as lists of bindings.
--   Convs     conv_manager_t (connection.h): the conversations of a connection, on Dict and Lru. Convs/Links
--             is about the two maps, Convs/Idle about clear_inactive0, Convs/Fresh about get_new_conv,
--             Convs/Erasing about what every erasure of clear_inactive keeps.
--   Framing   put_conv and get_conv (packet.cpp): the number of a conversation in front of its bytes.
--   Sending   my_send and my_send_batch (packet.cpp), with Cook and Handles: a packet is cooked and handed
--             to the system. Sending/Wire is what the calls put on the wire, Sending/Routes where the
--             packets for a socket go, Sending/Batch compares a batch with its packets; Sending/Standing and
--             Delay/Standing are about the handles that stay.
--   Delay     delay_manager_t (delay_manager.h, delay_manager.cpp), delay_send and delay_send_batch
--             (misc.cpp), on Sending: packets that wait for their time.
--   Clock     get_current_time_us, get_current_time and random_between (common.cpp).
--   Tunnel    conn_info_t (connection.h), from_normal_to_fec and from_fec_to_normal (misc.cpp), on all of the
--             above. Tunnel/Client has the handlers of tunnel_client.cpp behind the reading of sockets;
--             Tunnel/Outgoing is what a packet given to the encoder puts on the wire, Tunnel/Replies and
--             Passage follow what comes out of the decoder, Tunnel/Return a packet of an application and
--             what comes back.
--   Conns     conn_manager_t (connection.h, connection.cpp): the connections of the server by address.
--             Conns/Clearing and Shrinking are about what the clearing takes.
--   Server    the handlers of tunnel_server.cpp behind the reading of sockets, and server_clear_function
--             (connection.cpp), on Server/State. Server/Sockets, Hosted and Closing state how the connections, the handles and
--             the watchers belong together; Server/Arrival (on Table, Growing, Opening, Routes and Admission)
--             follows a packet of the tunnel, Server/Answer one of a socket, Server/Expiry the timer of a
--             connection. Server/Running is about sequences of all callbacks, each of which is treated in
--             Settled and Handling or in Replying, however it ends.
--   Link      an encoder and a decoder together; Link/Plain is about the data packets of mode 1,
--             Link/Full about a full group that the decoder refuses.
--   Base      Boolean tests, `assert`, what holds of results, lists, memory and bits. Tests holds concrete
--             inputs.
--
-- Each object is a record of its fields, and an operation is a function from the old state to the new
-- one. A failed `assert` is `none`; where a function returns 0 or -1 the result has a `Reply`. Bytes and
-- unsigned words are natural numbers, with the reduction modulo their width written out; an `int` that
-- can be -1 is an `Option`, or a natural number where the code keeps it from being negative. A packet is
-- the list of its bytes; a buffer is a function from offsets, so that what an operation leaves in it is
-- kept. The random numbers that a loop draws are a list. The lengths of buffers are checked where the
-- source asserts them.
--
-- Fuel: the constructor's doubling loop has 32 rounds, which is enough for a 32-bit size. The loops of
-- packet_cook.cpp have the length of the data, or of the tile, as fuel, and each round takes a byte at
-- least; cook_gcd has one more than its second number, which every round makes smaller. All other loops
-- are recursion on a list or a counter.
--
-- The Reed-Solomon library lib/fec.cpp is a third-party copy. Its two calls are the fields of
-- `Rs.Codec`, functions on lists of numbers, and `Rs.Corrects` is what lib/rs.h documents of them.
-- The parts of fec_manager.cpp that a compile-time constant of 1 selects (encode_fast_send,
-- decode_fast_send), or a default of 1 (short_packet_optimize), are modelled with it.
--
-- An `int` that sscanf reads is not bounded, where C gives a number that does not fit no meaning; the
-- sum of the two numbers of a pair wraps at 32 bits, as compilers make it. A word that is longer than
-- the buffer that the fec command reads it into is `none`; the buffers for the printed text are as long
-- as it needs. In mode 1 my_send cooks the shards in the encoder's own buffers, where the model cooks a
-- copy, so that the rows the encoder keeps stay as they were. A call of sendmmsg counts as one that sends
-- all its messages. What the constructors of an encoder and a decoder leave in a new connection is an
-- argument. What lies in memory behind a shard, which a decoder hands out when a length says so, is an
-- argument too. Logging and the event loop are not modelled: a
-- timer is a field, and the time an argument, which Clock.get_current_time_us can give. In packet_cook.cpp and packet.cpp the sum is an argument of the definitions, for which Crc.crc32c can
-- be put; in crc32c.h the instructions of the processor are arguments, and Crc/Hardware/Agree states
-- what their manuals say. Arguments too are the random bytes and numbers, the platform and what the
-- stack holds; the SPE form of xor_tile, which calls assembly, and the ARM routine of crc32c.h are
-- left out. What the system returns from a call is not modelled; the calls themselves are kept in
-- their order. The multimap of delayed packets is a sorted list, and its timer a number of
-- microseconds, where the source has seconds as a double. The hash maps are lists, and an iterator of
-- the map of connections is a key in that order. An address is a number that stands for its bytes.
--
-- What new_connected_socket2 opens is an argument of the server's handlers, and a
-- watcher of libev is a field that holds what its callback is called with, the connection by its address.
--
-- Not modelled: the reading of sockets, main.cpp and the command line (misc.cpp), which are I/O around
-- the parts above; io_uring_recv.cpp, which uring_init never turns on; the copies of libev, of the Crc32
-- library and of lib/fec.cpp, and the benchmarks.
pub mod Base
pub mod Bytes
pub mod Blob
pub mod Replay
pub mod Group
pub mod Rs
pub mod Decoder
pub mod Text
pub mod Param
pub mod Command
pub mod Encoder
pub mod Crc
pub mod Cook
pub mod Handles
pub mod Lru
pub mod Dict
pub mod Convs
pub mod Framing
pub mod Sending
pub mod Delay
pub mod Clock
pub mod Tunnel
pub mod Conns
pub mod Server
pub mod Link
mod Tests
