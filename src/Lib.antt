-- ===== src/Lib.antt =====
-- A verification library for the peer-to-peer file sharing program of this repository.
--
-- A peer asks all others for the chunks of a file by their hashes (WHOHAS), learns who has which
-- (IHAVE), and gets each chunk of 512 KB as 512 DATA packets of 1024 bytes. flow_control.c keeps, at
-- the sender, a sliding window with congestion control for each chunk, and at the receiver a buffer
-- for each chunk. packet.c builds and reads packets, and peer.c moves them between the sockets and
-- these two.
--
-- Files:
--   Base         shared names: Boolean tests, chains of options, C arrays and C integers
--   Packet       packet.h and init_packet of packet.c; Packet/Layout its theorems
--   Tracker      create_timer, remove_from_tracker and timer_expired of flow_control.c;
--                Tracker/Laws their theorems
--   Sender       the sending side of flow_control.c. Sender/State is data_t and its list, loss and
--                congestion control, Sender/Window is send_data, Sender/Ack is handle_ack. Sent,
--                Returned, Pending, Marks, Invariant and Sending hold the invariant of a chunk and what each
--                operation does to it, Safety, Replies, Congestion and Stall the theorems
--   Receiver     the receiving side of flow_control.c: init_recv_buffer, recv_data, copy_chunk_data,
--                release_buffer and is_buffer_full. Store, Acks, Lengths and Keeps hold the invariants
--                of a buffer, Answers, Full and Restart the theorems
--   Chunk        chunk.c: Chunk/Hex on hex2binary and binary2hex, Chunk/Split on make_chunks.
--                Chunk/Tool is make_chunks.c, the program around them, with its theorem
--   Hashes       read_chunkfile, find_in_local_has and the three lookups in the master chunk file of
--                packet.c; Hashes/Local and Hashes/Master their theorems
--   Manager      the rest of packet.c. Manager/State is file_manager_t with the configuration,
--                Manager/File is check_file_manager, Manager/Ask generate_WHOHAS and
--                re_generateWhohas, Manager/Handle is handle_packet. The theorems: Reply on WHOHAS,
--                Wanted and Have on IHAVE, Get on GET, Stored and Received on DATA, Acked on ACK
--                packets, Questions, Request and Again on the two makers of WHOHAS packets, Bytes,
--                Finish and Output on the file
--   Peer         peer.c: process_inbound_udp, process_get, broadcast, and the checks of each round of
--                peer_run. Peer/Run is handle_user_input and a whole round, Peer/Start is main and what
--                comes before the rounds. The theorems: Sweep and Order, Timers and Handled with
--                Reachable on all states that rounds reach, Routed on two peers behind a router
--   Spiffy       spiffy.c: the header that goes in front of a datagram for the router;
--                Spiffy/RoundTrip its theorem. Spiffy/Init is spiffy_init
--   Config       bt_parse.c: the options and the list of nodes; Config/Own the theorem
--   Input        input_buffer.c: the lines of the user's input; Input/Lines, Loop and Runs its theorems
--   Log          log.c; Log/Times its theorem
--   Debug        set_debug of debug.c
--   Transfer     both sides together. Transfer is a packet's way from send_data to copy_chunk_data.
--                Parts, Written, Window, Link, Receive, Download and Fetch lead to the whole way of a
--                chunk, from the GET packet to the file. Discover is the way to the GET packet, from
--                WHOHAS and IHAVE on; Arrivals and Reorder are about a network that loses, repeats and
--                reorders packets
--
-- How the code is read:
--   - A global list is a value that a function takes and returns, in the order of its next pointers.
--     A write through a pointer into the list is a write of the list's first entry with that key.
--   - `none` is undefined behaviour: an index out of an array, a null pointer that is followed, a name
--     or a word that is too long for its array, or a place in a file beyond an int (read_content).
--     Allocation is assumed to succeed, and what malloc leaves in a field is a parameter (`garbage`,
--     `prev`, `count`). So are the bytes behind an unterminated string (`junk`) and behind the array
--     chunks (`beyond`).
--   - Else an int is an integer, without overflow: a window or a count grows by one for each packet, and
--     what is said of any number of packets holds up to 2 ^ 31. A field of a packet is the bit
--     pattern of its C type, and the conversions between the two are written out. The host is
--     little-endian.
--   - The float of the congestion control is a parameter with the operations that the code uses; no
--     law is assumed of it.
--   - A text file is the sequence of the pairs, an index and a word, that fscanf reads from it; a data
--     file is its bytes. That the output file can be opened is assumed. SHA-1, a library of its own in
--     sha.c, is a parameter, and so are gethostbyname and inet_aton.
--   - A loop is recursion on the rounds that are left (512 - i in handle_ack, 1024 - expected in
--     recv_data, the free window in send_data), or on the list it runs over, so every function ends.
--     Two loops have fuel. make_chunks has the size of the file, of which each round reads a byte or
--     more. process_user_input has one more than the bytes of the buffer, of which each line takes one
--     or more.
--   - Output for debugging is left out. The sender keeps the lines of the window log without their
--     time, which Log is about.
--
-- Not modelled: sha.c (a library of its own), the text that is printed, the calls of the sockets, of
-- select and of getopt (what they give is an argument of a round and of main), LOGCLOSE, which is not
-- reached, and the test programs client.c, server.c, test_input_buffer.c and test/.
pub mod Base
pub mod Packet
pub mod Tracker
pub mod Sender
pub mod Receiver
pub mod Transfer
pub mod Chunk
pub mod Hashes
pub mod Manager
pub mod Peer
pub mod Spiffy
pub mod Config
pub mod Input
pub mod Log
pub mod Debug
