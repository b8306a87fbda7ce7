-- ===== src/Lib.antt =====
-- A streaming server, a player and the tools between them, in C over FFmpeg. What is modelled is
-- the program's own state: the control channel between the programs (stream_buffer.c), the queues
-- that join the player's threads (ffplay2.c), the file of stream parameters (ff_header.c), and the
-- server's segments, live packets, connections, requests and local files (ffserver.c,
-- plugin_dir.c), the clocks and the display of the player (ffplay2.c), the blocks that an encoder
-- writes (ff_utils.c), and the start codes and time stamps of a demuxer (pes.c).
--
-- How the parts meet: the server and a tool exchange messages through ff_ctl_send and ff_ctl_recv.
-- The player's reader fills a packet queue for each decoder, and each decoder fills a frame queue
-- for the display, which video_refresh paces by the clocks. An encoder writes stream parameters to
-- a file that a decoder reads. In the server an uploading connection writes HLS segments or live
-- packets, which other connections read, and wakes those that wait for it. handle_connection reads
-- a request and hands it to http_parse_request, which answers it from the segments, the feeds, or
-- the files.
--
-- Files, with the code that they model:
-- Base, Base/*: Boolean tests, lists as C arrays, copies into a block, integers, big-endian words.
-- StreamBuffer: StreamBuffer and sb_init, sb_write, sb_read; StreamBuffer/Contents what a buffer
--   holds, /Refine its refinement of ByteQueue, /Calls the calls by the room that there is.
-- ByteQueue: the contract of the buffer, a bounded queue of bytes.
-- Control: ctrl_msg_t, ff_ctl_send, ff_ctl_send_string, ff_ctl_recv, ctl_msg_pending, ctl_msg_send,
--   ctl_msg_recv. The labels of ff_ctl_recv are the functions at_nlen, at_dlen, at_name and
--   at_data, so that a call can resume where the last one left. /Frame and /Delivery are about
--   whole messages, /Sending about the sender and the way from one end to the other, /Faults about
--   where the code goes wrong.
-- FrameQueue: Frame, FrameQueue and the frame_queue functions; /Ring the indices, /Order the frames
--   in order, /Schedule a decoder and the display at work.
-- Player: Clock and the functions from get_clock to sync_clock_to_slave; /State VideoState and the
--   functions from get_master_sync_type to update_video_pts; /Pausing the clocks in a pause;
--   /Refresh video_refresh, with Shown about the pictures that are displayed and Rounds about its
--   loop.
-- PacketQueue: PacketQueue and the packet_queue functions; /Accounts the counters, /Serials the
--   serials.
-- Header: the parameter Libav; /Words the macros, /Codec the records of FFmpeg's that are carried,
--   /Sections and /File header_write, header_read, ff_header_write, ff_header_read, /OneStream,
--   /RoundTrip and /Gap their round trips and their limits.
-- Server: the records of a connection; /Segment and /Segments hls_close, hls_parse_request,
--   hls_write, hls_read, hls_reset; /Packets sff_free, sff_reset, sff_write, sff_read, sff_parse;
--   /Connections new_connection, close_connection, sff_close, find_feed, wake_others, and its child
--   Waking what waking leaves alone; /Chunks recv_chunked, with Digits about sizes as text.
--   /Receive the packets of http_receive_data and, in Blocks, sff_write_block, with Delivery and
--   Schedule about an encoder's stream; /Receive/Data the whole of http_receive_data, with Upload,
--   Stored and Whole about the upload of a segment. /Send sff_prepare_data, local_prepare_data,
--   http_send_data, with Framing about chunks, Rounds, Files, Calls and Transfer about a file on
--   its way, States about a connection's state. /Response prepare_response, get_mine_type and the
--   headers and error pages of http_parse_request. /Libs the functions on text that are not the
--   repository's, /Numbers strtoll. /Request handle_line and url_local, with Get about the line of
--   a GET. /Dispatch http_parse_request; its branches are in /Uploads (uploads, removals, sign_apk)
--   and /Joining (segments, streams, files), /Content is read_request_content, /Outcomes checkToken
--   and what a request meets and leads to. Guards is about what a request may do, Requests about
--   its lines, Streams about feeds and their readers. /Handle handle_connection, with Pieces about
--   requests in pieces and Diagram and Moves about the states. /Files prepare_local_file and
--   dir_is_modifed, with Ranges about its ranges and Cached about files that the client has.
--   /Listing dir2html, dir_list_local, dir_delete_file (plugin_dir.c), with Pages about a
--   directory's page.
-- Text: hex2int, url_decode, skip_spaces, get_word, get_line, htmlstrip; Text/Utf8 is_utf8, whose
--   loop runs on fuel, a round for each byte being enough.
-- Pes: is_pes_start_code, parse_pes_pts, pes_read_probe (pes.c); /Packet sync_to_startcode and
--   pes_read_packet over the parameter Avio, with Built about a packet with two stamps.
-- Tests: the theorems at concrete inputs.
--
-- State is passed explicitly, a pointer into a buffer is an offset or the bytes from it on, a
-- pointer to a connection is its address, and a mutex makes each call one step, so that an
-- interleaving of threads is a list of calls. A call that would wait gives a result that says so.
-- Allocations that the code checks are arguments; those that it does not check succeed. Ints are
-- native numbers or their bit patterns. The loop of ff_ctl_recv runs on fuel, one round for each
-- message being enough where whole messages are there, and so does that of is_utf8. The rounds of
-- http_send_data are fuel: two are enough for a file in chunks, and a result of its own says that
-- they are too few. The bytes that get_line looks at, the lines of a request, and the pictures and the
-- subtitles that video_refresh looks at have a round each, and one more. The sizes of a segment are
-- ints, and a sum past the largest is a fault; bytes that hls_read gave stand for the memory they are
-- in, and what would move that memory before they are sent is a fault of the model of a writer and a
-- reader; a new upload of a segment while it is being sent is not looked at. A call of video_refresh is one step, and a write to a file does not fail. Doubles are their 64 bits,
-- and their operations are the parameter Floating; what the server asks of the system is the
-- parameter System. The rounds of sync_to_startcode are an argument, since the input that FFmpeg
-- gives need not end; too few give a result of their own. The time is read once for each picture
-- that video_refresh looks at. The loop that drains an upload to a file has a round for each byte.
-- Every other loop is structural recursion.
--
-- Not modelled: decoding, drawing and their threads, the copies of FFmpeg's code (avstring.c,
-- compact.c, hlsenc.c), sockets, TLS, zlib, SSDP and DVB (a build without them is modelled), the
-- transcoding tools, the server's loop over poll, pes_read_header and the unused read_to_next_sync,
-- the correction of the sound's speed and the status line of the player.
pub mod Base
pub mod ByteQueue
pub mod StreamBuffer
pub mod Control
pub mod FrameQueue
pub mod PacketQueue
pub mod Player
pub mod Header
pub mod Server
pub mod Text
pub mod Pes
pub mod Tests
