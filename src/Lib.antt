-- ===== src/Lib.antt =====
-- A model of TaniDVR (a client for Dahua DVRs and a converter of their streams), with the theorems
-- that make its parts correct.
--
-- The program receives a byte stream from a DVR, or from a file. src/mctools.c holds the byte
-- queue `dstf_t`, which cuts the stream into frames; src/dhav2mkv.c and src/dvrcontrol.c run the
-- loops that read, cut and convert; src/bufftools.c is the circular buffer through which
-- `buffered_tunnel_pipe` of src/dvrcontrol.c passes bytes between two descriptors; src/bintools.h
-- reads and writes integers in memory. src/llprotocol.c sends and receives headers of 32 bytes
-- with their extended data, and src/hlprotocol.c makes the requests to the DVR of them: login,
-- queries, media; src/devinfo.h holds what the DVR says of itself.
--
-- The files: BinTools is src/bintools.h. Frames is `dstf_t`, `dstf_init`, `memcpy_overlap` and the
-- loading of new bytes; Frames.Dhav is `dstf_process_dhav_stream_to_frames` (judge: one look at
-- the front of the queue; skip: on to the next header; scan: the loop; finish: the hand-over);
-- Frames.Raw is `search_mpeg_NAL` and `dstf_process_raw_h264_stream_to_frames`. Stream is the
-- loops of `process_dhav_stream` over a handler of frames. Fifo is `btfifo_t` with
-- `btfifo_create`, `btfifo_fd_to_fifo` and `btfifo_fifo_to_fd`. Tunnel is `buffered_tunnel_pipe`.
-- Link is src/llprotocol.c, Protocol is src/hlprotocol.c with a module for each group of requests
-- (Login, SystemInfo, Media, Channels), Devinfo is src/devinfo.c with `extract_string` and
-- `update_devinfo_from_system_information`, and of src/mctools.c FrameInfo is
-- `dt_collect_dhav_frame_info` and `dt_collect_raw_h264_frame_info`, Mkv is
-- `dt_convert_frame_to_mkv` (Mkv.Header: the main header of the first frame), TsProc is
-- `dt_tsproc_process`, Convert is the whole `process_dhav_stream` of src/dhav2mkv.c, from the
-- bytes of the input to the bytes of the output file, Session is `open_session` and
-- `stream_media_dvr_to_pipe` of src/dvrcontrol.c, with `stream_dvr_subprocess_to_pipe` in
-- Session.Relay, Recording is `stream_media_dvr_to_file` in the process that writes the file, with
-- `poll_pipe_read`, Sockets is src/network.c, Mptools is src/mptools.c, Files is the opening and
-- closing of src/filetools.c, Timers is src/timertools.c, Shtools is src/shtools.c, Options is the
-- command line of src/tanidvr.c, Programs is main of src/tanidvr.c and the options and main of
-- src/dhav2mkv.c, and Identify is `find_bin_seq_in_mem` and `identify_mc_format`. Their children
-- hold the proofs; Prelude holds what they share; Tests runs the theorems on small inputs.
--
-- Memory is a list of bytes with positions for pointers. `size_t` differences wrap at 2 ^ 64
-- (sub_size). An `int` is a ℤ where its sign matters, else its bit pattern. A read before the
-- queue's array is the outcome `wild`. The scan over the queue has `sq_len + 1` rounds of fuel;
-- each round drops a byte, so they never run out. The inner loop of Stream has the caller's fuel;
-- above the queue's size is enough for the raw stream, and for a DHAV stream of whole frames; a
-- DHAV header of length 0 exhausts any. The loops that wait for replies have as many rounds as
-- there are bytes to come, and each round reads 32 of them.
--
-- A connection is the bytes that will come before its end or an error, the bytes that were sent,
-- and how many more can be sent; `fread` and `fwrite` do what ISO C says.
--
-- The system is not modelled: `poll`, `read` and `write` are arguments, which may answer anything
-- that keeps to the sizes asked for; `malloc` is the block it returns. VERSION and the
-- floating-point `transform_fps_to_mkvfps` are arguments too. Not modelled: the text that the
-- programs print, and the logging.
pub mod Prelude
pub mod BinTools
pub mod Frames
pub mod Stream
pub mod Fifo
pub mod Tunnel
pub mod Link
pub mod Protocol
pub mod Devinfo
pub mod FrameInfo
pub mod Mkv
pub mod Identify
pub mod TsProc
pub mod Convert
pub mod Session
pub mod Recording
pub mod Sockets
pub mod Shtools
pub mod Timers
pub mod Files
pub mod Mptools
pub mod Programs
pub mod Options
pub mod Tests
