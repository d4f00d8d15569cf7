-- ===== src/Wire.antt =====
-- sail/wire: cells, the per-hop onion layers and the WebSocket framing. This file: the constants.
pub mod Cell
pub mod Replay
pub mod Resume
pub mod Onion
pub mod Ws
use sailnet.Common.{ℕ, ◌+◌, ◌-◌, ◌*◌}

abbrev pub cell_size : ℕ
cell_size = 1024

abbrev pub header_size : ℕ
header_size = 9

abbrev pub payload_size : ℕ
payload_size = cell_size - header_size

abbrev pub tag_size : ℕ
tag_size = 16

abbrev pub nonce_size : ℕ
nonce_size = 12

abbrev pub max_data : ℕ
max_data = payload_size - 3 * (tag_size + nonce_size) - 8

abbrev pub cmd_create : ℕ
cmd_create = 1

abbrev pub cmd_created : ℕ
cmd_created = 2

abbrev pub cmd_extend : ℕ
cmd_extend = 3

abbrev pub cmd_begin : ℕ
cmd_begin = 5

abbrev pub cmd_connected : ℕ
cmd_connected = 6

abbrev pub cmd_data : ℕ
cmd_data = 7

abbrev pub cmd_end : ℕ
cmd_end = 8

abbrev pub cmd_ping : ℕ
cmd_ping = 9

abbrev pub cmd_pong : ℕ
cmd_pong = 10

abbrev pub cmd_quota : ℕ
cmd_quota = 11

abbrev pub cmd_error : ℕ
cmd_error = 12

abbrev pub cmd_destroy : ℕ
cmd_destroy = 13

abbrev pub cmd_home_hello : ℕ
cmd_home_hello = 14

abbrev pub cmd_home_ok : ℕ
cmd_home_ok = 15

abbrev pub cmd_padding : ℕ
cmd_padding = 18

abbrev pub cmd_rpc : ℕ
cmd_rpc = 20

abbrev pub cmd_rpc_reply : ℕ
cmd_rpc_reply = 21

abbrev pub cmd_begin2 : ℕ
cmd_begin2 = 24

abbrev pub cmd_credit : ℕ
cmd_credit = 25

abbrev pub cmd_top_up : ℕ
cmd_top_up = 26

abbrev pub cmd_resume : ℕ
cmd_resume = 27

abbrev pub cmd_resumed : ℕ
cmd_resumed = 28

abbrev pub cmd_rpc_multi : ℕ
cmd_rpc_multi = 29

abbrev pub cmd_pair : ℕ
cmd_pair = 30

abbrev pub quota_low_stream : ℕ
quota_low_stream = 2

abbrev pub stream_window : ℕ
stream_window = 2048

abbrev pub max_stream_window : ℕ
max_stream_window = 16384
