-- ===== src/Limits.antt =====
-- crates/wsnet-limits/src/lib.rs: the budgets that the other modules read.
use my_websocket_net.Prelude.{ℕ, ◌+◌, ◌-◌, ◌*◌, ◌^◌}

-- One past the largest u64, and the largest u64.
abbrev pub u64_mod : ℕ
u64_mod = 2 ^ 64

abbrev pub u64_max : ℕ
u64_max = 2 ^ 64 - 1

abbrev pub kib : ℕ → ℕ
kib n = n * 1024

abbrev pub max_record_plaintext : ℕ
max_record_plaintext = kib 96

abbrev pub max_metadata : ℕ
max_metadata = kib 4

abbrev pub max_padding : ℕ
max_padding = kib 1

abbrev pub envelope_header_len : ℕ
envelope_header_len = 1 + 16 + 8

abbrev pub aead_tag_len : ℕ
aead_tag_len = 16

abbrev pub replay_window : ℕ
replay_window = 65536

abbrev pub replay_max_forward_jump : ℕ
replay_max_forward_jump = replay_window

abbrev pub packet_no_exhaustion_margin : ℕ
packet_no_exhaustion_margin = 2 ^ 20

abbrev pub max_post_batch_bytes : ℕ
max_post_batch_bytes = kib 256

abbrev pub max_post_batch_records : ℕ
max_post_batch_records = 64

abbrev pub max_carrier_record : ℕ
max_carrier_record = max_record_plaintext + envelope_header_len + aead_tag_len

abbrev pub max_sse_event : ℕ
max_sse_event = kib 160

abbrev pub auth_window_default_secs : ℕ
auth_window_default_secs = 120

abbrev pub auth_window_min_secs : ℕ
auth_window_min_secs = 60

abbrev pub auth_window_max_secs : ℕ
auth_window_max_secs = 300

abbrev pub auth_nonce_per_node_max : ℕ
auth_nonce_per_node_max = 65536

abbrev pub auth_nonce_memory_budget : ℕ
auth_nonce_memory_budget = 64 * 1024 * 1024

abbrev pub auth_nonce_entry_cost : ℕ
auth_nonce_entry_cost = 256

abbrev pub operation_max_pending : ℕ
operation_max_pending = 4096

abbrev pub operation_open_timeout_secs : ℕ
operation_open_timeout_secs = 10

abbrev pub operation_result_retention_secs : ℕ
operation_result_retention_secs = 120

abbrev pub operation_tombstone_max : ℕ
operation_tombstone_max = 65536

abbrev pub reorder_buffer_bytes : ℕ
reorder_buffer_bytes = kib 256

abbrev pub stream_max_credit : ℕ
stream_max_credit = kib 1024

abbrev pub max_unauth_connections_per_ip : ℕ
max_unauth_connections_per_ip = 20

abbrev pub reorder_max_out_of_order_bytes : ℕ
reorder_max_out_of_order_bytes = kib 128

abbrev pub reorder_max_blocks : ℕ
reorder_max_blocks = 128

abbrev pub health_failures_before_failover : ℕ
health_failures_before_failover = 3

abbrev pub health_stable_before_failback_secs : ℕ
health_stable_before_failback_secs = 30

abbrev pub u32_max : ℕ
u32_max = 2 ^ 32 - 1

abbrev pub max_tcp_payload : ℕ
max_tcp_payload = kib 16

abbrev pub max_udp_payload : ℕ
max_udp_payload = 65507

abbrev pub max_chain_hops : ℕ
max_chain_hops = 4
