-- ===== src/MiddleEnd/Constants.antt =====
-- transport/middleend/constants.go: the wire constants and the sentinels of the errors.
use tel_ego_openwrt.Base.{ℕ, ◌+◌, ◌-◌, ◌*◌, ◌^◌}

abbrev pub operation_nonce : ℕ
operation_nonce = 0x7acb87aa

abbrev pub operation_handshake : ℕ
operation_handshake = 0x7682eef5

abbrev pub operation_handshake_error : ℕ
operation_handshake_error = 0x6a27beda

abbrev pub crypto_schema_aes : ℕ
crypto_schema_aes = 1

abbrev pub handshake_flag_crc32c : ℕ
handshake_flag_crc32c = 2 ^ 11

abbrev pub nonce_packet_size : ℕ
nonce_packet_size = 32

abbrev pub handshake_packet_size : ℕ
handshake_packet_size = 32

abbrev pub handshake_error_packet_size : ℕ
handshake_error_packet_size = 20

abbrev pub full_frame_overhead : ℕ
full_frame_overhead = 12

abbrev pub minimum_full_frame_size : ℕ
minimum_full_frame_size = 16

abbrev pub noop_frame_size : ℕ
noop_frame_size = 4

abbrev pub max_client_packet_size : ℕ
max_client_packet_size = 262144 * 4 - 4096

abbrev pub proxy_request_base_size : ℕ
proxy_request_base_size = 56

abbrev pub proxy_tag_extra_size : ℕ
proxy_tag_extra_size = 28

abbrev pub proxy_request_tagged_header_size : ℕ
proxy_request_tagged_header_size = proxy_request_base_size + proxy_tag_extra_size

abbrev pub max_me_frame_size : ℕ
max_me_frame_size = max_client_packet_size + proxy_request_tagged_header_size + full_frame_overhead

-- The sentinels that the modelled functions return, without the text that wraps them.
pub data Error : Type 0 where
  invalid_checksum_mode invalid_frame_size frame_too_large checksum_mismatch : Error
  sequence_mismatch sequence_exhausted incomplete_frame : Error
  invalid_nonce key_selector timestamp_skew : Error
  invalid_handshake process_id_mismatch checksum_transition : Error
