-- ===== src/Turn/Method.antt =====
-- The method codes and constants of turn_codec.rs.
use webrtc_doctor.Prelude.{ℕ, ◌*◌, ◌^◌}

abbrev pub allocate_request : ℕ
allocate_request = 0x0003

abbrev pub allocate_success : ℕ
allocate_success = 0x0103

abbrev pub allocate_error : ℕ
allocate_error = 0x0113

abbrev pub create_permission_request : ℕ
create_permission_request = 0x0008

abbrev pub create_permission_success : ℕ
create_permission_success = 0x0108

abbrev pub create_permission_error : ℕ
create_permission_error = 0x0118

-- `17 << 24`
abbrev pub transport_udp : ℕ
transport_udp = 17 * 2 ^ 24
