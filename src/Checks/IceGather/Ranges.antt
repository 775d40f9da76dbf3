-- ===== src/Checks/IceGather/Ranges.antt =====
-- The addresses that `is_useful_host_address` keeps, as ranges.
use webrtc_doctor.Prelude.{
  ℕ, ◌/◌, ◌^◌, ◌<◌, ◌≡◌, ◌↔◌, ◌⊎◌, arith, true, false, suc, List, [], ◌∷◌, ◌++◌, replicate,
  bytes_eq_iff,
}
use webrtc_doctor.Prelude.Text.{Text}
use webrtc_doctor.Prelude.Masks.{upper_ten}
use webrtc_doctor.Stun.Types.{IpAddr, v4, v6, IsIp}
use webrtc_doctor.Bytes.{IsBytes}
use webrtc_doctor.Checks.IceGather.{
  is_useful_v4, is_useful_v6, is_useful_host_address, segment_0, first_octet,
}

-- An IPv4 address, as a number of 32 bits, in 127/8, in 169.254/16, 0.0.0.0, in 224/4, or the
-- broadcast address.
abbrev pub IsDropped4 : ℕ → Type 0
IsDropped4 a =
    (a / 2 ^ 24 ≡ 127)
    ⊎ ((a / 2 ^ 16 ≡ 43518) ⊎ ((a ≡ 0) ⊎ ((a / 2 ^ 28 ≡ 14) ⊎ (a ≡ 0xFFFF_FFFF))))

is_useful_v4_iff : (a : ℕ) → a < 2 ^ 32 → (is_useful_v4 a ≡ true) ↔ (¬ IsDropped4 a)
unfolding is_useful_v4
is_useful_v4_iff a h = ground arith

-- An IPv6 address, as octets: ::1, ::, in ff00::/8, or in fe80::/10.
abbrev pub IsDropped6 : List ℕ → Type 0
IsDropped6 o =
    (o ≡ replicate 15 0 ++ 1 ∷ [])
    ⊎ ((o ≡ replicate 16 0) ⊎ ((first_octet o ≡ 0xFF) ⊎ (segment_0 o / 64 ≡ 0x3FA)))

segment_0-lt : (o : List ℕ) → IsBytes o → segment_0 o < 65536
segment_0-lt [] h = omega arith
segment_0-lt (a ∷ []) h = omega arith
segment_0-lt (a ∷ b ∷ rest) h = ground arith

is_useful_v6_iff : (o : List ℕ) → IsBytes o → (is_useful_v6 o ≡ true) ↔ (¬ IsDropped6 o)
unfolding is_useful_v6
is_useful_v6_iff o h = ground (
  arith,
  bytes_eq_iff o (replicate 15 0 ++ 1 ∷ []),
  bytes_eq_iff o (replicate 16 0),
  upper_ten (segment_0 o) (segment_0-lt o h),
)

abbrev pub IsDropped : IpAddr → Type 0
IsDropped (v4 a) = IsDropped4 a
IsDropped (v6 o) = IsDropped6 o

-- An address that is not kept is in one of the ranges.
is_useful_v4_drop : (a : ℕ) → a < 2 ^ 32 → is_useful_v4 a ≡ false → IsDropped4 a
unfolding is_useful_v4
is_useful_v4_drop a h e = ground arith

is_useful_v6_drop : (o : List ℕ) → IsBytes o → is_useful_v6 o ≡ false → IsDropped6 o
unfolding is_useful_v6
is_useful_v6_drop o h e = ground (
  arith,
  bytes_eq_iff o (replicate 15 0 ++ 1 ∷ []),
  bytes_eq_iff o (replicate 16 0),
  upper_ten (segment_0 o) (segment_0-lt o h),
)

pub is_useful_host_address_drop :
    (ip : IpAddr) → IsIp ip → is_useful_host_address ip ≡ false → IsDropped ip
unfolding is_useful_host_address
is_useful_host_address_drop (v4 a) h = is_useful_v4_drop a h
is_useful_host_address_drop (v6 o) h = is_useful_v6_drop o h.1

-- How many interfaces have an address outside the ranges.
pub data Outside : List (Text × IpAddr) → ℕ → Type 0 where
  nothing : Outside [] 0
  kept :
      (interface : Text) (ip : IpAddr) (rest : List (Text × IpAddr)) (n : ℕ)
      → ¬ IsDropped ip
      → Outside rest n
      → Outside ((interface, ip) ∷ rest) (suc n)
  dropped :
      (interface : Text) (ip : IpAddr) (rest : List (Text × IpAddr)) (n : ℕ)
      → IsDropped ip
      → Outside rest n
      → Outside ((interface, ip) ∷ rest) n

-- Kept are exactly the IPv4 addresses outside 127/8, 169.254/16, 0.0.0.0, 224/4 and the broadcast
-- address, and the IPv6 addresses other than ::1, ::, those in ff00::/8 and those in fe80::/10.
pub is_useful_host_address_iff :
    (ip : IpAddr) → IsIp ip → (is_useful_host_address ip ≡ true) ↔ (¬ IsDropped ip)
unfolding is_useful_host_address
is_useful_host_address_iff (v4 a) h = is_useful_v4_iff a h
is_useful_host_address_iff (v6 o) h = is_useful_v6_iff o h.1
