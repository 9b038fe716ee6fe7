-- ===== src/Tun/Packet.antt =====
-- crates/kanrin-tun/src/packet.rs: the headers of IP packets. An address is the list of its octets.
pub mod Fields
pub mod Layout
mod Tests
use kanrin.Common.{
  ℕ, ◌+◌, ◌*◌, ◌/◌, ◌%◌, Bool, true, false, ◌&&◌, List, [], ◌∷◌, Option, none, some, ltb, leb, ◌==◌,
  if◌then◌else◌, length,
}
use kanrin.Protocol.Error.{Result, ok, ◌>>=◌, slice, index, read_u16}

pub data IpProtocol : Type 0 where
  tcp udp icmp icmpv6 : IpProtocol
  other : ℕ → IpProtocol

pub protocol_of : ℕ → IpProtocol
protocol_of val =
    if val == 1
    then icmp
    else if val == 6
    then tcp
    else if val == 17
    then udp
    else if val == 58
    then icmpv6
    else other val

pub to_u8 : IpProtocol → ℕ
to_u8 icmp = 1
to_u8 tcp = 6
to_u8 udp = 17
to_u8 icmpv6 = 58
to_u8 (other v) = v

pub record Ipv4Packet : Type 0 where
  pub src : List ℕ
  pub dst : List ℕ
  pub protocol : IpProtocol
  pub ttl : ℕ
  pub header_len : ℕ
  pub total_len : ℕ
  pub raw : List ℕ

pub record Ipv6Packet : Type 0 where
  pub src : List ℕ
  pub dst : List ℕ
  pub next_header : IpProtocol
  pub hop_limit : ℕ
  pub payload_len : ℕ
  pub raw : List ℕ

pub data IpPacket : Type 0 where
  v4 : Ipv4Packet → IpPacket
  v6 : Ipv6Packet → IpPacket

-- `Ipv4Addr::new(data[i], data[i + 1], data[i + 2], data[i + 3])`
read_ipv4 : List ℕ → ℕ → Result (List ℕ)
read_ipv4 bytes i = do
  a ← index bytes i
  b ← index bytes (i + 1)
  c ← index bytes (i + 2)
  d ← index bytes (i + 3)
  ok (a ∷ b ∷ c ∷ d ∷ [])

-- The rest of `Ipv4Packet::parse`, behind the two length checks.
ipv4_fields : List ℕ → (ihl : ℕ) → Result (Option Ipv4Packet)
unfolding read_ipv4 protocol_of
ipv4_fields bytes ihl = do
  total_len ← read_u16 bytes 2
  protocol ← index bytes 9
  ttl ← index bytes 8
  src ← read_ipv4 bytes 12
  dst ← read_ipv4 bytes 16
  ok (
      some (record {
        src = src;
        dst = dst;
        protocol = protocol_of protocol;
        ttl = ttl;
        header_len = ihl;
        total_len = total_len;
        raw = bytes;
      }))

pub parse_ipv4 : List ℕ → Result (Option Ipv4Packet)
unfolding ipv4_fields
parse_ipv4 bytes = if ltb (length bytes) 20 then ok none else do
  first ← index bytes 0
  if ltb (length bytes) (first % 16 * 4) then ok none else ipv4_fields bytes (first % 16 * 4)

pub parse_ipv6 : List ℕ → Result (Option Ipv6Packet)
unfolding protocol_of
parse_ipv6 bytes = if ltb (length bytes) 40 then ok none else do
  payload_len ← read_u16 bytes 4
  next_header ← index bytes 6
  hop_limit ← index bytes 7
  src ← slice bytes 8 24
  dst ← slice bytes 24 40
  ok (
      some (record {
        src = src;
        dst = dst;
        next_header = protocol_of next_header;
        hop_limit = hop_limit;
        payload_len = payload_len;
        raw = bytes;
      }))

abbrev map_packet : {A : Type 0} → (A → IpPacket) → Result (Option A) → Result (Option IpPacket)
map_packet f m = m >>= λ p. ok (elim p [ none ↦ none | some a ↦ some (f a) ])

pub parse : List ℕ → Result (Option IpPacket)
parse bytes = if length bytes == 0 then ok none else do
  first ← index bytes 0
  if first / 16 % 16 == 4
      then map_packet v4 (parse_ipv4 bytes)
      else if first / 16 % 16 == 6
      then map_packet v6 (parse_ipv6 bytes)
      else ok none

-- What stands behind the header.
payload_behind : List ℕ → (header_len : ℕ) → Result (List ℕ)
payload_behind raw header_len =
    if ltb header_len (length raw) then slice raw header_len (length raw) else ok []

pub payload : IpPacket → Result (List ℕ)
unfolding payload_behind
payload (v4 p) = payload_behind p.raw p.header_len
payload (v6 p) = payload_behind p.raw 40

pub protocol : IpPacket → IpProtocol
protocol (v4 p) = p.protocol
protocol (v6 p) = p.next_header

pub raw : IpPacket → List ℕ
raw (v4 p) = p.raw
raw (v6 p) = p.raw

pub has_ports : IpProtocol → Bool
has_ports tcp = true
has_ports udp = true
has_ports _ = false

-- The two bytes at `i` of the payload of a TCP or UDP packet, if they are there.
port_at : IpPacket → (i : ℕ) → Result (Option ℕ)
unfolding payload protocol has_ports
port_at p i = do
  body ← payload p
  if has_ports (protocol p) && leb (i + 2) (length body)
      then (do port ← read_u16 body i; ok (some port))
      else ok none

pub dst_port : IpPacket → Result (Option ℕ)
unfolding port_at
dst_port p = port_at p 2

pub src_port : IpPacket → Result (Option ℕ)
unfolding port_at
src_port p = port_at p 0

pub is_udp : IpProtocol → Bool
is_udp udp = true
is_udp _ = false

-- `Some(53)`
is_dns_port : Option ℕ → Bool
is_dns_port none = false
is_dns_port (some port) = port == 53

pub is_dns_query : IpPacket → Result Bool
unfolding is_udp is_dns_port dst_port
is_dns_query p =
    if is_udp (protocol p) then (do port ← dst_port p; ok (is_dns_port port)) else ok false
