-- ===== src/Tun/Packet/Layout.antt =====
-- The ports of an IPv4 packet that is laid out as RFC 791 says, its options included.
use kanrin.Common.{
  ℕ, ◌+◌, ◌*◌, ◌≡◌, ◌≤◌, ◌<◌, ◌&&◌, ◌||◌, ◌==◌, Bool, false, Option, none, if◌then◌else◌,
  Option-cases, inl, inr, List, [], ◌∷◌, ◌++◌, some, arith, length, length-append, append-nil,
}
use kanrin.Common.Bytes.{of_be, slice?-append, get_elem?}
use kanrin.Protocol.Error.{ok, read_u16}
use kanrin.Tun.Packet.{
  v4, Ipv4Packet, protocol_of, read_ipv4, ipv4_fields, parse_ipv4, parse, payload, payload_behind,
  port_at, src_port, dst_port, has_ports, protocol, is_udp, is_dns_port, is_dns_query,
}

-- The twenty bytes that every IPv4 header has. `words` counts its 32-bit words.
pub record Ipv4Front : Type 0 where
  pub words : ℕ
  pub service : ℕ
  pub total_high : ℕ
  pub total_low : ℕ
  pub id_high : ℕ
  pub id_low : ℕ
  pub flags : ℕ
  pub fragment : ℕ
  pub ttl : ℕ
  pub protocol_number : ℕ
  pub sum_high : ℕ
  pub sum_low : ℕ
  pub s0 : ℕ
  pub s1 : ℕ
  pub s2 : ℕ
  pub s3 : ℕ
  pub t0 : ℕ
  pub t1 : ℕ
  pub t2 : ℕ
  pub t3 : ℕ

abbrev pub front_bytes : Ipv4Front → List ℕ
front_bytes h =
    (64 + h.words)
    ∷ h.service
    ∷ h.total_high
    ∷ h.total_low
    ∷ h.id_high
    ∷ h.id_low
    ∷ h.flags
    ∷ h.fragment
    ∷ h.ttl
    ∷ h.protocol_number
    ∷ h.sum_high
    ∷ h.sum_low
    ∷ h.s0
    ∷ h.s1
    ∷ h.s2
    ∷ h.s3
    ∷ h.t0
    ∷ h.t1
    ∷ h.t2
    ∷ h.t3
    ∷ []

-- The packet that a front and what stands behind it are.
abbrev pub packet_of : Ipv4Front → (tail : List ℕ) → Ipv4Packet
packet_of h tail = record {
  src = h.s0 ∷ h.s1 ∷ h.s2 ∷ h.s3 ∷ [];
  dst = h.t0 ∷ h.t1 ∷ h.t2 ∷ h.t3 ∷ [];
  protocol = protocol_of h.protocol_number;
  ttl = h.ttl;
  header_len = h.words * 4;
  total_len = of_be (h.total_high ∷ h.total_low ∷ []);
  raw = front_bytes h ++ tail;
}

parse-front :
    (h : Ipv4Front) (tail : List ℕ)
    → 5 ≤ h.words
    → h.words < 16
    → h.words * 4 ≤ 20 + length tail
    → parse (front_bytes h ++ tail) ≡ ok (some (v4 (packet_of h tail)))
unfolding parse parse_ipv4 ipv4_fields read_ipv4 read_u16 get_elem?
parse-front h tail five short whole = ground arith

-- The ports that stand at the front of the body of a TCP or UDP packet, by its protocol number; a
-- body that is cut off before a port has none, as the other protocols have.
unfoldable pub source_of : (protocol_number : ℕ) (body : List ℕ) → Option ℕ
source_of n [] = none
source_of n (a ∷ []) = none
source_of n (a ∷ b ∷ body) = if (n == 6) || (n == 17) then some (a * 256 + b) else none

unfoldable pub target_of : (protocol_number : ℕ) (body : List ℕ) → Option ℕ
unfolding source_of
target_of n [] = none
target_of n (a ∷ []) = none
target_of n (a ∷ b ∷ body) = source_of n body

-- Number 17 is UDP.
unfoldable pub asks_dns : (protocol_number : ℕ) → (target : Option ℕ) → Bool
asks_dns n none = false
asks_dns n (some port) = (n == 17) && (port == 53)

of_be_pair : (a b : ℕ) → of_be (a ∷ b ∷ []) ≡ a * 256 + b
unfolding of_be
of_be_pair a b = omega arith

ports_of_body :
    (h : Ipv4Front) (tail body : List ℕ)
    → payload (v4 (packet_of h tail)) ≡ ok body
    → (src_port (v4 (packet_of h tail)) ≡ ok (source_of h.protocol_number body))
      × (dst_port (v4 (packet_of h tail)) ≡ ok (target_of h.protocol_number body))
unfolding src_port dst_port port_at protocol protocol_of has_ports source_of target_of read_u16
    get_elem?
ports_of_body h tail [] e = (ground (arith, e), ground (arith, e))
ports_of_body h tail (a ∷ []) e = (ground (arith, e), ground (arith, e))
ports_of_body h tail (a ∷ b ∷ []) e = (ground (arith, e, of_be_pair a b), ground (arith, e))
ports_of_body h tail (a ∷ b ∷ c ∷ []) e = (ground (arith, e, of_be_pair a b), ground (arith, e))
ports_of_body h tail (a ∷ b ∷ c ∷ d ∷ body) e =
    (ground (arith, e, of_be_pair a b), ground (arith, e, of_be_pair c d))

dns_of_body :
    (h : Ipv4Front) (tail body : List ℕ)
    → payload (v4 (packet_of h tail)) ≡ ok body
    → dst_port (v4 (packet_of h tail)) ≡ ok (target_of h.protocol_number body)
    → is_dns_query (v4 (packet_of h tail))
      ≡ ok (asks_dns h.protocol_number (target_of h.protocol_number body))
unfolding is_dns_query is_dns_port is_udp protocol protocol_of asks_dns
dns_of_body h tail body e meant = elim (Option-cases (target_of h.protocol_number body)) [
  | inl none_there ↦ ground (arith, meant, none_there)
  | inr (port, there) ↦ ground (arith, meant, there)
]

body_behind :
    (h : Ipv4Front) (options body : List ℕ)
    → h.words * 4 ≡ 20 + length options
    → payload (v4 (packet_of h (options ++ body))) ≡ ok body
unfolding payload payload_behind
body_behind h options [] sized = ground (arith, length-append options [])
body_behind h options (b ∷ body) sized =
    let whole = front_bytes h ++ (options ++ (b ∷ body)) in
    let cut =
      slice?-append (front_bytes h ++ options) (b ∷ body) [] (h.words * 4) (length whole)
        (omega arith) (omega (arith, length-append options (b ∷ body))) in
    ground (arith, length-append options (b ∷ body), rw append-nil at cut)

-- An IPv4 packet laid out as the standard says, with options of any length that its header counts
-- and any body, is read with the fields of its layout. If its protocol is TCP or UDP, its ports are
-- the first two pairs of bytes of the body, as far as they are there, and it has none otherwise; it
-- is a DNS query if and only if it is UDP to port 53.
pub parse-layout :
    (h : Ipv4Front) (options body : List ℕ)
    → 5 ≤ h.words
    → h.words < 16
    → h.words * 4 ≡ 20 + length options
    → let p = v4 (packet_of h (options ++ body)) in
      (parse (front_bytes h ++ (options ++ body)) ≡ ok (some p))
      × (payload p ≡ ok body)
      × (src_port p ≡ ok (source_of h.protocol_number body))
      × (dst_port p ≡ ok (target_of h.protocol_number body))
      × (is_dns_query p ≡ ok (asks_dns h.protocol_number (target_of h.protocol_number body)))
parse-layout h options body five short sized =
    let tail = options ++ body in
    let behind = body_behind h options body sized in
    let (sent, meant) = ports_of_body h tail body behind in
    (
      parse-front h tail five short (omega (arith, length-append options body)),
      behind,
      sent,
      meant,
      dns_of_body h tail body behind meant,
    )
