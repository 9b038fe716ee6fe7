-- ===== src/Tun/Packet/Fields.antt =====
-- What reading a packet gives: no index is out of range, and the ports are those behind the header.
use kanrin.Common.{
  ℕ, ◌+◌, ◌*◌, ◌/◌, ◌%◌, ◌≡◌, ◌≢◌, ◌≤◌, ◌<◌, ◌⊎◌, inl, inr, refl, ◌&&◌, ◌==◌, ltb, leb, Bool-cases,
  List, [], ◌∷◌, Option, none, some, arith, length,
}
use kanrin.Common.Bytes.{slice?_total, get_elem?_total}
use kanrin.Protocol.Error.{Result, ok, panic}
use kanrin.Protocol.Error.Words.{read_u16_total}
use kanrin.Tun.Packet.{
  IpPacket, v4, v6, Ipv4Packet, Ipv6Packet, protocol_of, read_ipv4, ipv4_fields, parse_ipv4,
  parse_ipv6, parse, payload, payload_behind, port_at, src_port, dst_port, raw, has_ports, protocol,
}

module _ (bytes : List ℕ) where
  read_ipv4_total : (i : ℕ) → i + 3 < length bytes → (a : List ℕ) × (read_ipv4 bytes i ≡ ok a)
  unfolding read_ipv4
  read_ipv4_total i h =
      let (a, e) = get_elem?_total bytes i (omega arith) in
      let (b, f) = get_elem?_total bytes (i + 1) (omega arith) in
      let (c, g) = get_elem?_total bytes (i + 2) (omega arith) in
      let (d, k) = get_elem?_total bytes (i + 3) (omega arith) in
      (a ∷ b ∷ c ∷ d ∷ [], rw (e, f, g, k) refl)

  ipv4_fields_total :
      (ihl : ℕ)
      → 20 ≤ length bytes
      → (p : Ipv4Packet) × (ipv4_fields bytes ihl ≡ ok (some p)) × (p.raw ≡ bytes)
  unfolding ipv4_fields
  ipv4_fields_total ihl h =
      let (total, e) = read_u16_total bytes 2 (omega arith) in
      let (protocol, f) = get_elem?_total bytes 9 (omega arith) in
      let (ttl, g) = get_elem?_total bytes 8 (omega arith) in
      let (src, k) = read_ipv4_total 12 (omega arith) in
      let (dst, l) = read_ipv4_total 16 (omega arith) in
      let p : Ipv4Packet = record {
        src = src;
        dst = dst;
        protocol = protocol_of protocol;
        ttl = ttl;
        header_len = ihl;
        total_len = total;
        raw = bytes;
      } in
      (p, rw (e, f, g, k, l) refl, refl)

  -- Reading ends with a packet over these bytes or with none.
  Answers : {A : Type 0} → (A → List ℕ) → Result (Option A) → Type 0
  Answers {A} whole m = (m ≡ ok none) ⊎ ((p : A) × (m ≡ ok (some p)) × (whole p ≡ bytes))

  parse_ipv4_total : Answers (λ p. p.raw) (parse_ipv4 bytes)
  unfolding parse_ipv4 Answers
  parse_ipv4_total = elim (Bool-cases (ltb (length bytes) 20)) [
    | inl short ↦ inl (rw short refl)
    | inr long ↦
        let (first, e) = get_elem?_total bytes 0 (ground arith) in
        elim (Bool-cases (ltb (length bytes) (first % 16 * 4))) [
          | inl short ↦ inl (rw (long, e, short) refl)
          | inr whole ↦
              let (p, f, same) = ipv4_fields_total (first % 16 * 4) (ground arith) in
              inr (p, rw (long, e, whole) f, same)
        ]
  ]

  parse_ipv6_total : Answers (λ p. p.raw) (parse_ipv6 bytes)
  unfolding parse_ipv6 Answers
  parse_ipv6_total = elim (Bool-cases (ltb (length bytes) 40)) [
    | inl short ↦ inl (rw short refl)
    | inr long ↦
        let enough : 40 ≤ length bytes = ground arith in
        let (size, e) = read_u16_total bytes 4 (omega arith) in
        let (next, f) = get_elem?_total bytes 6 (omega arith) in
        let (hops, g) = get_elem?_total bytes 7 (omega arith) in
        let (src, k, _) = slice?_total 8 24 bytes (omega arith) (omega arith) in
        let (dst, l, _) = slice?_total 24 40 bytes (omega arith) enough in
        let p : Ipv6Packet = record {
          src = src;
          dst = dst;
          next_header = protocol_of next;
          hop_limit = hops;
          payload_len = size;
          raw = bytes;
        } in
        inr (p, rw (long, e, f, g, k, l) refl, refl)
  ]

  pub parse_total :
      (parse bytes ≡ ok none) ⊎ ((p : IpPacket) × (parse bytes ≡ ok (some p)) × (raw p ≡ bytes))
  unfolding parse Answers raw
  parse_total = elim (Bool-cases (length bytes == 0)) [
    | inl empty ↦ inl (rw empty refl)
    | inr some_byte ↦
        let (first, e) = get_elem?_total bytes 0 (ground arith) in
        elim (Bool-cases (first / 16 % 16 == 4)) [
          | inl is_four ↦ elim parse_ipv4_total [
            | inl none_read ↦ inl (rw (some_byte, e, is_four, none_read) refl)
            | inr (p, f, same) ↦ inr (v4 p, rw (some_byte, e, is_four, f) refl, same)
          ]
          | inr not_four ↦ elim (Bool-cases (first / 16 % 16 == 6)) [
            | inl is_six ↦ elim parse_ipv6_total [
              | inl none_read ↦ inl (rw (some_byte, e, not_four, is_six, none_read) refl)
              | inr (p, f, same) ↦ inr (v6 p, rw (some_byte, e, not_four, is_six, f) refl, same)
            ]
            | inr neither ↦ inl (rw (some_byte, e, not_four, neither) refl)
          ]
        ]
  ]

-- What stands behind the header is always found.
payload_behind_total : (bytes : List ℕ) (n : ℕ) → (ys : List ℕ) × (payload_behind bytes n ≡ ok ys)
unfolding payload_behind
payload_behind_total bytes n = elim (Bool-cases (ltb n (length bytes))) [
  | inl more ↦
      let (ys, e, _) = slice?_total n (length bytes) bytes (ground arith) (omega arith) in
      (ys, rw (more, e) refl)
  | inr less ↦ ([], rw less refl)
]

payload_total : (p : IpPacket) → (ys : List ℕ) × (payload p ≡ ok ys)
unfolding payload
payload_total (v4 p) = payload_behind_total p.raw p.header_len
payload_total (v6 p) = payload_behind_total p.raw 40

port_at-ne-panic : (p : IpPacket) (i : ℕ) → port_at p i ≢ panic
unfolding port_at
port_at-ne-panic p i =
    let (body, e) = payload_total p in
    elim (Bool-cases (has_ports (protocol p) && leb (i + 2) (length body))) [
      | inl there ↦
          let (port, f) = read_u16_total body i (ground arith) in rw (e, there, f) (λ x. cc)
      | inr absent ↦ rw (e, absent) (λ x. cc)
    ]

pub ports-ne-panic : (p : IpPacket) → (src_port p ≢ panic) × (dst_port p ≢ panic)
unfolding src_port dst_port
ports-ne-panic p = (port_at-ne-panic p 0, port_at-ne-panic p 2)
