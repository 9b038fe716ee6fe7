-- ===== src/Stealth/Fragment/Soundness.antt =====
-- What the search for the server name finds is where the fields of the message lead.
use kanrin.Common.{
  ℕ, zero, suc, ◌+◌, ◌≤◌, ◌<◌, ◌≡◌, List, [], ◌∷◌, Option, refl, ap, ◌∙◌, Bool-cases, inl, inr,
  ◌==◌, none, some, arith, length, ltb, leb,
}
use kanrin.Common.Bytes.{get_elem?, get_elem?_total, of_be}
use kanrin.Protocol.Error.{Result, ok, err, panic}
use kanrin.Stealth.Fragment.{
  read_u16, walk_extensions, after_compression, after_suites, after_session, after_random,
  find_sni_offset,
}
use kanrin.Stealth.Fragment.Hello.{
  ByteAt, WordAt, Leads, server_name, other_type, Extensions, Compression, Suites, SessionId,
  IsServerName,
}

pub read_u16_total :
    (bytes : List ℕ) (i : ℕ)
    → i + 1 < length bytes
    → (v : ℕ) × (read_u16 bytes i ≡ ok v) × WordAt bytes i v
unfolding read_u16 of_be
read_u16_total bytes i h =
    let (high, e) = get_elem?_total bytes i (omega arith) in
    let (low, f) = get_elem?_total bytes (i + 1) h in
    (of_be (high ∷ low ∷ []), rw (e, f) refl, (high, low, e, f, omega arith))

pub read_u16-WordAt : (bytes : List ℕ) (i v : ℕ) → WordAt bytes i v → read_u16 bytes i ≡ ok v
unfolding read_u16 of_be
read_u16-WordAt bytes i v (high, low, e, f, same) = rw (e, f) (ap ok (omega (arith, same)))

pub get_elem?-lt : (bytes : List ℕ) (i : ℕ) {x : ℕ} → ByteAt bytes i x → i < length bytes
unfolding get_elem?
get_elem?-lt [] i e = ground arith
get_elem?-lt (b ∷ bytes) zero e = omega arith
get_elem?-lt (b ∷ bytes) (suc i) e = omega (arith, get_elem?-lt bytes i e)

-- No answer, or one of a kind.
abbrev pub Sound : (ℕ → Type 0) → Result (Option ℕ) → Type 0
Sound P (ok none) = Unit {0}
Sound P (ok (some pos)) = P pos
Sound P (err e) = ⊥
Sound P panic = ⊥

Sound-impl :
    (P Q : ℕ → Type 0) (r : Result (Option ℕ)) → ((pos : ℕ) → P pos → Q pos) → Sound P r → Sound Q r
Sound-impl P Q (ok none) f h = tt
Sound-impl P Q (ok (some pos)) f h = f pos h
Sound-impl P Q (err e) f h = absurd h
Sound-impl P Q panic f h = absurd h

walk_extensions-Sound :
    (fuel : ℕ) (bytes : List ℕ) (pos : ℕ) → Sound (Leads bytes pos) (walk_extensions fuel bytes pos)
unfolding walk_extensions
walk_extensions-Sound zero bytes pos = tt
walk_extensions-Sound (suc fuel) bytes pos = elim (Bool-cases (ltb (length bytes) (pos + 4))) [
  | inl short ↦ rw short tt
  | inr room ↦
      let (t, e, type) = read_u16_total bytes pos (ground arith) in
      let (n, f, size) = read_u16_total bytes (pos + 2) (ground arith) in
      let enough : pos + 4 ≤ length bytes = ground (arith, room) in
      rw (room, e, f)
        (elim (Bool-cases (t == 0)) [
          | inl found ↦
              let none_left : t ≡ 0 = ground (arith, found) in
              rw found (server_name pos enough (rw none_left at type))
          | inr other ↦ rw other (
              Sound-impl (Leads bytes (pos + 4 + n)) (Leads bytes pos)
                (walk_extensions fuel bytes (pos + 4 + n))
                (λ to more. other_type pos t n to enough type (ground (arith, other)) size more)
                (walk_extensions-Sound fuel bytes (pos + 4 + n)))
        ])
]

after_compression-Sound :
    (bytes : List ℕ) (pos : ℕ) → Sound (Extensions bytes pos) (after_compression bytes pos)
unfolding after_compression
after_compression-Sound bytes pos = elim (Bool-cases (ltb (length bytes) (pos + 2))) [
  | inl short ↦ rw short tt
  | inr room ↦
      let (n, e, size) = read_u16_total bytes pos (ground arith) in
      rw (room, e)
        (Sound-impl (Leads bytes (pos + 2)) (Extensions bytes pos)
          (walk_extensions (length bytes) bytes (pos + 2)) (λ to more. (n, size, more))
          (walk_extensions-Sound (length bytes) bytes (pos + 2)))
]

after_suites-Sound :
    (bytes : List ℕ) (pos : ℕ) → Sound (Compression bytes pos) (after_suites bytes pos)
unfolding after_suites
after_suites-Sound bytes pos = elim (Bool-cases (leb (length bytes) pos)) [
  | inl short ↦ rw short tt
  | inr room ↦
      let (n, e) = get_elem?_total bytes pos (ground arith) in
      rw (room, e)
        (Sound-impl (Extensions bytes (pos + (1 + n))) (Compression bytes pos)
          (after_compression bytes (pos + (1 + n))) (λ to more. (n, e, more))
          (after_compression-Sound bytes (pos + (1 + n))))
]

after_session-Sound :
    (bytes : List ℕ) (pos : ℕ) → Sound (Suites bytes pos) (after_session bytes pos)
unfolding after_session
after_session-Sound bytes pos = elim (Bool-cases (ltb (length bytes) (pos + 2))) [
  | inl short ↦ rw short tt
  | inr room ↦
      let (n, e, size) = read_u16_total bytes pos (ground arith) in
      rw (room, e)
        (Sound-impl (Compression bytes (pos + (2 + n))) (Suites bytes pos)
          (after_suites bytes (pos + (2 + n))) (λ to more. (n, size, more))
          (after_suites-Sound bytes (pos + (2 + n))))
]

after_random-Sound : (bytes : List ℕ) → Sound (SessionId bytes 43) (after_random bytes)
unfolding after_random
after_random-Sound bytes = elim (Bool-cases (ltb (length bytes) 43)) [
  | inl short ↦ rw short tt
  | inr room ↦ rw room (elim (Bool-cases (leb (length bytes) 43)) [
    | inl cut ↦ rw cut tt
    | inr more ↦
        let (n, e) = get_elem?_total bytes 43 (ground arith) in
        rw (more, e)
          (Sound-impl (Suites bytes (43 + (1 + n))) (SessionId bytes 43)
            (after_session bytes (43 + (1 + n))) (λ to rest. (n, e, rest))
            (after_session-Sound bytes (43 + (1 + n))))
  ])
]

pub find_sni_offset-Sound : (bytes : List ℕ) → Sound (IsServerName bytes) (find_sni_offset bytes)
unfolding find_sni_offset
find_sni_offset-Sound bytes = elim (Bool-cases (ltb (length bytes) 5)) [
  | inl short ↦ rw short tt
  | inr room ↦
      let (t, e) = get_elem?_total bytes 0 (ground arith) in
      let (n, f, size) = read_u16_total bytes 3 (ground arith) in
      rw (room, e, f)
        (elim (Bool-cases (t == 0x16)) [
          | inr other ↦ rw other tt
          | inl handshake ↦ rw handshake (elim (Bool-cases (ltb (length bytes) (5 + n))) [
            | inl cut ↦ rw cut tt
            | inr whole ↦
                let first : t ≡ 22 = ground (arith, handshake) in
                rw whole (
                  Sound-impl (SessionId bytes 43) (IsServerName bytes) (after_random bytes)
                    (λ to more. (e ∙ ap some first, (n, size, ground (arith, whole)), more))
                    (after_random-Sound bytes))
          ])
        ])
]
