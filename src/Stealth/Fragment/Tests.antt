-- ===== src/Stealth/Fragment/Tests.antt =====
-- Runs of the fragmentation.
use kanrin.Common.{ℕ, ◌+◌, ◌%◌, ◌≤◌, ◌<◌, ◌≡◌, refl, List, [], ◌∷◌, some, All, arith}
use kanrin.Common.Bytes.{get_elem?, of_be}
use kanrin.Protocol.Error.{ok}
use kanrin.Stealth.Fragment.{
  fragment, find_sni_offset, after_random, after_session, after_suites, after_compression,
  walk_extensions, read_u16,
}
use kanrin.Stealth.Fragment.Whole.{joined, IsFragment, fragment_whole}

-- One byte, two, one again and so on.
abbrev draw : ℕ → ℕ
draw k = k % 2 + 1

draw_small : (k : ℕ) → (0 < draw k) × (draw k ≤ 2)
draw_small k = (omega arith, omega arith)

abbrev message : List ℕ
message = 22 ∷ 3 ∷ 1 ∷ 0 ∷ 9 ∷ []

fragment_whole_example :
    (fs : List (List ℕ)) × (fragment draw message ≡ ok (some fs))
    × (joined fs ≡ message)
    × All (IsFragment 2) fs
fragment_whole_example = fragment_whole draw 2 message draw_small

-- A ClientHello with a session id of two bytes, one cipher suite, and the server name as its second
-- extension.
abbrev hello : List ℕ
hello =
    22 ∷ 3 ∷ 1 ∷ 0 ∷ 58 ∷ 0 ∷ 0 ∷ 0 ∷ 0 ∷ 0 ∷ 0 ∷ 0 ∷ 0 ∷ 0 ∷ 0 ∷ 0 ∷ 0 ∷ 0 ∷ 0 ∷ 0 ∷ 0 ∷ 0 ∷ 0 ∷ 0
    ∷ 0 ∷ 0 ∷ 0 ∷ 0 ∷ 0 ∷ 0 ∷ 0 ∷ 0 ∷ 0 ∷ 0 ∷ 0 ∷ 0 ∷ 0 ∷ 0 ∷ 0 ∷ 0 ∷ 0 ∷ 0 ∷ 0 ∷ 2 ∷ 7 ∷ 7 ∷ 0 ∷ 2
    ∷ 19 ∷ 1 ∷ 1 ∷ 0 ∷ 0 ∷ 9 ∷ 0 ∷ 43 ∷ 0 ∷ 1 ∷ 9 ∷ 0 ∷ 0 ∷ 0 ∷ 0 ∷ []

hello_answer : find_sni_offset hello ≡ ok (some 59)
unfolding find_sni_offset after_random after_session after_suites after_compression walk_extensions
    read_u16 get_elem? of_be
hello_answer = refl
