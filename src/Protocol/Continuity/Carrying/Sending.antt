-- ===== src/Protocol/Continuity/Carrying/Sending.antt =====
-- What is retained of a chunk that is written.
use kanrin.Common.{
  ℕ, ◌+◌, ◌≡◌, ◌⊎◌, refl, Bool, true, false, ◌&&◌, ◌||◌, not, List, some, arith, ◌==◌, Bool-cases,
  inl, inr,
}
use kanrin.Common.Word.{IsU64}
use kanrin.Common.SortedMap.{Within, find, contains_key}
use kanrin.Common.SortedMap.Laws.{contains_key-insert, find-insert}
use kanrin.Common.SortedMap.Bounds.{insert-Within, Within-upper}
use kanrin.Protocol.Error.{Result, ok, err, panic}
use kanrin.Protocol.Wire.Chunk.{Chunk}
use kanrin.Protocol.Continuity.SendBuffer.{SendBuffer, push}
use kanrin.Protocol.Continuity.SendBuffer.Bytes.{IsValid, push-IsValid, chunks-push}
use kanrin.Protocol.Continuity.Carrying.{is_data, after_push, retain_data}

-- A push that is refused.
unfoldable pub is_refused : Result SendBuffer → Bool
is_refused (ok b) = false
is_refused (err e) = true
is_refused panic = true

-- Whether a chunk that is written goes into the buffer.
unfoldable pub was_retained : SendBuffer → Chunk → (sequence : ℕ) (bytes : List ℕ) → Bool
unfolding is_refused
was_retained b c sequence bytes = is_data c && not (is_refused (push b sequence bytes))

retain_data-cases :
    (b : SendBuffer) (c : Chunk) (sequence : ℕ) (bytes : List ℕ)
    → ((retain_data b c sequence bytes ≡ b) × (was_retained b c sequence bytes ≡ false))
      ⊎ ((b' : SendBuffer) × (push b sequence bytes ≡ ok b')
          × (retain_data b c sequence bytes ≡ b')
          × (was_retained b c sequence bytes ≡ true))
unfolding retain_data was_retained after_push is_refused
retain_data-cases b c k bytes = elim (Bool-cases (is_data c)) [
  | inr other ↦ inl (rw other refl, rw other refl)
  | inl data_one ↦ pushed data_one (push b k bytes) refl
]
  where
    pushed :
        is_data c ≡ true
        → (r : Result SendBuffer) → push b k bytes ≡ r
        → ((retain_data b c k bytes ≡ b) × (was_retained b c k bytes ≡ false))
          ⊎ ((b' : SendBuffer) × (push b k bytes ≡ ok b')
              × (retain_data b c k bytes ≡ b')
              × (was_retained b c k bytes ≡ true))
    pushed is (err e) refused = inl (rw (is, refused) refl, rw (is, refused) refl)
    pushed is panic refused = inl (rw (is, refused) refl, rw (is, refused) refl)
    pushed is (ok b') e = inr (b', e, rw (is, e) refl, rw (is, e) refl)

-- The buffer after one chunk more.
pub record Retained (b : SendBuffer) (c : Chunk) (sequence : ℕ) (bytes : List ℕ) : Type 0 where
  pub valid : IsValid (retain_data b c sequence bytes)
  pub within : Within (sequence + 1) (retain_data b c sequence bytes).chunks
  pub there :
      (j : ℕ)
      → contains_key j (retain_data b c sequence bytes).chunks
        ≡ (contains_key j b.chunks || (was_retained b c sequence bytes && (sequence == j)))
  pub content :
      (j : ℕ) (v : List ℕ)
      → find j (retain_data b c sequence bytes).chunks ≡ some v
      → (find j b.chunks ≡ some v) ⊎ ((j ≡ sequence) × (v ≡ bytes))

pub retain_data-Retained :
    (b : SendBuffer) (c : Chunk) (sequence : ℕ) (bytes : List ℕ)
    → IsValid b
    → IsU64 sequence
    → Within sequence b.chunks
    → Retained b c sequence bytes
retain_data-Retained b c k bytes h wide below = elim (retain_data-cases b c k bytes) [
  | inl (same, kept) ↦ record {
    valid = rw same h;
    within = rw same (Within-upper k (k + 1) b.chunks below (omega arith));
    there = λ j. rw (same, kept) (ground arith);
    content = λ j v e. inl (rw same at e);
  }
  | inr (b', e, same, kept) ↦
      let stored = chunks-push b k bytes e in
      record {
        valid = rw same (push-IsValid b k bytes h wide e);
        within =
            rw (same, stored)
              (insert-Within (k + 1) k bytes b.chunks
                (Within-upper k (k + 1) b.chunks below (omega arith)) (omega arith));
        there = λ j. rw (same, kept, stored, contains_key-insert) (ground arith);
        content =
            λ j v there. ground (arith, find-insert k j bytes b.chunks, rw (same, stored) at there);
      }
]

pub was_retained-is_data :
    (b : SendBuffer) (c : Chunk) (sequence : ℕ) (bytes : List ℕ)
    → was_retained b c sequence bytes ≡ true
    → is_data c ≡ true
unfolding was_retained
was_retained-is_data b c k bytes e = ground (arith, e)
