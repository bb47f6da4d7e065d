-- ===== src/Consumer/Downtime/Rebase.antt =====
-- rebaseBitmap moves the tracked part of a bitmap to its start, bit for bit
-- (x/vaas/consumer/keeper/downtime.go).
use vaas.Base.{
  ℕ, zero, suc, ◌+◌, ◌*◌, ◌/◌, ◌%◌, ◌≤◌, ◌<◌, ◌≡◌, ◌⊎◌, refl, ap, ◌∙◌, true, false, ◌&&◌, none,
  some, List, arith, leb, ltb, if◌then◌else◌, length, Bool-cases, inl, inr,
}
use vaas.Evidence.{count_from}
use vaas.Evidence.Bitmap.{bitmap_is_set, byte_at, test_bit, bitmap_set-lem}
use vaas.Consumer.Downtime.{zeros, rebase_from, rebase_bitmap}

pub length-zeros : (n : ℕ) → length (zeros n) ≡ n
unfolding zeros
length-zeros zero = refl
length-zeros (suc n) = omega (arith, length-zeros n)

test_bit-zero : (j : ℕ) → test_bit 0 j ≡ false
unfolding test_bit
test_bit-zero zero = ground arith
test_bit-zero (suc j) = test_bit-zero j

byte_at-zeros : (i n : ℕ) → (byte_at i (zeros n) ≡ none) ⊎ (byte_at i (zeros n) ≡ some 0)
unfolding byte_at zeros
byte_at-zeros i zero = inl refl
byte_at-zeros zero (suc n) = inr refl
byte_at-zeros (suc i) (suc n) = byte_at-zeros i n

bitmap_is_set-zeros : (n i : ℕ) → bitmap_is_set (zeros n) i ≡ false
unfolding bitmap_is_set
bitmap_is_set-zeros n i = elim (byte_at-zeros (i / 8) n) [
  | inl outside ↦ ground (arith, outside)
  | inr zero_byte ↦ ground (arith, zero_byte, test_bit-zero (i % 8))
]

-- The loop succeeds within the output's length, and copies the bits that it visits.
rebase_from-lem :
    (bitmap : List ℕ) (offset i n : ℕ) (out : List ℕ)
    → i + n ≤ length out * 8
    → (out' : List ℕ) × (rebase_from bitmap offset i n out ≡ some out')
      × (length out' ≡ length out)
      × ((j : ℕ)
          → bitmap_is_set out' j ≡ (
              if leb i j && (ltb j (i + n) && bitmap_is_set bitmap (offset + j))
              then true
              else bitmap_is_set out j))
unfolding rebase_from
rebase_from-lem bitmap offset i zero out fits = (out, refl, refl, λ j. ground arith)
rebase_from-lem bitmap offset i (suc n) out fits =
    elim (Bool-cases (bitmap_is_set bitmap (offset + i))) [
      | inr clear ↦
          let (out', run, len, bits) =
            rebase_from-lem bitmap offset (suc i) n out (omega (arith, fits)) in
          (out', ground (arith, clear, run), len, λ j. ground (arith, clear, bits j))
      | inl missed ↦
          let (out₁, was_set, len₁, bits₁) = bitmap_set-lem out i (omega (arith, fits)) in
          let (out', run, len, bits) =
            rebase_from-lem bitmap offset (suc i) n out₁ (omega (arith, fits, len₁)) in
          (
            out',
            ground (arith, missed, was_set, run),
            len ∙ len₁,
            λ j.
                ground (
                  arith,
                  missed,
                  bits j,
                  bits₁ j,
                  ap (λ (m : ℕ). bitmap_is_set bitmap (offset + m)),
                ),
          )
    ]

-- Equal bits count the same.
count_from-shift :
    (out bitmap : List ℕ) (offset i n : ℕ)
    → ((j : ℕ) → i ≤ j → j < i + n → bitmap_is_set out j ≡ bitmap_is_set bitmap (offset + j))
    → count_from out i n ≡ count_from bitmap (offset + i) n
unfolding count_from
count_from-shift out bitmap offset i zero same = refl
count_from-shift out bitmap offset i (suc n) same =
    let rest =
      count_from-shift out bitmap offset (suc i) n
        (λ j le lt. same j (omega (arith, le)) (omega (arith, lt))) in
    ground (
      arith,
      same i (omega arith) (omega arith),
      rest,
      ap (λ (m : ℕ). count_from bitmap m n) (shifted offset i),
    )
  where
    shifted : (offset i : ℕ) → offset + suc i ≡ suc (offset + i)
    shifted offset i = omega arith

-- rebaseBitmap never runs out of its output, which is as long as a packet's bitmap must be; bit j of
-- it is bit `offset + j` of the source up to the span and unset beyond; and it counts as many missed
-- blocks as the source does from the offset on.
pub rebase_bitmap-lem :
    (bitmap : List ℕ) (offset span : ℕ)
    → (out : List ℕ) × (rebase_bitmap bitmap offset span ≡ some out)
      × (length out ≡ (span + 7) / 8)
      × ((j : ℕ)
          → bitmap_is_set out j ≡ (if ltb j span then bitmap_is_set bitmap (offset + j) else false))
      × (count_from out 0 span ≡ count_from bitmap offset span)
unfolding rebase_bitmap
rebase_bitmap-lem bitmap offset span =
    let blank = zeros ((span + 7) / 8) in
    let len₀ = length-zeros ((span + 7) / 8) in
    let (out, run, len, bits) = rebase_from-lem bitmap offset 0 span blank (omega (arith, len₀)) in
    let exact : (j : ℕ)
        → bitmap_is_set out j ≡ (if ltb j span then bitmap_is_set bitmap (offset + j) else false) =
      λ j. ground (arith, bits j, bitmap_is_set-zeros ((span + 7) / 8) j) in
    (
      out,
      run,
      len ∙ len₀,
      exact,
      count_from-shift out bitmap offset 0 span (λ j le lt. ground (arith, exact j, lt))
          ∙ ap (λ (m : ℕ). count_from bitmap m span) (omega arith),
    )
