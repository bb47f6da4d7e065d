-- ===== src/Evidence/Bitmap.antt =====
-- BitmapIsSet and BitmapSet of x/vaas/types/utils.go, on lists of bytes.
use vaas.Base.{
  ℕ, zero, suc, ◌+◌, ◌*◌, ◌/◌, ◌%◌, ◌<◌, ◌≡◌, refl, ap, Bool, true, false, Option, none, some, List,
  [], ◌∷◌, arith, ◌==◌, if◌then◌else◌, length,
}

-- Bit j of a byte: `b & (1 << j) != 0`.
unfoldable pub test_bit : ℕ → ℕ → Bool
test_bit b zero = b % 2 == 1
test_bit b (suc j) = test_bit (b / 2) j

-- `b | (1 << j)`.
unfoldable pub or_bit : ℕ → ℕ → ℕ
or_bit b zero = if b % 2 == 1 then b else b + 1
or_bit b (suc j) = b % 2 + 2 * or_bit (b / 2) j

-- The byte at an index; `none` is out of range.
unfoldable pub byte_at : ℕ → List ℕ → Option ℕ
byte_at i [] = none
byte_at zero (b ∷ bs) = some b
byte_at (suc i) (b ∷ bs) = byte_at i bs

unfoldable pub put_byte : ℕ → ℕ → List ℕ → List ℕ
put_byte i c [] = []
put_byte zero c (b ∷ bs) = c ∷ bs
put_byte (suc i) c (b ∷ bs) = b ∷ put_byte i c bs

-- BitmapIsSet: bits outside the bitmap are unset.
unfoldable pub bitmap_is_set : List ℕ → ℕ → Bool
bitmap_is_set bitmap i = elim (byte_at (i / 8) bitmap) [
  | none ↦ false
  | some b ↦ test_bit b (i % 8)
]

-- BitmapSet: `none` is the panic of an index out of range.
unfoldable pub bitmap_set : List ℕ → ℕ → Option (List ℕ)
bitmap_set bitmap i = elim (byte_at (i / 8) bitmap) [
  | none ↦ none
  | some b ↦ some (put_byte (i / 8) (or_bit b (i % 8)) bitmap)
]

half_odd : (b : ℕ) → (if b % 2 == 1 then b else b + 1) / 2 ≡ b / 2
half_odd b = ground arith

half_sum : (r x : ℕ) → r < 2 → (r + 2 * x) / 2 ≡ x
half_sum r x h = omega (arith, h)

-- Setting a bit sets it and no other.
test_bit-or_bit : (b j k : ℕ) → test_bit (or_bit b j) k ≡ (if j == k then true else test_bit b k)
unfolding test_bit or_bit
test_bit-or_bit b zero zero = ground arith
test_bit-or_bit b zero (suc k) = ground (arith, ap (λ (n : ℕ). test_bit n k) (half_odd b))
test_bit-or_bit b (suc j) zero = ground arith
test_bit-or_bit b (suc j) (suc k) = ground (
  arith,
  ap (λ (n : ℕ). test_bit n k) (half_sum (b % 2) (or_bit (b / 2) j) (ground arith)),
  test_bit-or_bit (b / 2) j k,
)

length-put_byte : (i c : ℕ) (bs : List ℕ) → length (put_byte i c bs) ≡ length bs
unfolding put_byte
length-put_byte i c [] = refl
length-put_byte zero c (b ∷ bs) = refl
length-put_byte (suc i) c (b ∷ bs) = omega (arith, length-put_byte i c bs)

byte_at-put_byte :
    (i j c : ℕ) (bs : List ℕ)
    → i < length bs
    → byte_at j (put_byte i c bs) ≡ (if i == j then some c else byte_at j bs)
unfolding byte_at put_byte
byte_at-put_byte i j c [] h = ground (arith, h)
byte_at-put_byte zero zero c (b ∷ bs) h = refl
byte_at-put_byte zero (suc j) c (b ∷ bs) h = ground arith
byte_at-put_byte (suc i) zero c (b ∷ bs) h = ground arith
byte_at-put_byte (suc i) (suc j) c (b ∷ bs) h =
    ground (arith, byte_at-put_byte i j c bs (omega (arith, h)))

byte_at-some : (i : ℕ) (bs : List ℕ) → i < length bs → (b : ℕ) × (byte_at i bs ≡ some b)
unfolding byte_at
byte_at-some i [] h = ground (arith, h)
byte_at-some zero (b ∷ bs) h = (b, refl)
byte_at-some (suc i) (b ∷ bs) h = byte_at-some i bs (omega (arith, h))

-- Setting a bit within the bitmap succeeds, keeps the length, and changes that bit only.
pub bitmap_set-lem :
    (bitmap : List ℕ) (i : ℕ)
    → i / 8 < length bitmap
    → (bitmap' : List ℕ) × (bitmap_set bitmap i ≡ some bitmap')
      × (length bitmap' ≡ length bitmap)
      × ((j : ℕ) → bitmap_is_set bitmap' j ≡ (if i == j then true else bitmap_is_set bitmap j))
unfolding bitmap_set bitmap_is_set
bitmap_set-lem bitmap i inside =
    let (b, found) = byte_at-some (i / 8) bitmap inside in
    (
      put_byte (i / 8) (or_bit b (i % 8)) bitmap,
      ground (arith, found),
      length-put_byte (i / 8) _ bitmap,
      λ j. ground (
        arith,
        found,
        byte_at-put_byte (i / 8) (j / 8) (or_bit b (i % 8)) bitmap inside,
        test_bit-or_bit b (i % 8) (j % 8),
      ),
    )
