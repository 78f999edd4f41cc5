-- ===== src/Models/Bytes.antt =====
-- encoding/binary as the decoders of models use it: little-endian words in a list of bytes.
use soldex.Base.{
  ℕ, zero, suc, ◌+◌, ◌-◌, ◌*◌, ◌/◌, ◌%◌, ◌^◌, ◌≤◌, ◌<◌, ◌≡◌, refl, arith, Bool, false, List, [],
  ◌∷◌, ltb, if◌then◌else◌, Result, ok, err, ◌>>=◌, panicked,
}

unfoldable pub take {ℓ} : {A : Type ℓ} → ℕ → List A → List A
take zero xs = []
take (suc n) [] = []
take (suc n) (x ∷ xs) = x ∷ take n xs

unfoldable pub drop {ℓ} : {A : Type ℓ} → ℕ → List A → List A
drop zero xs = xs
drop (suc n) [] = []
drop (suc n) (x ∷ xs) = drop n xs

-- `b[from:to]`, for a range within the bytes.
unfoldable pub slice : (from to : ℕ) → List ℕ → List ℕ
slice from to bytes = take (to - from) (drop from bytes)

unfoldable pub length {ℓ} : {A : Type ℓ} → List A → ℕ
length [] = 0
length (x ∷ xs) = suc (length xs)

-- `b[from:to]`, which panics where the bytes are fewer.
unfoldable pub range : (from to : ℕ) → List ℕ → Result (List ℕ)
range from to bytes = if ltb (length bytes) to then err panicked else ok (slice from to bytes)

-- `binary.LittleEndian.Uint16`, `Uint32` and `Uint64`, of all the bytes given.
unfoldable pub little_endian : List ℕ → ℕ
little_endian [] = 0
little_endian (byte ∷ bytes) = byte + 256 * little_endian bytes

-- The word of the bytes from an offset to another.
unfoldable pub word : (from to : ℕ) → List ℕ → Result ℕ
word from to bytes = do b ← range from to bytes; ok (little_endian b)

-- `data[at] != 0`
unfoldable pub flag : (at : ℕ) → List ℕ → Result Bool
flag at bytes = do b ← word at (at + 1) bytes; ok (ltb 0 b)

-- Within the bytes, a word is read.
pub word-ok :
    (from to : ℕ) (bytes : List ℕ) → to ≤ length bytes → (n : ℕ) × (word from to bytes ≡ ok n)
unfolding word range
word-ok from to bytes h =
    let within : ltb (length bytes) to ≡ false = ground arith in
    (little_endian (slice from to bytes), rw within refl)

pub flag-ok :
    (at : ℕ) (bytes : List ℕ) → at + 1 ≤ length bytes → (b : Bool) × (flag at bytes ≡ ok b)
unfolding flag
flag-ok at bytes h = let (n, e) = word-ok at (at + 1) bytes h in (ltb 0 n, rw e refl)

-- The bytes of a word.
unfoldable pub to_bytes : (width n : ℕ) → List ℕ
to_bytes zero n = []
to_bytes (suc width) n = (n % 256) ∷ to_bytes width (n / 256)

-- A word is read from its bytes.
pub little_endian-to_bytes : (width n : ℕ) → n < 256 ^ width → little_endian (to_bytes width n) ≡ n
unfolding little_endian to_bytes
little_endian-to_bytes zero n h = omega arith
little_endian-to_bytes (suc width) n h =
    omega (arith, little_endian-to_bytes width (n / 256) (omega (arith, h)))
