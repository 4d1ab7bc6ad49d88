-- ===== src/Password/Sha256.antt =====
-- SHA-256: pwd::detail::rotr and sha256_raw of IMServer/IMServer/PasswordUtil.h. Words are numbers
-- below 2 ^ 32, with the wrap-around of uint32_t written out.
use Prim.Native.Nat.{bit_and, bit_or, bit_xor}
use aim_server.Common.{
  ℕ, zero, suc, ◌+◌, ◌-◌, ◌*◌, ◌/◌, ◌%◌, ◌^◌, ◌<◌, ◌≡◌, refl, List, [], ◌∷◌, ◌++◌, arith, ◌==◌,
  if◌then◌else◌, Bytes, IsBytes, text, length, length-append, drop, get_or,
}

abbrev word : ℕ
word = 2 ^ 32

rotr : ℕ → ℕ → ℕ
rotr x n = bit_or (x / 2 ^ n) (x * 2 ^ (32 - n) % word)

xor3 : ℕ → ℕ → ℕ → ℕ
xor3 a b c = bit_xor (bit_xor a b) c

-- The table `k`.
k_table : List ℕ
k_table =
    0x428a2f98 ∷ 0x71374491 ∷ 0xb5c0fbcf ∷ 0xe9b5dba5 ∷ 0x3956c25b ∷ 0x59f111f1 ∷ 0x923f82a4
    ∷ 0xab1c5ed5 ∷ 0xd807aa98 ∷ 0x12835b01 ∷ 0x243185be ∷ 0x550c7dc3 ∷ 0x72be5d74 ∷ 0x80deb1fe
    ∷ 0x9bdc06a7 ∷ 0xc19bf174 ∷ 0xe49b69c1 ∷ 0xefbe4786 ∷ 0x0fc19dc6 ∷ 0x240ca1cc ∷ 0x2de92c6f
    ∷ 0x4a7484aa ∷ 0x5cb0a9dc ∷ 0x76f988da ∷ 0x983e5152 ∷ 0xa831c66d ∷ 0xb00327c8 ∷ 0xbf597fc7
    ∷ 0xc6e00bf3 ∷ 0xd5a79147 ∷ 0x06ca6351 ∷ 0x14292967 ∷ 0x27b70a85 ∷ 0x2e1b2138 ∷ 0x4d2c6dfc
    ∷ 0x53380d13 ∷ 0x650a7354 ∷ 0x766a0abb ∷ 0x81c2c92e ∷ 0x92722c85 ∷ 0xa2bfe8a1 ∷ 0xa81a664b
    ∷ 0xc24b8b70 ∷ 0xc76c51a3 ∷ 0xd192e819 ∷ 0xd6990624 ∷ 0xf40e3585 ∷ 0x106aa070 ∷ 0x19a4c116
    ∷ 0x1e376c08 ∷ 0x2748774c ∷ 0x34b0bcb5 ∷ 0x391c0cb3 ∷ 0x4ed8aa4a ∷ 0x5b9cca4f ∷ 0x682e6ff3
    ∷ 0x748f82ee ∷ 0x78a5636f ∷ 0x84c87814 ∷ 0x8cc70208 ∷ 0x90befffa ∷ 0xa4506ceb ∷ 0xbef9a3f7
    ∷ 0xc67178f2 ∷ []

-- The eight words of the state, `h` and `a` to `hh`.
pub record Words : Type 0 where
  pub a : ℕ
  pub b : ℕ
  pub c : ℕ
  pub d : ℕ
  pub e : ℕ
  pub f : ℕ
  pub g : ℕ
  pub h : ℕ

initial : Words
initial = record {
  a = 0x6a09e667;
  b = 0xbb67ae85;
  c = 0x3c6ef372;
  d = 0xa54ff53a;
  e = 0x510e527f;
  f = 0x9b05688c;
  g = 0x1f83d9ab;
  h = 0x5be0cd19;
}

-- `while (data.size() % 64 != 56) data.push_back(0)`, from a size on.
pad_zeros : ℕ → ℕ → Bytes
pad_zeros zero size = []
pad_zeros (suc fuel) size =
    let rest = pad_zeros fuel (size + 1) in if size % 64 == 56 then [] else 0 ∷ rest

-- The lowest bytes of a number, the highest of them first.
big_endian : ℕ → ℕ → Bytes
big_endian zero x = []
big_endian (suc n) x = x / 2 ^ (n * 8) % 256 ∷ big_endian n x

-- The message with its padding and its length in bits.
pub padded : Bytes → Bytes
unfolding pad_zeros big_endian
padded msg =
    let marked = msg ++ 0x80 ∷ [] in
    marked ++ (pad_zeros 64 (length marked) ++ big_endian 8 (length msg * 8 % 2 ^ 64))

-- Words from the bytes of a chunk.
words_of : ℕ → Bytes → List ℕ
words_of zero s = []
words_of (suc n) s =
    bit_or (bit_or (get_or s 0 0 * 2 ^ 24) (get_or s 1 0 * 2 ^ 16))
      (bit_or (get_or s 2 0 * 2 ^ 8) (get_or s 3 0))
    ∷ words_of n (drop 4 s)

-- w[i] and the entries behind it.
extend : ℕ → ℕ → List ℕ → List ℕ
extend zero i w = w
extend (suc n) i w =
    let at = λ (k : ℕ). get_or w (i - k) 0 in
    let s0 = xor3 (rotr (at 15) 7) (rotr (at 15) 18) (at 15 / 2 ^ 3) in
    let s1 = xor3 (rotr (at 2) 17) (rotr (at 2) 19) (at 2 / 2 ^ 10) in
    extend n (i + 1) (w ++ (at 16 + s0 + at 7 + s1) % word ∷ [])

round : Words → ℕ → ℕ → Words
round s k w =
    let s1 = xor3 (rotr s.e 6) (rotr s.e 11) (rotr s.e 25) in
    let ch = bit_xor (bit_and s.e s.f) (bit_and (word - 1 - s.e) s.g) in
    let t1 = (s.h + s1 + ch + k + w) % word in
    let s0 = xor3 (rotr s.a 2) (rotr s.a 13) (rotr s.a 22) in
    let maj = xor3 (bit_and s.a s.b) (bit_and s.a s.c) (bit_and s.b s.c) in
    let t2 = (s0 + maj) % word in
    record {
      a = (t1 + t2) % word;
      b = s.a;
      c = s.b;
      d = s.c;
      e = (s.d + t1) % word;
      f = s.e;
      g = s.f;
      h = s.g;
    }

rounds : Words → List ℕ → List ℕ → Words
rounds s [] ws = s
rounds s (k ∷ ks) [] = s
rounds s (k ∷ ks) (w ∷ ws) = rounds (round s k w) ks ws

add_words : Words → Words → Words
add_words x y = record {
  a = (x.a + y.a) % word;
  b = (x.b + y.b) % word;
  c = (x.c + y.c) % word;
  d = (x.d + y.d) % word;
  e = (x.e + y.e) % word;
  f = (x.f + y.f) % word;
  g = (x.g + y.g) % word;
  h = (x.h + y.h) % word;
}

-- One pass of the loop over the chunks.
chunk : Words → Bytes → Words
unfolding words_of extend rounds round rotr xor3 k_table add_words
chunk s bytes = add_words s (rounds s k_table (extend 48 16 (words_of 16 bytes)))

chunks : ℕ → Words → Bytes → Words
chunks zero s bytes = s
chunks (suc n) s bytes = chunks n (chunk s bytes) (drop 64 bytes)

word_bytes : ℕ → Bytes
unfolding big_endian
word_bytes x = big_endian 4 x

output : Words → Bytes
unfolding word_bytes
output s =
    word_bytes s.a
    ++ (word_bytes s.b
        ++ (word_bytes s.c
            ++ (word_bytes s.d
                ++ (word_bytes s.e ++ (word_bytes s.f ++ (word_bytes s.g ++ word_bytes s.h))))))

pub sha256_raw : Bytes → Bytes
unfolding padded chunks chunk initial output
sha256_raw msg = let bytes = padded msg in output (chunks (length bytes / 64) initial bytes)

-- The padding loop ends by its test when the fuel covers the zeros that are missing.
pad_zeros-aligned :
    (fuel size : ℕ)
    → (120 - size % 64) % 64 < fuel
    → (size + length (pad_zeros fuel size)) % 64 ≡ 56
unfolding pad_zeros
pad_zeros-aligned zero size h = absurd (omega arith)
pad_zeros-aligned (suc fuel) size h = ground (arith, pad_zeros-aligned fuel (size + 1))

length-big_endian : (n x : ℕ) → length (big_endian n x) ≡ n
unfolding big_endian
length-big_endian zero x = refl
length-big_endian (suc n) x = omega (arith, length-big_endian n x)

big_endian-IsBytes : (n x : ℕ) → IsBytes (big_endian n x)
unfolding big_endian
big_endian-IsBytes zero x = tt
big_endian-IsBytes (suc n) x = (omega arith, big_endian-IsBytes n x)

-- The padded message is a whole number of chunks, so the loop over the chunks reads no byte
-- behind its end.
pub padded-aligned : (msg : Bytes) → length (padded msg) % 64 ≡ 0
unfolding padded
padded-aligned msg =
    let marked = msg ++ 0x80 ∷ [] in
    let zeros = pad_zeros 64 (length marked) in
    let tail = big_endian 8 (length msg * 8 % 2 ^ 64) in
    omega (
      arith,
      length-append marked (zeros ++ tail),
      length-append zeros tail,
      pad_zeros-aligned 64 (length marked) (omega arith),
      length-big_endian 8 (length msg * 8 % 2 ^ 64),
    )

output_digest : (s : Words) → IsBytes (output s) × (length (output s) ≡ 32)
unfolding output word_bytes big_endian
output_digest s = (omega arith, refl)

-- A digest is 32 bytes, whatever the message.
pub sha256_raw_digest : (msg : Bytes) → IsBytes (sha256_raw msg) × (length (sha256_raw msg) ≡ 32)
unfolding sha256_raw
sha256_raw_digest msg = output_digest (chunks (length (padded msg) / 64) initial (padded msg))

sha256_abc :
    sha256_raw (text "abc")
    ≡ 0xba ∷ 0x78 ∷ 0x16 ∷ 0xbf ∷ 0x8f ∷ 0x01 ∷ 0xcf ∷ 0xea ∷ 0x41 ∷ 0x41 ∷ 0x40 ∷ 0xde ∷ 0x5d
      ∷ 0xae ∷ 0x22 ∷ 0x23 ∷ 0xb0 ∷ 0x03 ∷ 0x61 ∷ 0xa3 ∷ 0x96 ∷ 0x17 ∷ 0x7a ∷ 0x9c ∷ 0xb4 ∷ 0x10
      ∷ 0xff ∷ 0x61 ∷ 0xf2 ∷ 0x00 ∷ 0x15 ∷ 0xad ∷ []
unfolding sha256_raw text
sha256_abc = refl
