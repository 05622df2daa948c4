-- ===== src/Tests/Hex.antt =====
-- A codec of hexadecimal texts as the crate `hex` documents it, for the tests of
-- crates/coord-shared/src/lib.rs and crates/bins/src/bin/run-coord.rs.
use stoffel_mpc_coordinator.Prelude.{
  ℕ, ◌+◌, ◌-◌, ◌*◌, ◌/◌, ◌%◌, ◌<◌, ◌≡◌, refl, ap, false, ◌&&◌, [], ◌∷◌, Option, none, some, ltb,
  leb, ◌==◌, nat_eq, length, contains, All, arith, if◌then◌else◌,
}
use stoffel_mpc_coordinator.Shared.ExecutionId.{Bytes}
use stoffel_mpc_coordinator.Shared.Hex.{Hex, IsHex}

abbrev digit : ℕ → ℕ
digit n = if ltb n 10 then 48 + n else 87 + n

abbrev value : ℕ → Option ℕ
value c =
    if leb 48 c && leb c 57
    then some (c - 48)
    else if leb 97 c && leb c 102
    then some (c - 87)
    else none

abbrev encode : Bytes → Bytes
encode [] = []
encode (b ∷ bytes) = digit (b / 16) ∷ digit (b % 16) ∷ encode bytes

abbrev byte_of : Option ℕ → Option ℕ → Option Bytes → Option Bytes
byte_of none low rest = none
byte_of (some high) none rest = none
byte_of (some high) (some low) none = none
byte_of (some high) (some low) (some bytes) = some ((16 * high + low) ∷ bytes)

abbrev decode : Bytes → Option Bytes
decode [] = some []
decode (x ∷ []) = none
decode (x ∷ y ∷ text) = byte_of (value x) (value y) (decode text)

value-digit : (n : ℕ) → n < 16 → value (digit n) ≡ some n
value-digit n h = ground arith

decode-encode : (bytes : Bytes) → All (λ b. b < 256) bytes → decode (encode bytes) ≡ some bytes
decode-encode [] h = refl
decode-encode (b ∷ bytes) (small, h) =
    let high = value-digit (b / 16) (omega (arith, small)) in
    let low = value-digit (b % 16) (omega arith) in
    rw (high, low, decode-encode bytes h) (ap (λ c. some (c ∷ bytes)) (omega arith))

length-encode : (bytes : Bytes) → length (encode bytes) ≡ 2 * length bytes
length-encode [] = refl
length-encode (b ∷ bytes) = omega (arith, length-encode bytes)

not_comma : (n : ℕ) → (digit n == 44) ≡ false
not_comma n = ground arith

encode-digits : (bytes : Bytes) → contains (encode bytes) 44 ≡ false
encode-digits [] = refl
encode-digits (b ∷ bytes) = rw (not_comma (b / 16), not_comma (b % 16)) (encode-digits bytes)

length-byte_of :
    (text : Bytes) (high low : Option ℕ) (rest : Option Bytes) (bytes : Bytes)
    → ((found : Bytes) → rest ≡ some found → length text ≡ 2 * length found)
    → byte_of high low rest ≡ some bytes
    → 2 + length text ≡ 2 * length bytes
length-byte_of text none low rest bytes ih h = cc
length-byte_of text (some high) none rest bytes ih h = cc
length-byte_of text (some high) (some low) none bytes ih h = cc
length-byte_of text (some high) (some low) (some found) [] ih h = absurd (ground arith)
length-byte_of text (some high) (some low) (some found) (b ∷ bytes) ih h =
    let same : found ≡ bytes = ground arith in omega (arith, ih found refl, ap length same)

length-decode : (text bytes : Bytes) → decode text ≡ some bytes → length text ≡ 2 * length bytes
length-decode [] [] h = refl
length-decode [] (b ∷ bytes) h = absurd (ground arith)
length-decode (x ∷ []) bytes h = cc
length-decode (x ∷ y ∷ text) bytes h =
    omega
      (arith, length-byte_of text (value x) (value y) (decode text) bytes (length-decode text) h)

abbrev pub hexadecimal : Hex
hexadecimal = record { encode = encode; decode = decode }

pub hexadecimal-IsHex : IsHex hexadecimal
hexadecimal-IsHex = record {
  inverse = decode-encode;
  two_digits = length-encode;
  digits = λ bytes h. encode-digits bytes;
  pairs = length-decode;
}
