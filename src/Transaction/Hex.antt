-- ===== src/Transaction/Hex.antt =====
-- Hexadecimal text of `Buffer`, as backend/src/services/BitcoinProofService.ts reads and writes it.
use starknet.Common.{
  ℕ, ◌+◌, ◌-◌, ◌*◌, ◌/◌, ◌%◌, ◌<◌, ◌≡◌, refl, ◌&&◌, Option, none, some, [], ◌∷◌, JsString, All, ltb,
  leb, if◌then◌else◌, arith,
}
use starknet.Bytes.{Bytes}

abbrev pub hex_digit : ℕ → ℕ
hex_digit d = if ltb d 10 then 48 + d else 87 + d

-- `buf.toString('hex')`
unfoldable pub to_hex : Bytes → JsString
to_hex [] = []
to_hex (b ∷ bs) = hex_digit (b / 16) ∷ hex_digit (b % 16) ∷ to_hex bs

abbrev pub digit_value : ℕ → Option ℕ
digit_value c =
    if leb b'0' c && leb c b'9'
    then some (c - 48)
    else if leb b'a' c && leb c b'f'
    then some (c - 87)
    else if leb b'A' c && leb c b'F'
    then some (c - 55)
    else none

-- The byte of two digits.
abbrev pub byte_of : Option ℕ → Option ℕ → Option ℕ
byte_of (some h) (some l) = some (h * 16 + l)
byte_of _ _ = none

abbrev pub cons_byte : Option ℕ → Bytes → Bytes
cons_byte none bs = []
cons_byte (some b) bs = b ∷ bs

-- `Buffer.from(s, 'hex')`, which ends at the first pair that is not of digits.
unfoldable pub from_hex : JsString → Bytes
from_hex [] = []
from_hex (c ∷ []) = []
from_hex (c ∷ d ∷ s) = cons_byte (byte_of (digit_value c) (digit_value d)) (from_hex s)

abbrev pub IsByte : ℕ → Type 0
IsByte b = b < 256

pub digit_value-hex_digit : (d : ℕ) → d < 16 → digit_value (hex_digit d) ≡ some d
digit_value-hex_digit d h = ground arith

-- Reading the text of a buffer gives the buffer back.
pub from_hex-to_hex : (bs : Bytes) → All IsByte bs → from_hex (to_hex bs) ≡ bs
unfolding from_hex to_hex
from_hex-to_hex [] h = refl
from_hex-to_hex (b ∷ bs) h =
    ground (
      arith,
      digit_value-hex_digit (b / 16),
      digit_value-hex_digit (b % 16),
      from_hex-to_hex bs h.1,
    )
