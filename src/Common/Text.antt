-- ===== src/Common/Text.antt =====
-- Strings of the source language: lists of UTF-16 code units.
use starknet.Common.Lists.{drop, All, All-append}
use Prim.Native.Nat.{ℕ, zero, suc, ◌+◌, ◌-◌, ◌/◌, ◌%◌}
use Prim.Native.Char.{code}
use Prim.Native.String.{String}
use mathlib.Core.Path.{◌≡◌, refl}
use mathlib.Core.Logic.{◌≢◌, ◌↔◌}
use mathlib.Core.Bool.{Bool, true, false, ◌&&◌, ◌||◌}
use mathlib.Core.List.{List, [], ◌∷◌, ◌++◌, map, reverse, reverse-cons, reverse-reverse}
use native.Mathlib.Omega.{arith}
use starknet.Common.Tests.{ltb, leb, ◌==◌, if◌then◌else◌}
use starknet.Common.Lists.{length, replicate}

abbrev pub JsString : Type 0
JsString = List ℕ

-- The code units of an ASCII literal.
abbrev pub codes : String → JsString
codes String.[] = []
codes (String.◌∷◌ c s) = code c ∷ codes s

-- `a === b` on strings
infix 50 ◌===◌
unfoldable pub ◌===◌ : JsString → JsString → Bool
[] === [] = true
[] === (d ∷ t) = false
(c ∷ s) === [] = false
(c ∷ s) === (d ∷ t) = (c == d) && s === t

pub ===_iff : (s t : JsString) → ((s === t) ≡ true) ↔ (s ≡ t)
unfolding ◌===◌
===_iff [] [] = ground arith
===_iff [] (d ∷ t) = ground arith
===_iff (c ∷ s) [] = ground arith
===_iff (c ∷ s) (d ∷ t) = ground (arith, ===_iff s t)

pub ===_refl : (s : JsString) → (s === s) ≡ true
===_refl s = (===_iff s s).1 refl

pub ===_ne : (s t : JsString) → (s === t) ≡ false → s ≢ t
===_ne s t h e = ground (arith, ===_iff s t)

-- `s.startsWith(p)`
unfoldable pub starts_with : JsString → JsString → Bool
starts_with s [] = true
starts_with [] (d ∷ p) = false
starts_with (c ∷ s) (d ∷ p) = (c == d) && starts_with s p

-- `s.includes(p)`
unfoldable pub includes : JsString → JsString → Bool
unfolding starts_with
includes [] p = starts_with [] p
includes (c ∷ s) p = starts_with (c ∷ s) p || includes s p

-- One unit of `s.toLowerCase()`, exact on ASCII, which the addresses and hashes are.
abbrev pub lower_unit : ℕ → ℕ
lower_unit c = if leb b'A' c && leb c b'Z' then c + 32 else c

unfoldable pub to_lower_case : JsString → JsString
to_lower_case s = map lower_unit s

-- `s.padStart(n, c)` with a pad of one unit
unfoldable pub pad_start : ℕ → ℕ → JsString → JsString
pad_start n c s = replicate (n - length s) c ++ s

-- The truth value of a string: the empty one is falsy.
abbrev pub truthy : JsString → Bool
truthy [] = false
truthy (c ∷ s) = true

-- `s.replace('0x', '')`: the first occurrence only
abbrev pub remove_prefix_mark : JsString → JsString
remove_prefix_mark [] = []
remove_prefix_mark (c ∷ s) =
    if starts_with (c ∷ s) (codes "0x") then drop 2 (c ∷ s) else c ∷ remove_prefix_mark s

-- The white space that `trim` removes.
abbrev pub is_space : ℕ → Bool
is_space c =
    (leb 9 c && leb c 13)
    || c == 32
    || c == 160
    || c == 5760
    || (leb 8192 c && leb c 8202)
    || c == 8232
    || c == 8233
    || c == 8239
    || c == 8287
    || c == 12288
    || c == 65279

abbrev pub drop_spaces : JsString → JsString
drop_spaces [] = []
drop_spaces (c ∷ s) = if is_space c then drop_spaces s else c ∷ s

-- `s.trim()`
abbrev pub trim : JsString → JsString
trim s = reverse (drop_spaces (reverse (drop_spaces s)))

abbrev pub IsInk : ℕ → Type 0
IsInk c = is_space c ≡ false

drop_spaces_inked : (s : JsString) → All IsInk s → drop_spaces s ≡ s
drop_spaces_inked [] h = refl
drop_spaces_inked (c ∷ s) h = rw h.0 refl

All-reverse {κ} : (P : ℕ → Type κ) (s : JsString) → All P s → All P (reverse s)
All-reverse P [] h = tt
All-reverse P (c ∷ s) h =
    rw (reverse-cons c s) (All-append P (reverse s) (c ∷ []) (All-reverse P s h.1) (h.0, tt))

-- A text without white space is not changed.
pub trim_inked : (s : JsString) → All IsInk s → trim s ≡ s
trim_inked s h =
    rw (drop_spaces_inked s h, drop_spaces_inked (reverse s) (All-reverse IsInk s h))
      (reverse-reverse s)

-- The decimal digits of a number, of which there are at most as many as the number says, and one.
abbrev pub digits : ℕ → ℕ → JsString
digits zero n = []
digits (suc f) n =
    let rest = digits f (n / 10) in if ltb n 10 then (48 + n) ∷ [] else rest ++ (48 + n % 10) ∷ []

abbrev pub decimal : ℕ → JsString
decimal n = digits (n + 1) n
