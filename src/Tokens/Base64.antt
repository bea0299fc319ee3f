-- ===== src/Tokens/Base64.antt =====
-- app/core/auth.py: `_b64_bytes`, `_b64_decode` and the texts that `split` yields, with Python's
-- `base64` as they use it. Bytes are numbers below 256.
use Prim.Native.Char.{Char, char, code}
use Prim.Native.String.{String as Text}
use Prim.Native.String.{String}
use mathlib.Core.Bool.{Bool, true, false, ◌&&◌, ◌||◌}
use mathlib.Core.Option.{Option, none, some}
use mathlib.Core.List.{List, [], ◌∷◌}
use Prim.Native.Nat.{ℕ, zero, suc, ◌+◌, ◌-◌, ◌*◌, ◌/◌, ◌%◌}
use jb_wm_backend.Base.{◌==◌, if◌then◌else◌, leb}

-- `s + t`
unfoldable pub append : String → String → String
append Text.[] t = t
append (Text.◌∷◌ c s) t = Text.◌∷◌ c (append s t)

abbrev pub is_code : ℕ → Char → Bool
is_code n c = leb n (code c) && leb (code c) n

abbrev pub in_range : ℕ → ℕ → ℕ → Bool
in_range low high n = leb low n && leb n high

-- The alphabet of `urlsafe_b64encode`.
abbrev alphabet : String
alphabet = "ABCDEFGHIJKLMNOPQRSTUVWXYZabcdefghijklmnopqrstuvwxyz0123456789-_"

unfoldable nth : ℕ → String → Char
nth n Text.[] = char 61 tt
nth zero (Text.◌∷◌ c s) = c
nth (suc n) (Text.◌∷◌ c s) = nth n s

unfoldable pub symbol : ℕ → Char
unfolding nth
symbol n = nth n alphabet

-- The six bits of a character, as `urlsafe_b64decode` reads it: it takes both alphabets.
unfoldable pub value_of : ℕ → Option ℕ
value_of n =
    if in_range 65 90 n
    then some (n - 65)
    else if in_range 97 122 n
    then some (n - 71)
    else if in_range 48 57 n
    then some (n + 4)
    else if in_range 45 45 n || in_range 43 43 n
    then some 62
    else if in_range 95 95 n || in_range 47 47 n
    then some 63
    else none

-- The characters of an encoding but for its padding, and the padding.
unfoldable pub digits : List ℕ → String
unfolding symbol
digits [] = ""
digits (a ∷ []) = Text.◌∷◌ (symbol (a / 4)) (Text.◌∷◌ (symbol (a % 4 * 16)) "")
digits (a ∷ b ∷ []) =
    Text.◌∷◌ (symbol (a / 4))
      (Text.◌∷◌ (symbol (a % 4 * 16 + b / 16)) (Text.◌∷◌ (symbol (b % 16 * 4)) ""))
digits (a ∷ b ∷ c ∷ r) = Text.◌∷◌ (symbol (a / 4)) (
    Text.◌∷◌ (symbol (a % 4 * 16 + b / 16))
      (Text.◌∷◌ (symbol (b % 16 * 4 + c / 64)) (Text.◌∷◌ (symbol (c % 64)) (digits r))))

unfoldable pub padding : List ℕ → String
padding [] = ""
padding (a ∷ []) = "=="
padding (a ∷ b ∷ []) = "="
padding (a ∷ b ∷ c ∷ r) = padding r

-- `base64.urlsafe_b64encode(data)`
unfoldable pub urlsafe_b64encode : List ℕ → String
unfolding append digits padding
urlsafe_b64encode bytes = append (digits bytes) (padding bytes)

-- `text.rstrip("=")`
unfoldable pub rstrip_pad : String → String
rstrip_pad Text.[] = ""
rstrip_pad (Text.◌∷◌ c s) =
    let rest = rstrip_pad s in if rest == "" && is_code 61 c then "" else Text.◌∷◌ c rest

-- `_b64_bytes`
unfoldable pub b64_bytes : List ℕ → String
unfolding urlsafe_b64encode rstrip_pad
b64_bytes bytes = rstrip_pad (urlsafe_b64encode bytes)

-- `binascii.a2b_base64`: the position in a group of four, the bits that are left over and the padding
-- characters read so far. Characters outside the alphabet are skipped, and a group that is cut off
-- is an error.
abbrev pub next_position : ℕ → ℕ
next_position zero = 1
next_position (suc zero) = 2
next_position (suc (suc zero)) = 3
next_position (suc (suc (suc n))) = 0

abbrev pub left_over : ℕ → ℕ → ℕ
left_over zero v = v
left_over (suc zero) v = v % 16
left_over (suc (suc zero)) v = v % 4
left_over (suc (suc (suc n))) v = 0

abbrev pub emit : ℕ → ℕ → ℕ → Option (List ℕ) → Option (List ℕ)
emit n left v none = none
emit zero left v (some bs) = some bs
emit (suc zero) left v (some bs) = some ((left * 4 + v / 16) ∷ bs)
emit (suc (suc zero)) left v (some bs) = some ((left * 16 + v / 4) ∷ bs)
emit (suc (suc (suc n))) left v (some bs) = some ((left * 64 + v) ∷ bs)

unfoldable pub decode_from : ℕ → ℕ → ℕ → String → Option (List ℕ)
unfolding value_of
decode_from zero left pads Text.[] = some []
decode_from (suc n) left pads Text.[] = none
decode_from n left pads (Text.◌∷◌ c s) = elim (value_of (code c)) [
  | some v ↦ emit n left v (decode_from (next_position n) (left_over n v) 0 s)
  | none ↦
      if is_code 61 c && leb 2 n
      then (if leb 4 (n + pads + 1) then some [] else decode_from n left (pads + 1) s)
      else decode_from n left pads s
]

-- The characters of a text, and whether they are ASCII.
unfoldable pub chars : String → ℕ
chars Text.[] = 0
chars (Text.◌∷◌ c s) = suc (chars s)

unfoldable pub is_ascii : String → Bool
is_ascii Text.[] = true
is_ascii (Text.◌∷◌ c s) = leb (code c) 127 && is_ascii s

unfoldable pub pads : ℕ → String
pads zero = ""
pads (suc n) = Text.◌∷◌ (char 61 tt) (pads n)

-- `base64.urlsafe_b64decode(text)`, absent where Python raises
unfoldable pub urlsafe_b64decode : String → Option (List ℕ)
unfolding decode_from is_ascii
urlsafe_b64decode text = if is_ascii text then decode_from 0 0 0 text else none

-- `_b64_decode`, up to the reading of the bytes as UTF-8
unfoldable pub b64_decode : String → Option (List ℕ)
unfolding append urlsafe_b64decode chars pads
b64_decode text = urlsafe_b64decode (append text (pads ((4 - chars text % 4) % 4)))

-- `text.split(separator)` for a separator of one character
abbrev pub onto_first : Char → List String → List String
onto_first c [] = Text.◌∷◌ c "" ∷ []
onto_first c (p ∷ ps) = Text.◌∷◌ c p ∷ ps

unfoldable pub split : ℕ → String → List String
split d Text.[] = "" ∷ []
split d (Text.◌∷◌ c s) =
    let rest = split d s in if is_code d c then "" ∷ rest else onto_first c rest

-- Whether a text lacks a character.
unfoldable pub lacks : ℕ → String → Bool
lacks d Text.[] = true
lacks d (Text.◌∷◌ c s) = if is_code d c then false else lacks d s
