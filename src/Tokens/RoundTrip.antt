-- ===== src/Tokens/RoundTrip.antt =====
-- app/core/auth.py: `_b64_decode` undoes `_b64_bytes`, and a token splits into its parts.
use Prim.Native.Char.{Char, code}
use Prim.Native.String.{String as Text}
use mathlib.Core.Path.{subst}
use jb_wm_backend.Base.{
  ℕ, zero, suc, ◌+◌, ◌-◌, ◌*◌, ◌/◌, ◌%◌, ◌<◌, String, arith, ◌≡◌, refl, ap, ◌∙◌, Bool, true, false,
  ◌&&◌, Option, none, some, List, [], ◌∷◌, leb, All, Bool-cases, inl, inr, and-eq-true,
}
use jb_wm_backend.Tokens.Base64.{
  append, is_code, symbol, value_of, digits, padding, urlsafe_b64encode, rstrip_pad, b64_bytes,
  next_position, left_over, emit, decode_from, chars, is_ascii, pads, urlsafe_b64decode, b64_decode,
  split, lacks,
}

abbrev is_value : ℕ → Option ℕ → Bool
is_value n none = false
is_value n (some m) = leb n m && leb m n

-- The first n symbols stand for their numbers.
abbrev read_back : ℕ → Bool
unfolding value_of symbol
read_back zero = true
read_back (suc n) = is_value n (value_of (code (symbol n))) && read_back n

read_back_all : read_back 64 ≡ true
unfolding value_of symbol
read_back_all = refl

is_value_sound : (n : ℕ) (o : Option ℕ) → is_value n o ≡ true → o ≡ some n
is_value_sound n none h = cc
is_value_sound n (some m) h = ap some (ground arith)

read_back_sound : (k n : ℕ) → read_back k ≡ true → n < k → value_of (code (symbol n)) ≡ some n
unfolding value_of read_back
read_back_sound zero n h low = absurd (omega arith)
read_back_sound (suc k) n h low =
    let (last, before) = and-eq-true (is_value k (value_of (code (symbol k)))) (read_back k) h in
    elim (Bool-cases (leb k n)) [
      | inl top ↦
          let same : k ≡ n = ground arith in
          subst (λ m. value_of (code (symbol m)) ≡ some m) same
            (is_value_sound k (value_of (code (symbol k))) last)
      | inr below ↦ read_back_sound k n before (ground arith)
    ]

value-symbol : (n : ℕ) → n < 64 → value_of (code (symbol n)) ≡ some n
value-symbol n low = read_back_sound 64 n read_back_all low

-- A text of characters of the alphabet.
abbrev pub IsCoded : String → Type 0
IsCoded Text.[] = Unit
IsCoded (Text.◌∷◌ c s) = ((v : ℕ) × (value_of (code c) ≡ some v)) × IsCoded s

abbrev pub IsByte : ℕ → Type 0
IsByte n = n < 256

coded : (n : ℕ) → n < 64 → (v : ℕ) × (value_of (code (symbol n)) ≡ some v)
coded n low = (n, value-symbol n low)

pub digits-IsCoded : (bytes : List ℕ) → All IsByte bytes → IsCoded (digits bytes)
unfolding digits
digits-IsCoded [] h = tt
digits-IsCoded (a ∷ []) h =
    let low = h.0 in (coded (a / 4) (omega arith), (coded (a % 4 * 16) (omega arith), tt))
digits-IsCoded (a ∷ b ∷ []) h =
    let low : a < 256 = h.0 in
    let low' : b < 256 = h.1.0 in
    (
      coded (a / 4) (omega arith),
      (coded (a % 4 * 16 + b / 16) (omega arith), (coded (b % 16 * 4) (omega arith), tt)),
    )
digits-IsCoded (a ∷ b ∷ c ∷ r) h =
    let low : a < 256 = h.0 in
    let low' : b < 256 = h.1.0 in
    let low'' : c < 256 = h.1.1.0 in
    (
      coded (a / 4) (omega arith),
      (
        coded (a % 4 * 16 + b / 16) (omega arith),
        (
          coded (b % 16 * 4 + c / 64) (omega arith),
          (coded (c % 64) (omega arith), digits-IsCoded r h.1.1.1),
        ),
      ),
    )

-- No character of the alphabet pads or separates.
value_apart :
    (n v : ℕ)
    → value_of n ≡ some v
    → (leb 61 n && leb n 61 ≡ false) × (leb 46 n && leb n 46 ≡ false) × (leb n 127 ≡ true)
unfolding value_of
value_apart n v h = ground arith

pub IsCoded-lacks : (s : String) → IsCoded s → lacks 46 s ≡ true
unfolding lacks
IsCoded-lacks Text.[] h = refl
IsCoded-lacks (Text.◌∷◌ c s) h =
    ground (arith, value_apart (code c) h.0.0 h.0.1, IsCoded-lacks s h.1)

coded-is_ascii : (s : String) (n : ℕ) → IsCoded s → is_ascii (append s (pads n)) ≡ true
unfolding is_ascii append pads
coded-is_ascii Text.[] zero h = refl
coded-is_ascii Text.[] (suc n) h = ground (arith, coded-is_ascii Text.[] n tt)
coded-is_ascii (Text.◌∷◌ c s) n h =
    ground (arith, value_apart (code c) h.0.0 h.0.1, coded-is_ascii s n h.1)

rstrip-pads : (n : ℕ) → rstrip_pad (pads n) ≡ ""
unfolding rstrip_pad pads
rstrip-pads zero = refl
rstrip-pads (suc n) = rw (rstrip-pads n) refl

rstrip-coded : (s : String) (n : ℕ) → IsCoded s → rstrip_pad (append s (pads n)) ≡ s
unfolding rstrip_pad append
rstrip-coded Text.[] n h = rstrip-pads n
rstrip-coded (Text.◌∷◌ c s) n h =
    ground (arith, value_apart (code c) h.0.0 h.0.1, rstrip-coded s n h.1)

-- The number of padding characters.
abbrev missing : List ℕ → ℕ
missing [] = 0
missing (a ∷ []) = 2
missing (a ∷ b ∷ []) = 1
missing (a ∷ b ∷ c ∷ r) = missing r

padding-missing : (bytes : List ℕ) → padding bytes ≡ pads (missing bytes)
unfolding padding pads
padding-missing [] = refl
padding-missing (a ∷ []) = refl
padding-missing (a ∷ b ∷ []) = refl
padding-missing (a ∷ b ∷ c ∷ r) = padding-missing r

missing-chars : (bytes : List ℕ) → (4 - chars (digits bytes) % 4) % 4 ≡ missing bytes
unfolding chars digits
missing-chars [] = refl
missing-chars (a ∷ []) = refl
missing-chars (a ∷ b ∷ []) = refl
missing-chars (a ∷ b ∷ c ∷ r) =
    let n = chars (digits r) in
    let same : (4 - suc (suc (suc (suc n))) % 4) % 4 ≡ (4 - n % 4) % 4 = omega arith in
    same ∙ missing-chars r

-- The encoding without its padding.
pub b64_bytes-digits : (bytes : List ℕ) → All IsByte bytes → b64_bytes bytes ≡ digits bytes
unfolding b64_bytes urlsafe_b64encode
b64_bytes-digits bytes h =
    rw (padding-missing bytes)
      (rstrip-coded (digits bytes) (missing bytes) (digits-IsCoded bytes h))

-- One character of the alphabet in front.
decode_symbol :
    (p left q n : ℕ) (s : String)
    → n < 64
    → decode_from p left q (Text.◌∷◌ (symbol n) s)
      ≡ emit p left n (decode_from (next_position p) (left_over p n) 0 s)
unfolding decode_from
decode_symbol zero left q n s low = rw (decode_from, value-symbol n low) refl
decode_symbol (suc p) left q n s low = rw (decode_from, value-symbol n low) refl

decode_end : decode_from 0 0 0 "" ≡ some []
unfolding decode_from
decode_end = refl

decode_one_pad : (left : ℕ) → decode_from 3 left 0 (pads 1) ≡ some []
unfolding decode_from pads
decode_one_pad left = refl

decode_two_pads : (left : ℕ) → decode_from 2 left 0 (pads 2) ≡ some []
unfolding decode_from pads
decode_two_pads left = refl

two_bytes : (x a y b : ℕ) → x ≡ a → y ≡ b → some (x ∷ y ∷ []) ≡ some (a ∷ b ∷ [])
two_bytes x a y b e f = rw (e, f) refl

same_bytes :
    (x a y b z c : ℕ) (r : List ℕ)
    → x ≡ a
    → y ≡ b
    → z ≡ c
    → some (x ∷ y ∷ z ∷ r) ≡ some (a ∷ b ∷ c ∷ r)
same_bytes x a y b z c r e f g = rw (e, f, g) refl

decode-digits :
    (bytes : List ℕ)
    → All IsByte bytes
    → decode_from 0 0 0 (append (digits bytes) (pads (missing bytes))) ≡ some bytes
unfolding digits append pads
decode-digits [] h = decode_end
decode-digits (a ∷ []) h =
    let low : a < 256 = h.0 in
    let end : String = pads 2 in
    let last = Text.◌∷◌ (symbol (a % 4 * 16)) end in
    decode_symbol 0 0 0 (a / 4) last (omega arith)
    ∙ ap (emit 0 0 (a / 4)) (
        decode_symbol 1 (a / 4) 0 (a % 4 * 16) end (omega arith)
        ∙ ap (emit 1 (a / 4) (a % 4 * 16)) (decode_two_pads (a % 4 * 16 % 16)))
    ∙ ap (λ n. some (n ∷ [])) (omega arith)
decode-digits (a ∷ b ∷ []) h =
    let low : a < 256 = h.0 in
    let low' : b < 256 = h.1.0 in
    let end : String = pads 1 in
    let v = a % 4 * 16 + b / 16 in
    let u = b % 16 * 4 in
    let last = Text.◌∷◌ (symbol u) end in
    decode_symbol 0 0 0 (a / 4) (Text.◌∷◌ (symbol v) last) (omega arith)
    ∙ ap (emit 0 0 (a / 4)) (
        decode_symbol 1 (a / 4) 0 v last (omega arith)
        ∙ ap (emit 1 (a / 4) v) (
            decode_symbol 2 (v % 16) 0 u end (omega arith)
            ∙ ap (emit 2 (v % 16) u) (decode_one_pad (u % 4))))
    ∙ two_bytes _ a _ b (omega arith) (omega arith)
decode-digits (a ∷ b ∷ c ∷ r) h =
    let low : a < 256 = h.0 in
    let low' : b < 256 = h.1.0 in
    let low'' : c < 256 = h.1.1.0 in
    let end : String = append (digits r) (pads (missing r)) in
    let v = a % 4 * 16 + b / 16 in
    let u = b % 16 * 4 + c / 64 in
    let t = c % 64 in
    let last = Text.◌∷◌ (symbol t) end in
    decode_symbol 0 0 0 (a / 4) (Text.◌∷◌ (symbol v) (Text.◌∷◌ (symbol u) last)) (omega arith)
    ∙ ap (emit 0 0 (a / 4)) (
        decode_symbol 1 (a / 4) 0 v (Text.◌∷◌ (symbol u) last) (omega arith)
        ∙ ap (emit 1 (a / 4) v) (
            decode_symbol 2 (v % 16) 0 u last (omega arith)
            ∙ ap (emit 2 (v % 16) u) (
                decode_symbol 3 (u % 4) 0 t end (omega arith)
                ∙ ap (emit 3 (u % 4) t) (decode-digits r h.1.1.1))))
    ∙ same_bytes _ a _ b _ c r (omega arith) (omega arith) (omega arith)

-- `_b64_decode` gives back the bytes that `_b64_bytes` encoded, whatever their number: the padding
-- that the one strips, the other restores.
pub b64_decode-b64_bytes :
    (bytes : List ℕ) → All IsByte bytes → b64_decode (b64_bytes bytes) ≡ some bytes
unfolding b64_decode urlsafe_b64decode
b64_decode-b64_bytes bytes h =
    rw
      (
        b64_bytes-digits bytes h,
        missing-chars bytes,
        coded-is_ascii (digits bytes) (missing bytes) (digits-IsCoded bytes h),
      )
      (decode-digits bytes h)

-- A text without the separator is one part, and one in front of the separator is the first.
pub split-lacks : (d : ℕ) (s : String) → lacks d s ≡ true → split d s ≡ s ∷ []
unfolding split lacks
split-lacks d Text.[] h = refl
split-lacks d (Text.◌∷◌ c s) h = elim (Bool-cases (is_code d c)) [
  | inl here ↦ absurd (ground arith)
  | inr other ↦ rw (other, split-lacks d s (ground arith)) refl
]

pub split-append :
    (d : ℕ) (c : Char) (s t : String)
    → is_code d c ≡ true
    → lacks d s ≡ true
    → split d (append s (Text.◌∷◌ c t)) ≡ s ∷ split d t
unfolding split lacks append
split-append d c Text.[] t e h = rw e refl
split-append d c (Text.◌∷◌ b s) t e h = elim (Bool-cases (is_code d b)) [
  | inl here ↦ absurd (ground arith)
  | inr other ↦ rw (other, split-append d c s t e (ground arith)) refl
]
