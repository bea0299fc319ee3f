-- ===== src/Base/Texts.antt =====
-- Python's text methods that the code calls.
use Prim.Native.Nat.{ℕ}
use Prim.Native.Char.{Char, code}
use Prim.Native.String.{String as Text}
use Prim.Native.String.{String}
use mathlib.Core.Bool.{Bool, ◌&&◌, ◌||◌}
use mathlib.Core.List.{List}
use text.Mathlib.Text.{◌==◌, starts_with}
use jb_wm_backend.Base.Queries.{if◌then◌else◌, leb, any}

-- `needle in text`
unfoldable pub contains : String → String → Bool
contains needle Text.[] = needle == ""
contains needle (Text.◌∷◌ c s) = starts_with (Text.◌∷◌ c s) needle || contains needle s

-- `any(marker in text for marker in markers)`
abbrev pub contains_any : List String → String → Bool
contains_any markers text = any (λ m. contains m text) markers

abbrev between : ℕ → ℕ → ℕ → Bool
between lo hi n = leb lo n && leb n hi

-- `str.isspace` of one character.
unfoldable is_space : Char → Bool
is_space c =
    between 9 13 (code c)
    || between 28 32 (code c)
    || between 133 133 (code c)
    || between 160 160 (code c)
    || between 5760 5760 (code c)
    || between 8192 8202 (code c)
    || between 8232 8233 (code c)
    || between 8239 8239 (code c)
    || between 8287 8287 (code c)
    || between 12288 12288 (code c)

unfoldable lstrip : String → String
unfolding is_space
lstrip Text.[] = Text.[]
lstrip (Text.◌∷◌ c s) = if is_space c then lstrip s else Text.◌∷◌ c s

unfoldable rstrip : String → String
unfolding is_space
rstrip Text.[] = Text.[]
rstrip (Text.◌∷◌ c s) =
    let rest = rstrip s in if rest == "" && is_space c then Text.[] else Text.◌∷◌ c rest

-- `text.strip()`
unfoldable pub strip : String → String
unfolding lstrip rstrip
strip s = rstrip (lstrip s)
