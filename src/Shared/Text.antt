-- ===== src/Shared/Text.antt =====
-- Text: Python's `str.strip`, emptiness and `str` comparison on the native strings.
use Prim.Native.Nat.{ℕ}
use Prim.Native.Char.{code}
use Prim.Native.String.{String}
use mathlib.Core.Bool.{Bool, true, false, ◌&&◌, ◌||◌}
use agentic_gpu_platform.Shared.Tests.{if◌then◌else◌, leb, ◌==◌}
pub use text.Mathlib.Text.{◌==◌ as str_eq}
pub use text.Mathlib.TextEquality.{eq_iff as str_eq_iff}

-- The characters for which `str.isspace` holds.
unfoldable pub is_space : ℕ → Bool
is_space c =
    leb 9 c && leb c 13
    || leb 28 c && leb c 32
    || c == 133
    || c == 160
    || c == 5760
    || leb 8192 c && leb c 8202
    || c == 8232
    || c == 8233
    || c == 8239
    || c == 8287
    || c == 12288

unfoldable pub is_empty_text : String → Bool
is_empty_text String.[] = true
is_empty_text (String.◌∷◌ c s) = false

unfoldable pub strip_left : String → String
unfolding is_space
strip_left String.[] = ""
strip_left (String.◌∷◌ c s) =
    let rest = strip_left s in if is_space (code c) then rest else String.◌∷◌ c s

unfoldable pub strip_right : String → String
unfolding is_space is_empty_text
strip_right String.[] = ""
strip_right (String.◌∷◌ c s) =
    let rest = strip_right s in
    if is_space (code c) && is_empty_text rest then "" else String.◌∷◌ c rest

-- `text.strip()`
unfoldable pub strip : String → String
unfolding strip_left strip_right
strip s = strip_left (strip_right s)

-- `not text.strip()`
unfoldable pub is_blank : String → Bool
unfolding strip is_empty_text
is_blank s = is_empty_text (strip s)

-- `text.startswith(prefix)`
unfoldable pub starts_with : String → (prefix : String) → Bool
starts_with s String.[] = true
starts_with String.[] (String.◌∷◌ c prefix) = false
starts_with (String.◌∷◌ d s) (String.◌∷◌ c prefix) = code d == code c && starts_with s prefix
