-- ===== src/Base/Utf8.antt =====
-- Rust strings as lists of Unicode scalar values.
use Prim.Native.Nat.{ℕ, ◌+◌}
use mathlib.Core.Bool.{Bool, ◌&&◌, ◌||◌}
use mathlib.Core.List.{List, [], ◌∷◌}
use roammand.Base.Tests.{ltb, leb, if◌then◌else◌}

abbrev pub Text : Type 0
Text = List ℕ

-- char::len_utf8
unfoldable pub len_utf8 : ℕ → ℕ
len_utf8 c = if ltb c 0x80 then 1 else if ltb c 0x800 then 2 else if ltb c 0x10000 then 3 else 4

-- str::len, the number of UTF-8 bytes
unfoldable pub text_len : Text → ℕ
unfolding len_utf8
text_len [] = 0
text_len (c ∷ s) = len_utf8 c + text_len s

-- char::is_control, the Unicode category Cc
unfoldable pub is_control : ℕ → Bool
is_control c = ltb c 0x20 || (leb 0x7f c && ltb c 0xa0)
