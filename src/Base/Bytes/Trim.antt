-- ===== src/Base/Bytes/Trim.antt =====
-- `strings.TrimSpace`, byte by byte. A white space rune takes one to three bytes of UTF-8.
use mathlib.Core.List.{reverse}
use knative_source.Base.{ℕ, zero, suc, ◌-◌, Bool, ◌&&◌, ◌||◌, [], ◌∷◌, leb}
use knative_source.Base.{if◌then◌else◌, Str, nat_eq, ◌==◌}

-- Tab, line feed, vertical tab, form feed, carriage return and the space.
abbrev is_space1 : ℕ → Bool
is_space1 a = leb 9 a && leb a 13 || a == 32

-- U+0085 and U+00A0
abbrev is_space2 : ℕ → ℕ → Bool
is_space2 a b = a == 0xC2 && (b == 0x85 || b == 0xA0)

-- U+1680, U+2000 to U+200A, U+2028, U+2029, U+202F, U+205F and U+3000
abbrev is_space3 : ℕ → ℕ → ℕ → Bool
is_space3 a b c =
    a == 0xE1 && b == 0x9A && c == 0x80
    || a == 0xE2 && b == 0x80 && (leb 0x80 c && leb c 0x8A || c == 0xA8 || c == 0xA9 || c == 0xAF)
    || a == 0xE2 && b == 0x81 && c == 0x9F
    || a == 0xE3 && b == 0x80 && c == 0x80

-- The bytes that a white space rune takes at the front of a text; 0 where none stands there.
first_space : Str → ℕ
first_space [] = 0
first_space (a ∷ []) = if is_space1 a then 1 else 0
first_space (a ∷ b ∷ []) = if is_space1 a then 1 else if is_space2 a b then 2 else 0
first_space (a ∷ b ∷ c ∷ s) =
    if is_space1 a then 1 else if is_space2 a b then 2 else if is_space3 a b c then 3 else 0

-- The same at the end of a text that is given backwards.
last_space : Str → ℕ
last_space [] = 0
last_space (a ∷ []) = if is_space1 a then 1 else 0
last_space (a ∷ b ∷ []) = if is_space1 a then 1 else if is_space2 b a then 2 else 0
last_space (a ∷ b ∷ c ∷ s) =
    if is_space1 a then 1 else if is_space2 b a then 2 else if is_space3 c b a then 3 else 0

-- Skips `k` bytes, and then every white space rune that follows.
skip_spaces : (Str → ℕ) → ℕ → Str → Str
skip_spaces width k [] = []
skip_spaces width (suc k) (c ∷ s) = skip_spaces width k s
skip_spaces width zero (c ∷ s) =
    let w = width (c ∷ s) in
    let rest = skip_spaces width (w - 1) s in if w == 0 then c ∷ s else rest

unfoldable pub trim_space : Str → Str
unfolding skip_spaces first_space last_space
trim_space s = reverse (skip_spaces last_space 0 (reverse (skip_spaces first_space 0 s)))
