-- ===== src/Base/Text.antt =====
-- Texts: the string methods that the source uses, by code points.
use Prim.Native.Nat.{ℕ, ◌+◌, ◌-◌}
use Prim.Native.Char.{Char, code}
use Prim.Native.String
use Prim.Native.String.{String}
use mathlib.Core.Bool.{Bool, false, ◌&&◌, ◌||◌}
use mathlib.Core.List.{List, [], ◌∷◌}
use gist_agent.Base.Tests.{leb, ◌==◌, str_eq, if◌then◌else◌}

abbrev pub cons : Char → String → String
cons c s = String.◌∷◌ c s

abbrev pub concat : String → String → String
concat s t = String.◌++◌ s t

-- White space and line terminators of ECMAScript.
unfoldable pub is_space : ℕ → Bool
is_space c =
    (leb 9 c && leb c 13)
    || c == 32
    || c == 160
    || c == 5760
    || (leb 8192 c && leb c 8202)
    || c == 8232
    || c == 8233
    || c == 8239
    || c == 8287
    || c == 12288
    || c == 65279

unfoldable pub trim_start : String → String
unfolding is_space
trim_start String.[] = ""
trim_start (String.◌∷◌ c s) = if is_space (code c) then trim_start s else cons c s

unfoldable pub trim_end : String → String
unfolding is_space
trim_end String.[] = ""
trim_end (String.◌∷◌ c s) =
    let rest = trim_end s in if is_space (code c) && str_eq rest "" then "" else cons c rest

-- `text.trim()`.
unfoldable pub trim : String → String
unfolding trim_start trim_end
trim s = trim_end (trim_start s)

-- `text.length`, in units of UTF-16.
unfoldable pub units : String → ℕ
units String.[] = 0
units (String.◌∷◌ c s) = (if leb 65536 (code c) then 2 else 1) + units s

-- `.replace(/\s+/g, ' ')`: a run of white space becomes one space.
abbrev starts_with_space : String → Bool
starts_with_space String.[] = false
starts_with_space (String.◌∷◌ c s) = is_space (code c)

unfoldable pub squeeze : String → String
unfolding is_space
squeeze String.[] = ""
squeeze (String.◌∷◌ c s) =
    let rest = squeeze s in
    if is_space (code c)
    then (if starts_with_space s then rest else concat " " rest)
    else cons c rest

-- `text.slice(0, n)`, in units of UTF-16; a character that the cut would halve is left out, since no text
-- of characters has half of one.
abbrev width : Char → ℕ
width c = if leb 65536 (code c) then 2 else 1

unfoldable pub prefix_of : ℕ → String → String
prefix_of n String.[] = ""
prefix_of n (String.◌∷◌ c s) =
    let rest = prefix_of (n - width c) s in if leb (width c) n then cons c rest else ""

-- `parts.join(separator)`.
unfoldable pub join : String → List String → String
join separator [] = ""
join separator (s ∷ []) = s
join separator (s ∷ t ∷ rest) = concat s (concat separator (join separator (t ∷ rest)))
