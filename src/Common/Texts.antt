-- ===== src/Common/Texts.antt =====
-- What the program uses of the language's texts: the lower case, suffixes, parts.
use Prim.Native.Nat.{ℕ, ◌-◌}
use Prim.Native.Char.{Char, code}
use Prim.Native.String.{String, char_at}
use mathlib.Core.Bool.{Bool, not, ◌&&◌, ◌||◌}
use mathlib.Core.Option.{Option, none, some}
use mathlib.Core.List.{List, [], ◌∷◌}
use minikura.Common.Tests.{◌==◌, leb, if◌then◌else◌}

-- The Latin capitals are lowered, which decides an equality with a text of Latin small letters
-- other than `k`, and such a suffix.
abbrev lower_char : Char → Char
lower_char c =
    if leb b'A' (code c) && leb (code c) b'Z'
    then char_at "abcdefghijklmnopqrstuvwxyz" (code c - b'A')
    else c

unfoldable pub lower : String → String
lower String.[] = ""
lower (String.◌∷◌ c s) = String.◌∷◌ (lower_char c) (lower s)

unfoldable pub ends_with : String → String → Bool
ends_with suffix String.[] = suffix == ""
ends_with suffix (String.◌∷◌ c s) = suffix == String.◌∷◌ c s || ends_with suffix s

abbrev starts : Char → List String → List String
starts c [] = String.◌∷◌ c "" ∷ []
starts c (part ∷ parts) = String.◌∷◌ c part ∷ parts

-- `s.split(separator)` for one character.
unfoldable pub split : ℕ → String → List String
split separator String.[] = "" ∷ []
split separator (String.◌∷◌ c s) =
    let parts = split separator s in
    if leb (code c) separator && leb separator (code c) then "" ∷ parts else starts c parts

-- `const [first, second] = s.split(separator, 2)`, where both are there and neither is empty.
abbrev pub two_parts : List String → Option (String × String)
two_parts (first ∷ second ∷ _) =
    if not (first == "") && not (second == "") then some (first, second) else none
two_parts _ = none

-- `value || fallback`
abbrev pub or_text : String → String → String
or_text s fallback = if s == "" then fallback else s

abbrev pub filled : Option String → Option String
filled none = none
filled (some s) = if s == "" then none else some s

abbrev pub is_code : ℕ → ℕ → Bool
is_code a b = leb a b && leb b a

-- The white space that `parseInt` skips and `trim` takes off.
unfoldable pub is_space : ℕ → Bool
is_space c =
    (leb 9 c && leb c 13)
    || is_code c 32
    || is_code c 160
    || is_code c 5760
    || (leb 8192 c && leb c 8202)
    || (leb 8232 c && leb c 8233)
    || is_code c 8239
    || is_code c 8287
    || is_code c 12288
    || is_code c 65279

abbrev trim_start : String → String
unfolding is_space
trim_start String.[] = ""
trim_start (String.◌∷◌ c s) =
    let rest = trim_start s in if is_space (code c) then rest else String.◌∷◌ c s

abbrev unless_blank : Char → String → String
unfolding is_space
unless_blank c rest = if rest == "" && is_space (code c) then "" else String.◌∷◌ c rest

trim_end : String → String
unfolding unless_blank
trim_end String.[] = ""
trim_end (String.◌∷◌ c s) = unless_blank c (trim_end s)

-- `s.trim()`
unfoldable pub trim : String → String
unfolding trim_start trim_end
trim s = trim_end (trim_start s)
