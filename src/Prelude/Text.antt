-- ===== src/Prelude/Text.antt =====
-- Python's `str` methods that the program uses. `upper` and `lower` are those of ASCII texts: the
-- program applies them to type, status and language tags, file suffixes and names.
use ai_project.Prelude.Tests.{leb, str_eq, if◌then◌else◌}
use Prim.Native.Nat.{ℕ, zero, suc, ◌-◌}
use Prim.Native.String.append
use mathlib.Core.Path.{◌≡◌, ap, ◌∙◌}
use text.Mathlib.Text.{starts_with}
use text.Mathlib.TextPositions.{starts_with_of_prefix}
use text.Mathlib.TextBridge.{IsPrefix}
use Prim.Native.Char.{Char, code}
use Prim.Native.String.{String, char_at, len, slice}
use mathlib.Core.Bool.{Bool, true, false, ◌&&◌, ◌||◌}
use mathlib.Core.List.{List, [], ◌∷◌}
use mathlib.Core.Option.{none, some}
use text.Mathlib.Text.{find?}

upper_char : Char → Char
upper_char c =
    if leb 97 (code c) && leb (code c) 122
    then char_at "ABCDEFGHIJKLMNOPQRSTUVWXYZ" (code c - 97)
    else c

lower_char : Char → Char
lower_char c =
    if leb 65 (code c) && leb (code c) 90
    then char_at "abcdefghijklmnopqrstuvwxyz" (code c - 65)
    else c

unfoldable pub upper : String → String
unfolding upper_char
upper String.[] = String.[]
upper (String.◌∷◌ c s) = String.◌∷◌ (upper_char c) (upper s)

unfoldable pub lower : String → String
unfolding lower_char
lower String.[] = String.[]
lower (String.◌∷◌ c s) = String.◌∷◌ (lower_char c) (lower s)

-- `t in s`
abbrev pub contains : String → String → Bool
contains s t = elim (find? s t) [ none ↦ false | some _ ↦ true ]

-- `s.endswith(t)`
abbrev pub ends_with : String → String → Bool
ends_with s t = if leb (len t) (len s) then str_eq (slice s (len s - len t) (len s)) t else false

-- `s + t`
abbrev pub join_text : String → String → String
join_text String.[] t = t
join_text (String.◌∷◌ c s) t = String.◌∷◌ c (join_text s t)

-- `s in (t, …)`
abbrev pub one_of : String → List String → Bool
one_of s [] = false
one_of s (t ∷ ts) = str_eq s t || one_of s ts

-- `s or t`, on texts
abbrev pub or_else : String → String → String
or_else s t = if str_eq s "" then t else s

-- `s[:n]`
unfoldable pub first_chars : ℕ → String → String
first_chars zero s = String.[]
first_chars (suc n) String.[] = String.[]
first_chars (suc n) (String.◌∷◌ c s) = String.◌∷◌ c (first_chars n s)

first_chars-prefix : (n : ℕ) (s : String) → IsPrefix (first_chars n s) s
unfolding first_chars
first_chars-prefix zero s = (s, append.nil s)
first_chars-prefix (suc n) String.[] = (String.[], append.nil String.[])
first_chars-prefix (suc n) (String.◌∷◌ c s) =
    let (rest, e) = first_chars-prefix n s in
    (rest, append.cons c (first_chars n s) rest ∙ ap (λ v. String.◌∷◌ c v) e)

pub starts_with-first_chars : (n : ℕ) (s : String) → starts_with s (first_chars n s) ≡ true
starts_with-first_chars n s = starts_with_of_prefix (first_chars n s) s (first_chars-prefix n s)

-- `len(s)`, in characters
unfoldable pub char_count : String → ℕ
char_count String.[] = zero
char_count (String.◌∷◌ c s) = suc (char_count s)
