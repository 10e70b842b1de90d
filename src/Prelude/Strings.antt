-- ===== src/Prelude/Strings.antt =====
-- More of Python's text methods: `strip`, `splitlines`, `split`, `count`, and pathlib's `suffix`.
use ai_project.Prelude.Tests.{◌==◌, leb, str_eq, if◌then◌else◌}
use Prim.Native.Nat.{ℕ, suc}
use Prim.Native.Char.{Char, code}
use Prim.Native.String.{String}
use mathlib.Core.Bool.{Bool, false, ◌&&◌, ◌||◌}
use mathlib.Core.List.{List, [], ◌∷◌}

-- the line boundaries of `splitlines`
abbrev is_line_break : Char → Bool
is_line_break c =
    let n = code c in
    (leb 10 n && leb n 13) || (leb 28 n && leb n 30) || n == 133 || n == 8232 || n == 8233

-- `c.isspace()`
abbrev is_space : Char → Bool
is_space c =
    let n = code c in
    (leb 9 n && leb n 13)
    || (leb 28 n && leb n 32)
    || n == 133
    || n == 160
    || n == 5760
    || (leb 8192 n && leb n 8202)
    || n == 8232
    || n == 8233
    || n == 8239
    || n == 8287
    || n == 12288

unfoldable left_strip : String → String
left_strip String.[] = String.[]
left_strip (String.◌∷◌ c s) = if is_space c then left_strip s else String.◌∷◌ c s

unfoldable right_strip : String → String
right_strip String.[] = String.[]
right_strip (String.◌∷◌ c s) =
    let rest = right_strip s in
    if str_eq rest "" && is_space c then String.[] else String.◌∷◌ c rest

-- `s.strip()`
unfoldable pub strip : String → String
unfolding left_strip right_strip
strip s = right_strip (left_strip s)

-- A character in front of the first text.
abbrev onto_first : Char → List String → List String
onto_first c [] = String.◌∷◌ c String.[] ∷ []
onto_first c (s ∷ texts) = String.◌∷◌ c s ∷ texts

abbrev starts_with_newline : String → Bool
starts_with_newline String.[] = false
starts_with_newline (String.◌∷◌ c s) = code c == 10

-- `s.splitlines()`; a carriage return and the newline behind it are one boundary
unfoldable pub split_lines : String → List String
split_lines String.[] = []
split_lines (String.◌∷◌ c s) =
    let rest = split_lines s in
    if code c == 13 && starts_with_newline s
    then rest
    else if is_line_break c
    then "" ∷ rest
    else onto_first c rest

-- `s.count(t)`, of one character
unfoldable pub count_char : String → String → ℕ
count_char String.[] t = 0
count_char (String.◌∷◌ c s) t =
    let n = count_char s t in if str_eq (String.◌∷◌ c String.[]) t then suc n else n

-- `s.split(t)`, at one character
unfoldable pub split_at : String → String → List String
split_at String.[] t = "" ∷ []
split_at (String.◌∷◌ c s) t =
    let rest = split_at s t in
    if str_eq (String.◌∷◌ c String.[]) t then "" ∷ rest else onto_first c rest
