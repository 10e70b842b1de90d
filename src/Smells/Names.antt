-- ===== src/Smells/Names.antt =====
-- Qualified names: `name.rsplit(".", 1)`, `name.split(".")[-1]`, and a set of texts as a list.
use ai_project.Prelude.{
  Bool, true, false, Option, none, some, List, ◌∷◌, one_of, str_eq, if◌then◌else◌,
}
use Prim.Native.Char.{Char}
use Prim.Native.String.{String}

unfoldable pub is_dot : Char → Bool
is_dot c = str_eq (String.◌∷◌ c String.[]) "."

-- `s.rsplit(".", 1)[0]` where the text has a dot
unfoldable pub rsplit_dot : String → Option String
unfolding is_dot
rsplit_dot String.[] = none
rsplit_dot (String.◌∷◌ c s) = elim (rsplit_dot s) [
  | some parent ↦ some (String.◌∷◌ c parent)
  | none ↦ if is_dot c then some "" else none
]

unfoldable pub has_dot : String → Bool
unfolding is_dot
has_dot String.[] = false
has_dot (String.◌∷◌ c s) = let later = has_dot s in if is_dot c then true else later

-- `s.split(".")[-1]`
unfoldable pub last_part : String → String
unfolding is_dot has_dot
last_part String.[] = ""
last_part (String.◌∷◌ c s) =
    let rest = last_part s in if has_dot s then rest else if is_dot c then s else String.◌∷◌ c s

abbrev pub insert_new : String → List String → List String
insert_new s names = if one_of s names then names else s ∷ names
