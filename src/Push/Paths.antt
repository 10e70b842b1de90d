-- ===== src/Push/Paths.antt =====
-- Paths as pathlib writes them, and the test of backend/app/services/vcs.py that a path lies below a root.
use Prim.Native.Char.{Char}
use Prim.Native.String.append
use Prim.Native.String.{◌++◌ as append_text}
use text.Mathlib.TextEquality.{starts_with_iff}
use ai_project.Prelude.{
  ◌≡◌, refl, sym, ap, ◌∙◌, ◌⊎◌, String, Bool, true, false, ◌&&◌, List, [], ◌∷◌, All, eq_iff,
  join_text, starts_with, str_eq, Bool-cases, inl, inr,
}

-- `str(path)`, of the parts of an absolute path
unfoldable pub path_text : List String → String
path_text [] = ""
path_text (part ∷ parts) = join_text "/" (join_text part (path_text parts))

-- The parts of a path strictly below the root begin with the parts of the root.
abbrev pub is_below : List String → List String → Bool
is_below [] [] = false
is_below [] (part ∷ parts) = true
is_below (r ∷ root) [] = false
is_below (r ∷ root) (part ∷ parts) = str_eq r part && is_below root parts

abbrev is_slash : Char → Bool
is_slash c = str_eq (String.◌∷◌ c String.[]) "/"

-- No part of a path has a slash in it.
abbrev pub IsPart : String → Type 0
IsPart String.[] = Unit
IsPart (String.◌∷◌ c s) = (is_slash c ≡ false) × IsPart s

join-append : (s t : String) → join_text s t ≡ append_text s t
join-append String.[] t = sym (append.nil t)
join-append (String.◌∷◌ c s) t =
    ap (λ v. String.◌∷◌ c v) (join-append s t) ∙ sym (append.cons c s t)

join_assoc : (s t u : String) → join_text (join_text s t) u ≡ join_text s (join_text t u)
join_assoc String.[] t u = refl
join_assoc (String.◌∷◌ c s) t u = ap (λ v. String.◌∷◌ c v) (join_assoc s t u)

-- The first character, and what is behind it.
abbrev first_is_slash : String → Bool
first_is_slash String.[] = false
first_is_slash (String.◌∷◌ c s) = is_slash c

abbrev behind_first : String → String
behind_first String.[] = String.[]
behind_first (String.◌∷◌ c s) = s

abbrev first_text : String → String
first_text String.[] = String.[]
first_text (String.◌∷◌ c s) = String.◌∷◌ c String.[]

-- A text that is empty or begins with a slash.
abbrev IsTail : String → Type 0
IsTail s = (s ≡ "") ⊎ (first_is_slash s ≡ true)

path_text-IsTail : (parts : List String) → IsTail (path_text parts)
unfolding path_text
path_text-IsTail [] = inl refl
path_text-IsTail (part ∷ parts) = inr refl

-- Before a slash, a part ends where the slash is.
part_cut :
    (r f a b : String)
    → IsPart r
    → IsPart f
    → first_is_slash a ≡ true
    → IsTail b
    → join_text r a ≡ join_text f b
    → (r ≡ f) × (a ≡ b)
part_cut String.[] String.[] a b hr hf ha hb e = (refl, e)
part_cut String.[] (String.◌∷◌ c f) a b hr hf ha hb e = absurd (cc (ap first_is_slash e, ha, hf.0))
part_cut (String.◌∷◌ c r) String.[] a b hr hf ha hb e = elim hb [
  | inl empty ↦
      absurd
        (let bad : first_text (String.◌∷◌ c (join_text r a)) ≡ "" = ap first_text (e ∙ empty) in cc)
  | inr slash ↦ absurd (cc (ap first_is_slash e, slash, hr.0))
]
part_cut (String.◌∷◌ c r) (String.◌∷◌ d f) a b hr hf ha hb e =
    let (same, rest) = part_cut r f a b hr.1 hf.1 ha hb (ap behind_first e) in
    let one : String.◌∷◌ c String.[] ≡ String.◌∷◌ d String.[] = ap first_text e in
    (ap (λ s. join_text s r) one ∙ ap (λ s. String.◌∷◌ d s) same, rest)

opened_is_slash :
    (root : List String) (u : String)
    → first_is_slash (join_text (join_text (path_text root) "/") u) ≡ true
unfolding path_text
opened_is_slash [] u = refl
opened_is_slash (r ∷ root) u = refl

-- The text of the path of a child of the root, up to the child's name.
move_part :
    (r : String) (root : List String) (u : String)
    → join_text (join_text (path_text (r ∷ root)) "/") u
      ≡ join_text "/" (join_text r (join_text (join_text (path_text root) "/") u))
unfolding path_text
move_part r root u =
    ap (λ s. join_text "/" s)
      (ap (λ s. join_text s u) (join_assoc r (path_text root) "/")
        ∙ join_assoc r (join_text (path_text root) "/") u)

opened-is_below :
    (root parts : List String) (u : String)
    → All IsPart root
    → All IsPart parts
    → join_text (join_text (path_text root) "/") u ≡ path_text parts
    → is_below root parts ≡ true
unfolding path_text
opened-is_below [] [] u hr hp e = absurd (cc)
opened-is_below [] (part ∷ parts) u hr hp e = refl
opened-is_below (r ∷ root) [] u hr hp e = absurd (cc)
opened-is_below (r ∷ root) (part ∷ parts) u hr hp e =
    let tail : join_text r (join_text (join_text (path_text root) "/") u)
        ≡ join_text part (path_text parts) =
      ap behind_first (sym (move_part r root u) ∙ e) in
    let (same, rest) =
      part_cut r part (join_text (join_text (path_text root) "/") u) (path_text parts) hr.0 hp.0
        (opened_is_slash root u) (path_text-IsTail parts) tail in
    rw ((eq_iff r part).1 same, opened-is_below root parts u hr.1 hp.1 rest) refl

is_below-opened :
    (root parts : List String)
    → is_below root parts ≡ true
    → (u : String) × (join_text (join_text (path_text root) "/") u ≡ path_text parts)
unfolding path_text
is_below-opened [] [] h = absurd (cc)
is_below-opened [] (part ∷ parts) h = (join_text part (path_text parts), refl)
is_below-opened (r ∷ root) [] h = absurd (cc)
is_below-opened (r ∷ root) (part ∷ parts) h = elim (Bool-cases (str_eq r part)) [
  | inr other ↦ absurd (let bad : false ≡ true = rw other at h in cc)
  | inl same ↦
      let (u, e) = is_below-opened root parts (rw same at h) in
      (
        u,
        move_part r root u
            ∙ ap (λ s. join_text "/" (join_text r s)) e
            ∙ ap (λ s. join_text "/" (join_text s (path_text parts))) ((eq_iff r part).0 same),
      )
]

-- The test on the texts of two paths, with a slash behind the root, is the test on their parts.
pub starts_with-is_below :
    (root parts : List String)
    → All IsPart root
    → All IsPart parts
    → starts_with (path_text parts) (join_text (path_text root) "/") ≡ is_below root parts
starts_with-is_below root parts hr hp =
    let front = join_text (path_text root) "/" in
    elim (Bool-cases (is_below root parts)) [
      | inl below ↦
          let (u, e) = is_below-opened root parts below in
          (starts_with_iff (path_text parts) front).1 (u, sym (join-append front u) ∙ e) ∙ sym below
      | inr outside ↦ elim (Bool-cases (starts_with (path_text parts) front)) [
        | inr no_start ↦ no_start ∙ sym outside
        | inl start ↦
            let (u, e) = (starts_with_iff (path_text parts) front).0 start in
            absurd (cc (outside, opened-is_below root parts u hr hp (join-append front u ∙ e)))
      ]
    ]
