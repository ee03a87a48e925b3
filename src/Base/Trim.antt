-- ===== src/Base/Trim.antt =====
-- The `strings` package, as far as the code uses it.
use Prim.Native.Char.{code}
use Prim.Native.Nat.{ℕ}
use rlaas.Base.{
  String, Bool, List, [], ◌∷◌, Option, none, some, ◌&&◌, ◌||◌, ◌==◌, ◌<>◌, ◌=ℕ◌, leb, if◌then◌else◌,
  ◌≡◌, refl,
}

-- `unicode.IsSpace`.
unfoldable pub is_space : ℕ → Bool
is_space c =
    (leb 9 c && leb c 13)
    || (c =ℕ 32)
    || (c =ℕ 0x85)
    || (c =ℕ 0xa0)
    || (c =ℕ 0x1680)
    || (leb 0x2000 c && leb c 0x200a)
    || (c =ℕ 0x2028)
    || (c =ℕ 0x2029)
    || (c =ℕ 0x202f)
    || (c =ℕ 0x205f)
    || (c =ℕ 0x3000)

trim_left : (ℕ → Bool) → String → String
trim_left p String.[] = ""
trim_left p (String.◌∷◌ c s) =
    let rest = trim_left p s in if p (code c) then rest else String.◌∷◌ c s

trim_right : (ℕ → Bool) → String → String
trim_right p String.[] = ""
trim_right p (String.◌∷◌ c s) =
    let rest = trim_right p s in if (rest == "") && p (code c) then "" else String.◌∷◌ c rest

-- `strings.TrimFunc`.
unfoldable pub trim : (ℕ → Bool) → String → String
unfolding trim_left trim_right
trim p s = trim_right p (trim_left p s)

-- `strings.TrimSpace`.
unfoldable pub trim_space : String → String
unfolding trim is_space
trim_space s = trim is_space s

-- `strings.Trim(s, "\"'")`.
unfoldable pub trim_quotes : String → String
unfolding trim
trim_quotes s = trim (λ c. (c =ℕ b'"') || (c =ℕ 39)) s

add_to_first : String → List String → List String
add_to_first c [] = c ∷ []
add_to_first c (part ∷ parts) = (c <> part) ∷ parts

-- `strings.Split(s, "&&")`.
unfoldable pub split_and : String → List String
unfolding add_to_first
split_and String.[] = "" ∷ []
split_and (String.◌∷◌ c String.[]) = String.◌∷◌ c "" ∷ []
split_and (String.◌∷◌ c (String.◌∷◌ d s)) =
    let here = "" ∷ split_and s in
    let later = add_to_first (String.◌∷◌ c "") (split_and (String.◌∷◌ d s)) in
    if (code c =ℕ b'&') && (code d =ℕ b'&') then here else later

in_front : String → Option (String × String) → Option (String × String)
in_front c none = none
in_front c (some (a, b)) = some (c <> a, b)

-- `strings.SplitN(s, sep, 2)` for a separator of two characters: `none` if it does not occur.
unfoldable pub split_once : ℕ → ℕ → String → Option (String × String)
unfolding in_front
split_once x y String.[] = none
split_once x y (String.◌∷◌ c String.[]) = none
split_once x y (String.◌∷◌ c (String.◌∷◌ d s)) =
    let later = in_front (String.◌∷◌ c "") (split_once x y (String.◌∷◌ d s)) in
    if (code c =ℕ x) && (code d =ℕ y) then some ("", s) else later

-- `strings.Split` at a separator of one character.
unfoldable pub split_at : ℕ → String → List String
unfolding add_to_first
split_at x String.[] = "" ∷ []
split_at x (String.◌∷◌ c s) =
    let rest = split_at x s in
    if code c =ℕ x then "" ∷ rest else add_to_first (String.◌∷◌ c "") rest

-- The text before the first occurrence of a character and the text behind it.
unfoldable pub cut_at : ℕ → String → Option (String × String)
unfolding in_front
cut_at x String.[] = none
cut_at x (String.◌∷◌ c s) =
    let later = in_front (String.◌∷◌ c "") (cut_at x s) in
    if code c =ℕ x then some ("", s) else later

-- `strings.TrimPrefix` where `strings.HasPrefix` holds, `none` where it does not.
unfoldable pub after_prefix : List ℕ → String → Option String
after_prefix [] s = some s
after_prefix (x ∷ xs) String.[] = none
after_prefix (x ∷ xs) (String.◌∷◌ c s) =
    let rest = after_prefix xs s in if code c =ℕ x then rest else none

-- `strings.TrimSuffix` where `strings.HasSuffix` holds, `none` where it does not.
unfoldable pub before_suffix : String → String → Option String
before_suffix suffix String.[] = if suffix == "" then some "" else none
before_suffix suffix (String.◌∷◌ c s) =
    let shorter = before_suffix suffix s in
    if String.◌∷◌ c s == suffix
    then some ""
    else elim shorter [ none ↦ none | some front ↦ some (String.◌∷◌ c front) ]

-- `strings.ReplaceAll` of one character by a text.
unfoldable pub replace_all : ℕ → String → String → String
replace_all x new String.[] = ""
replace_all x new (String.◌∷◌ c s) =
    let rest = replace_all x new s in if code c =ℕ x then new <> rest else String.◌∷◌ c rest

split_sample : split_and "a==b&& c!=d" ≡ "a==b" ∷ " c!=d" ∷ []
unfolding split_and
split_sample = refl

trim_sample : trim_space "  x y\t" ≡ "x y"
unfolding trim_space
trim_sample = refl

once_sample : split_once b'=' b'=' "a==b==c" ≡ some ("a", "b==c")
unfolding split_once
once_sample = refl
