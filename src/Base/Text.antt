-- ===== src/Base/Text.antt =====
-- Python's str methods over native strings, by recursion on the characters.
pub mod Laws
use Prim.Native.Nat.{ℕ, zero, suc, ◌-◌}
use Prim.Native.Char.{Char, code}
use Prim.Native.String.{String, [], ◌∷◌}
use mathlib.Core.Bool.{Bool, true, false, ◌&&◌, ◌||◌}
use mathlib.Core.List.{List}
use text.Mathlib.Text.{◌==◌}
use bugbounty_agent.Base.Tests.{leb, eqb, if◌then◌else◌}

-- s + t
infixr 65 ◌<>◌
abbrev pub ◌<>◌ : String → String → String
[] <> t = t
(c ∷ s) <> t = c ∷ (s <> t)

-- len(s)
abbrev pub len : String → ℕ
len [] = 0
len (c ∷ s) = suc (len s)

abbrev pub is : ℕ → Char → Bool
is n c = eqb (code c) n

-- s.startswith(t)
unfoldable pub starts_with : String → String → Bool
starts_with s [] = true
starts_with [] (d ∷ t) = false
starts_with (c ∷ s) (d ∷ t) = eqb (code c) (code d) && starts_with s t

-- s.endswith(t)
unfoldable pub ends_with : String → String → Bool
ends_with [] t = [] == t
ends_with (c ∷ s) t = (c ∷ s) == t || ends_with s t

-- t in s
unfoldable pub has : String → String → Bool
unfolding starts_with
has [] t = starts_with [] t
has (c ∷ s) t = starts_with (c ∷ s) t || has s t

-- s[n:]
unfoldable pub drop : ℕ → String → String
drop zero s = s
drop (suc n) [] = []
drop (suc n) (c ∷ s) = drop n s

-- s[:n]
unfoldable pub take : ℕ → String → String
take zero s = []
take (suc n) [] = []
take (suc n) (c ∷ s) = c ∷ take n s

abbrev pub all_chars : (Char → Bool) → String → Bool
all_chars p [] = true
all_chars p (c ∷ s) = p c && all_chars p s

abbrev pub any_char : (Char → Bool) → String → Bool
any_char p [] = false
any_char p (c ∷ s) = p c || any_char p s

-- s.lstrip and s.rstrip of the characters that pass p
unfoldable pub lstrip : (Char → Bool) → String → String
lstrip p [] = []
lstrip p (c ∷ s) = let rest = lstrip p s in if p c then rest else c ∷ s

keep_end : (Char → Bool) → Char → String → String
keep_end p c [] = if p c then [] else c ∷ []
keep_end p c (d ∷ s) = c ∷ d ∷ s

unfoldable pub rstrip : (Char → Bool) → String → String
unfolding keep_end
rstrip p [] = []
rstrip p (c ∷ s) = keep_end p c (rstrip p s)

unfoldable pub strip : (Char → Bool) → String → String
unfolding lstrip rstrip
strip p s = lstrip p (rstrip p s)

-- s.partition(c): the text before the first match, and the text after it if there is one
unfoldable pub before : (Char → Bool) → String → String
before p [] = []
before p (c ∷ s) = let rest = before p s in if p c then [] else c ∷ rest

unfoldable pub after : (Char → Bool) → String → String
after p [] = []
after p (c ∷ s) = let rest = after p s in if p c then s else rest

-- s.partition(t)[0]
unfoldable pub before_text : String → String → String
unfolding starts_with
before_text t [] = []
before_text t (c ∷ s) = let rest = before_text t s in if starts_with (c ∷ s) t then [] else c ∷ rest

-- c in s, for a character
abbrev pub any_of : String → Char → Bool
any_of s c = any_char (λ d. is (code c) d) s

-- s.rpartition(c)[2]: the text after the last match, the whole text if there is none
unfoldable pub after_last : (Char → Bool) → String → String
after_last p [] = []
after_last p (c ∷ s) =
    let rest = after_last p s in if any_char p s then rest else (if p c then s else c ∷ s)

-- puts a character before the first part
abbrev cons_head : Char → List String → List String
cons_head c List.[] = List.◌∷◌ (c ∷ []) List.[]
cons_head c (List.◌∷◌ s l) = List.◌∷◌ (c ∷ s) l

-- s.split(c)
unfoldable pub split : (Char → Bool) → String → List String
split p [] = List.◌∷◌ [] List.[]
split p (c ∷ s) = let rest = split p s in if p c then List.◌∷◌ [] rest else cons_head c rest

-- d.join(l)
unfoldable pub join : String → List String → String
join d List.[] = []
join d (List.◌∷◌ s List.[]) = s
join d (List.◌∷◌ s (List.◌∷◌ t l)) = s <> d <> join d (List.◌∷◌ t l)

-- where str.splitlines breaks a text, a carriage return before a newline aside
abbrev pub is_break : Char → Bool
is_break c =
    (leb 10 (code c) && leb (code c) 13)
    || (leb 28 (code c) && leb (code c) 30)
    || is 133 c
    || is 8232 c
    || is 8233 c

-- s.splitlines()
unfoldable pub splitlines : String → List String
unfolding starts_with
splitlines [] = List.[]
splitlines (c ∷ s) =
    let rest = splitlines s in
    if is 13 c && starts_with s "\n"
    then rest
    else if is_break c
    then List.◌∷◌ [] rest
    else cons_head c rest

-- s[n], where it is there
nth : String → ℕ → Char → Char
nth [] n d = d
nth (c ∷ s) zero d = c
nth (c ∷ s) (suc n) d = nth s n d

-- c.lower(), for an ASCII character
unfoldable pub lower_char : Char → Char
unfolding nth
lower_char c =
    if leb b'A' (code c) && leb (code c) b'Z'
    then nth "abcdefghijklmnopqrstuvwxyz" (code c - 65) c
    else c

-- s <= t, by code points
unfoldable pub le : String → String → Bool
le [] t = true
le (c ∷ s) [] = false
le (c ∷ s) (d ∷ t) = if eqb (code c) (code d) then le s t else leb (code c) (code d)
