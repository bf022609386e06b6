-- ===== src/Base/Text.antt =====
-- Python's tests on texts: characters, `strip`, `in`, `endswith`.
use Prim.Native.Nat.{ℕ, zero, suc}
use Prim.Native.Char.{Char, code}
use Prim.Native.String.{String, ◌++◌ as ◌<>◌}
use mathlib.Core.Bool.{Bool, true, false, ◌&&◌, ◌||◌}
use mathlib.Core.List.{List, [], ◌∷◌}
use text.Mathlib.Text.{◌==◌, starts_with}
use oxide_batch_workloads.Base.Tests.{leb, nat_eq, if◌then◌else◌}
use oxide_batch_workloads.Base.Lists.{any}

-- The characters that `str.strip` removes.
abbrev pub is_space : Char → Bool
is_space c =
    let n = code c in
    (leb 9 n && leb n 13)
    || ((leb 28 n && leb n 32)
        || (nat_eq n 133
            || (nat_eq n 160
                || (nat_eq n 5760
                    || ((leb 8192 n && leb n 8202)
                        || (nat_eq n 8232
                            || (nat_eq n 8233
                                || (nat_eq n 8239 || (nat_eq n 8287 || nat_eq n 12288)))))))))

-- `not s.strip()`
unfoldable pub is_blank : String → Bool
is_blank String.[] = true
is_blank (String.◌∷◌ c s) = is_space c && is_blank s

-- `s` without the spaces at its front; `s.lstrip()`.
unfoldable pub lstrip : String → String
lstrip String.[] = String.[]
lstrip (String.◌∷◌ c s) = let rest = lstrip s in if is_space c then rest else String.◌∷◌ c s

-- `s.rstrip()`
unfoldable pub rstrip : String → String
unfolding is_blank
rstrip String.[] = String.[]
rstrip (String.◌∷◌ c s) =
    let rest = String.◌∷◌ c (rstrip s) in if is_blank (String.◌∷◌ c s) then String.[] else rest

-- `s.strip()`
unfoldable pub strip : String → String
unfolding lstrip rstrip
strip s = lstrip (rstrip s)

-- `chr(n) in s`, for one character.
unfoldable pub has_char : ℕ → String → Bool
has_char n String.[] = false
has_char n (String.◌∷◌ c s) = nat_eq (code c) n || has_char n s

-- `t in s`
unfoldable pub has_text : String → String → Bool
has_text t String.[] = starts_with String.[] t
has_text t (String.◌∷◌ c s) = starts_with (String.◌∷◌ c s) t || has_text t s

-- `s.endswith(t)`
unfoldable pub ends_with : String → String → Bool
ends_with String.[] t = String.[] == t
ends_with (String.◌∷◌ c s) t = String.◌∷◌ c s == t || ends_with s t

-- `s` without the characters of its front that are `chr(n)`; `s.lstrip(chr(n))`.
unfoldable pub lstrip_char : ℕ → String → String
lstrip_char n String.[] = String.[]
lstrip_char n (String.◌∷◌ c s) =
    let rest = lstrip_char n s in if nat_eq (code c) n then rest else String.◌∷◌ c s

-- `s.startswith` of some text of a tuple.
abbrev pub starts_with_any : String → List String → Bool
starts_with_any s ts = any (λ t. starts_with s t) ts

abbrev pub ends_with_any : String → List String → Bool
ends_with_any s ts = any (λ t. ends_with s t) ts

-- A character in front of the first part of a list of parts.
abbrev push_front : Char → List String → List String
push_front c [] = String.◌∷◌ c String.[] ∷ []
push_front c (p ∷ ps) = String.◌∷◌ c p ∷ ps

-- `s.split(chr(n))`
unfoldable pub split_char : ℕ → String → List String
split_char n String.[] = String.[] ∷ []
split_char n (String.◌∷◌ c s) =
    let rest = split_char n s in if nat_eq (code c) n then String.[] ∷ rest else push_front c rest

-- `s[:-1]`
unfoldable pub drop_last : String → String
drop_last String.[] = String.[]
drop_last (String.◌∷◌ c String.[]) = String.[]
drop_last (String.◌∷◌ c (String.◌∷◌ d s)) = String.◌∷◌ c (drop_last (String.◌∷◌ d s))

abbrev is_lower_hex_char : Char → Bool
is_lower_hex_char c = let n = code c in (leb 48 n && leb n 57) || (leb 97 n && leb n 102)

-- A full match of `[0-9a-f]{n}`.
unfoldable pub is_lower_hex : ℕ → String → Bool
is_lower_hex n String.[] = nat_eq n 0
is_lower_hex zero (String.◌∷◌ c s) = false
is_lower_hex (suc n) (String.◌∷◌ c s) = is_lower_hex_char c && is_lower_hex n s

-- `s.rstrip(chr(n))`
unfoldable pub rstrip_char : ℕ → String → String
rstrip_char n String.[] = String.[]
rstrip_char n (String.◌∷◌ c s) =
    let rest = rstrip_char n s in
    if nat_eq (code c) n && rest == String.[] then String.[] else String.◌∷◌ c rest

abbrev is_hex_char : Char → Bool
is_hex_char c = let n = code c in is_lower_hex_char c || (leb 65 n && leb n 70)

unfoldable pub all_hex : ℕ → String → Bool
all_hex n String.[] = nat_eq n 0
all_hex zero (String.◌∷◌ c s) = false
all_hex (suc n) (String.◌∷◌ c s) = is_hex_char c && all_hex n s

-- A full match of `[0-9a-fA-F]{6}`.
unfoldable pub is_hex_color : String → Bool
unfolding all_hex
is_hex_color s = all_hex 6 s

-- `s.split(chr(n), 1)[0]`
unfoldable pub before_char : ℕ → String → String
before_char n String.[] = String.[]
before_char n (String.◌∷◌ c s) =
    let rest = String.◌∷◌ c (before_char n s) in if nat_eq (code c) n then String.[] else rest

-- `s[1:]`
abbrev pub drop_first : String → String
drop_first String.[] = String.[]
drop_first (String.◌∷◌ c s) = s

unfoldable pub all_chars : (Char → Bool) → String → Bool
all_chars p String.[] = true
all_chars p (String.◌∷◌ c s) = p c && all_chars p s

-- `s.replace(chr(n), t)`
unfoldable pub replace_char : ℕ → String → String → String
replace_char n t String.[] = String.[]
replace_char n t (String.◌∷◌ c s) =
    let rest = replace_char n t s in if nat_eq (code c) n then t <> rest else String.◌∷◌ c rest

-- `len(s)`
unfoldable pub text_length : String → ℕ
text_length String.[] = zero
text_length (String.◌∷◌ c s) = suc (text_length s)
