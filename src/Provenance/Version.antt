-- ===== src/Provenance/Version.antt =====
-- A full match of `=[0-9]+\.[0-9]+\.[0-9]+(?:[-+][0-9A-Za-z.-]+)?`, as a deterministic automaton.
use Prim.Native.Char.{Char, code}
use oxide_batch_workloads.Base.{
  ℕ, String, Bool, true, false, ◌&&◌, ◌||◌, Option, none, some, leb, nat_eq, if◌then◌else◌,
}

-- What has been read: nothing, "=", a number in part after which a dot or a suffix may come, the
-- dot itself, or the suffix.
pub data Reading : Type 0 where
  start before_major major before_minor minor before_patch patch before_suffix suffix : Reading

abbrev is_digit : Char → Bool
is_digit c = let n = code c in leb 48 n && leb n 57

abbrev is_suffix_char : Char → Bool
is_suffix_char c =
    let n = code c in
    is_digit c
    || ((leb 65 n && leb n 90) || ((leb 97 n && leb n 122) || (nat_eq n b'.' || nat_eq n b'-')))

abbrev on_digit : Reading → Char → Option Reading
on_digit r c = if is_digit c then some r else none

abbrev number_then : Reading → Reading → ℕ → Char → Option Reading
number_then here after separator c =
    if is_digit c then some here else if nat_eq (code c) separator then some after else none

abbrev read : Reading → Char → Option Reading
read start c = if nat_eq (code c) b'=' then some before_major else none
read before_major c = on_digit major c
read major c = number_then major before_minor b'.' c
read before_minor c = on_digit minor c
read minor c = number_then minor before_patch b'.' c
read before_patch c = on_digit patch c
read patch c =
    if is_digit c
    then some patch
    else if nat_eq (code c) b'-' || nat_eq (code c) b'+'
    then some before_suffix
    else none
read before_suffix c = if is_suffix_char c then some suffix else none
read suffix c = if is_suffix_char c then some suffix else none

abbrev accepts : Reading → Bool
accepts patch = true
accepts suffix = true
accepts r = false

unfoldable pub matches : Reading → String → Bool
matches r String.[] = accepts r
matches r (String.◌∷◌ c s) = elim (read r c) [ none ↦ false | some next ↦ matches next s ]

unfoldable pub is_exact_version : String → Bool
unfolding matches
is_exact_version s = matches start s
