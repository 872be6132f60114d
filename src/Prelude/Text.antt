-- ===== src/Prelude/Text.antt =====
-- What the program takes from Go's `strings` and `fmt`: trimming and decimal numbers.
use Prim.Native.Nat.{ℕ, zero, suc, ◌+◌, ◌-◌, ◌/◌, ◌%◌}
use Prim.Native.Char.{Char, code}
use Prim.Native.String.{String, ◌++◌, count}
use Prim.Native.String.append
use mathlib.Core.Path.{◌≡◌, refl, sym, ap, ◌∙◌}
use mathlib.Core.Logic.{inl, inr}
use native.Mathlib.Omega.{arith}
use mathlib.Core.Bool.{Bool, true, false, ◌&&◌, ◌||◌}
use mathlib.Core.List.{List, [], ◌∷◌}
use mathlib.Core.Option
use mathlib.Core.Option.{Option, none, some}
use text.Mathlib.Text.{◌==◌, starts_with}
use text.Mathlib.TextEquality.{eq_iff}
use text.Mathlib.TextPositions.{eq_refl}
use sde_thp.Prelude.Tests.{ltb, leb, nat_eq, Bool-cases, if◌then◌else◌}

-- `unicode.IsSpace`.
is_space : ℕ → Bool
is_space c =
    (leb 9 c && leb c 13)
    || nat_eq c 32
    || nat_eq c 0x85
    || nat_eq c 0xa0
    || nat_eq c 0x1680
    || (leb 0x2000 c && leb c 0x200a)
    || nat_eq c 0x2028
    || nat_eq c 0x2029
    || nat_eq c 0x202f
    || nat_eq c 0x205f
    || nat_eq c 0x3000

trim_left : String → String
trim_left String.[] = String.[]
trim_left (String.◌∷◌ c s) =
    let rest = trim_left s in if is_space (code c) then rest else String.◌∷◌ c s

trim_right : String → String
trim_right String.[] = String.[]
trim_right (String.◌∷◌ c s) =
    let rest = trim_right s in if is_space (code c) && rest == "" then "" else String.◌∷◌ c rest

unfoldable pub has_space : String → Bool
unfolding is_space
has_space String.[] = false
has_space (String.◌∷◌ c s) = is_space (code c) || has_space s

-- `strings.TrimSpace`.
unfoldable pub trim_space : String → String
unfolding is_space trim_left trim_right
trim_space s = trim_right (trim_left s)

trim_left-plain : (s : String) → has_space s ≡ false → trim_left s ≡ s
unfolding has_space trim_left
trim_left-plain String.[] h = refl
trim_left-plain (String.◌∷◌ c s) h = elim (Bool-cases (is_space (code c))) [
  | inl e ↦ ground arith
  | inr e ↦ rw e refl
]

trim_right-plain : (s : String) → has_space s ≡ false → trim_right s ≡ s
unfolding has_space trim_right
trim_right-plain String.[] h = refl
trim_right-plain (String.◌∷◌ c s) h = elim (Bool-cases (is_space (code c))) [
  | inl e ↦ ground arith
  | inr e ↦ rw e (ap (String.◌∷◌ c) (trim_right-plain s (ground arith)))
]

pub trim_space-plain : (s : String) → has_space s ≡ false → trim_space s ≡ s
unfolding trim_space
trim_space-plain s h = ap trim_right (trim_left-plain s h) ∙ trim_right-plain s h

digit : ℕ → String
digit zero = "0"
digit (suc zero) = "1"
digit (suc (suc zero)) = "2"
digit (suc (suc (suc zero))) = "3"
digit (suc (suc (suc (suc zero)))) = "4"
digit (suc (suc (suc (suc (suc zero))))) = "5"
digit (suc (suc (suc (suc (suc (suc zero)))))) = "6"
digit (suc (suc (suc (suc (suc (suc (suc zero))))))) = "7"
digit (suc (suc (suc (suc (suc (suc (suc (suc zero)))))))) = "8"
digit _ = "9"

-- A number has no more digits than its successor, which is the fuel.
decimal_from : ℕ → ℕ → String
decimal_from zero n = ""
decimal_from (suc fuel) n =
    let rest = decimal_from fuel (n / 10) in if ltb n 10 then digit n else rest ++ digit (n % 10)

-- `%d`.
unfoldable pub decimal : ℕ → String
unfolding digit decimal_from
decimal n = decimal_from (suc n) n

-- `len` of a Go string counts the bytes of its UTF-8 encoding.
bytes_of : ℕ → ℕ
bytes_of c = if ltb c 0x80 then 1 else if ltb c 0x800 then 2 else if ltb c 0x10000 then 3 else 4

unfoldable pub byte_length : String → ℕ
unfolding bytes_of
byte_length String.[] = 0
byte_length (String.◌∷◌ c s) = bytes_of (code c) + byte_length s

pub eq_flip : (s t : String) → s == t ≡ true → t == s ≡ true
eq_flip s t e = rw ((eq_iff s t).0 e) (eq_refl t)

-- The Go slice `s[:n]` of the bytes of a text, or the whole of it where it is not longer; `none`
-- where the slice ends within a letter.
unfoldable pub first_bytes : ℕ → String → Option String
unfolding bytes_of
first_bytes n String.[] = some ""
first_bytes n (String.◌∷◌ c s) =
    let rest = first_bytes (n - bytes_of (code c)) s in
    if nat_eq n 0
    then some ""
    else if leb (bytes_of (code c)) n
    then Option.map (String.◌∷◌ c) rest
    else none

-- A letter of ASCII in lower case.
unfoldable pub fold : ℕ → ℕ
fold c = if leb 65 c && leb c 90 then c + 32 else c

-- `strings.HasPrefix(strings.ToLower(s), prefix)`, for a text of ASCII and a lower-case prefix.
unfoldable pub has_prefix_fold : (prefix s : String) → Bool
unfolding fold
has_prefix_fold String.[] s = true
has_prefix_fold (String.◌∷◌ c prefix) String.[] = false
has_prefix_fold (String.◌∷◌ c prefix) (String.◌∷◌ d s) =
    nat_eq (code c) (fold (code d)) && has_prefix_fold prefix s

-- `strings.EqualFold` for a text of ASCII without the letters k and s.
unfoldable pub equal_fold : String → String → Bool
unfolding fold
equal_fold String.[] String.[] = true
equal_fold (String.◌∷◌ c s) (String.◌∷◌ d t) =
    nat_eq (fold (code c)) (fold (code d)) && equal_fold s t
equal_fold String.[] (String.◌∷◌ d t) = false
equal_fold (String.◌∷◌ c s) String.[] = false

-- `strings.Split(s, ",")`.
unfoldable pub split_comma : String → List String
split_comma String.[] = "" ∷ []
split_comma (String.◌∷◌ c s) = elim (split_comma s) [
  | [] ↦ []
  | word ∷ words ↦ if nat_eq (code c) 44 then "" ∷ word ∷ words else String.◌∷◌ c word ∷ words
]

-- `strings.ReplaceAll` for an `old` that is not empty: `skip` letters of an occurrence are left.
replace_from : (skip : ℕ) → (old new s : String) → String
replace_from skip old new String.[] = ""
replace_from zero old new (String.◌∷◌ c s) =
    let after = replace_from (count old - 1) old new s in
    let rest = replace_from 0 old new s in
    if starts_with (String.◌∷◌ c s) old then new ++ after else String.◌∷◌ c rest
replace_from (suc skip) old new (String.◌∷◌ c s) = replace_from skip old new s

unfoldable pub replace_all : (old new s : String) → String
unfolding replace_from
replace_all old new s = replace_from 0 old new s

-- `s` up to its first space, and what follows that, as `strings.SplitN(s, " ", 2)`.
unfoldable pub split_space : String → String × Option String
split_space String.[] = ("", none)
split_space (String.◌∷◌ c s) =
    let (word, rest) = split_space s in
    if nat_eq (code c) 32 then ("", some s) else (String.◌∷◌ c word, rest)

append-cons : (c : Char) (s t : String) → (String.◌∷◌ c s) ++ t ≡ String.◌∷◌ c (s ++ t)
append-cons c s t i = append.cons c s t i

append-nil_text : (t : String) → "" ++ t ≡ t
append-nil_text t i = append.nil t i

pub has_space-append : (s t : String) → has_space (s ++ t) ≡ has_space s || has_space t
unfolding has_space
has_space-append String.[] t = ap has_space (append-nil_text t)
has_space-append (String.◌∷◌ c s) t =
    ap has_space (append-cons c s t) ∙ ground (arith, has_space-append s t)

split_space-space : (s : String) → split_space (" " ++ s) ≡ ("", some s)
unfolding split_space
split_space-space s =
    ap split_space (append-cons (" ") "" s ∙ ap (String.◌∷◌ (" ")) (append-nil_text s))

not_blank : (n : ℕ) → is_space n ≡ false → nat_eq n 32 ≡ false
unfolding is_space
not_blank n h = ground arith

pub split_space-word :
    (w s : String) → has_space w ≡ false → split_space (w ++ (" " ++ s)) ≡ (w, some s)
unfolding split_space has_space
split_space-word String.[] s h = ap split_space (append-nil_text (" " ++ s)) ∙ split_space-space s
split_space-word (String.◌∷◌ c w) s h =
    ap split_space (append-cons c w (" " ++ s))
    ∙ (let tail : has_space w ≡ false = ground arith in
        let other : nat_eq (code c) 32 ≡ false = not_blank (code c) (ground arith) in
        rw (split_space-word w s tail, other) refl)

is_blank : String → Bool
is_blank String.[] = true
is_blank (String.◌∷◌ c s) = false

pub prefixed_text : (c : Char) (s t : String) → ((String.◌∷◌ c s) ++ t) == "" ≡ false
unfolding is_blank
prefixed_text c s t = elim (Bool-cases (((String.◌∷◌ c s) ++ t) == "")) [
  | inl e ↦ absurd (no_blank (ap is_blank (sym (append-cons c s t) ∙ (eq_iff _ _).0 e)))
  | inr e ↦ e
]
  where
    no_blank : false ≡ true → ⊥
    no_blank h = cc
