-- ===== src/Pipeline/Texts.antt =====
-- extensions/pipeline/: the functions of Go's packages strings and fmt that the pipelines use.
use Prim.Native.Char.{Char, code}
use Prim.Native.String.{String, [], ◌∷◌, ◌++◌, slice}
use mathlib.Core.List.{List, [] as nil, ◌∷◌ as ◌::◌}
use piglet.Prelude.{
  ℕ, zero, suc, ◌+◌, ◌-◌, ◌*◌, ◌^◌, ◌>>=◌, ◌/◌, ◌%◌, Bool, true, false, ◌&&◌, ◌||◌, Option, none,
  some, leb, ltb, ◌==◌, str_eq, if◌then◌else◌,
}

-- A Go int.
pub data ℤ : Type 0 where
  pos : ℕ → ℤ
  negsuc : ℕ → ℤ

-- The greatest int.
abbrev pub max_int : ℕ
max_int = 2 ^ 63 - 1

abbrev pub is_positive : ℤ → Bool
is_positive (pos n) = ltb 0 n
is_positive (negsuc n) = false

-- `len(s)`, in code points.
unfoldable pub len : String → ℕ
len [] = 0
len (c ∷ s) = suc (len s)

-- `strings.Contains(s, string(rune(n)))`
unfoldable pub has_code : ℕ → String → Bool
has_code n [] = false
has_code n (c ∷ s) = code c == n || has_code n s

abbrev pub add_char : Char → Option (String × String) → Option (String × String)
add_char c none = none
add_char c (some (before, after)) = some (c ∷ before, after)

-- `strings.IndexByte(s, n)`, with the text before the place and the text after it.
unfoldable pub cut_at : ℕ → String → Option (String × String)
cut_at n [] = none
cut_at n (c ∷ s) = if code c == n then some ([], s) else add_char c (cut_at n s)

-- `strings.CutPrefix(s, p)`
unfoldable pub cut_prefix : String → String → Option String
cut_prefix s [] = some s
cut_prefix [] (c ∷ p) = none
cut_prefix (d ∷ s) (c ∷ p) = if code d == code c then cut_prefix s p else none

abbrev here_or : Option String → Option (String × String) → Option (String × String)
here_or none later = later
here_or (some rest) later = some ([], rest)

-- The text before the first place of `p` and the text after it: `strings.SplitN(s, p, 2)`, with none for one part.
unfoldable pub cut_text : String → String → Option (String × String)
unfolding cut_prefix
cut_text [] p = here_or (cut_prefix [] p) none
cut_text (c ∷ s) p = here_or (cut_prefix (c ∷ s) p) (add_char c (cut_text s p))

-- `strings.HasSuffix(s, p)`
unfoldable pub has_suffix : String → String → Bool
has_suffix [] p = str_eq [] p
has_suffix (c ∷ s) p = str_eq (c ∷ s) p || has_suffix s p

unfoldable pub take_text : ℕ → String → String
take_text zero s = []
take_text (suc n) [] = []
take_text (suc n) (c ∷ s) = c ∷ take_text n s

unfoldable pub drop_text : ℕ → String → String
drop_text zero s = s
drop_text (suc n) [] = []
drop_text (suc n) (c ∷ s) = drop_text n s

-- `unicode.IsSpace`
abbrev is_space : Char → Bool
is_space c =
    let n = code c in
    leb 9 n && leb n 13
    || n == 32
    || n == 133
    || n == 160
    || n == 5760
    || leb 8192 n && leb n 8202
    || n == 8232
    || n == 8233
    || n == 8239
    || n == 8287
    || n == 12288

abbrev all_space : String → Bool
all_space [] = true
all_space (c ∷ s) = is_space c && all_space s

unfoldable trim_left : String → String
trim_left [] = []
trim_left (c ∷ s) = let rest = trim_left s in if is_space c then rest else c ∷ s

unfoldable trim_right : String → String
trim_right [] = []
trim_right (c ∷ s) = let rest = trim_right s in if all_space (c ∷ s) then [] else c ∷ rest

-- `strings.TrimSpace`
unfoldable pub trim_space : String → String
unfolding trim_left trim_right
trim_space s = trim_right (trim_left s)

abbrev digit : ℕ → String
digit d = slice "0123456789" d (suc d)

-- The decimal digits of a number; a number has at most as many as it is large, and one.
unfoldable digits : ℕ → ℕ → String
digits zero n = digit (n % 10)
digits (suc fuel) n =
    let more = digits fuel (n / 10) in if ltb n 10 then digit n else more ++ digit (n % 10)

-- `%d` of a number.
unfoldable pub show_nat : ℕ → String
unfolding digits
show_nat n = digits n n

-- `strings.Join(texts, "\n")`
unfoldable pub join_lines : List String → String
join_lines nil = []
join_lines (x :: nil) = x
join_lines (x :: y :: ys) = (x ++ "\n") ++ join_lines (y :: ys)

-- The value of a text of decimal digits, after those read already.
unfoldable read_digits : ℕ → String → Option ℕ
read_digits acc [] = some acc
read_digits acc (c ∷ s) =
    let rest = read_digits (acc * 10 + (code c - 48)) s in
    if leb 48 (code c) && leb (code c) 57 then rest else none

abbrev to_int : Bool → ℕ → Option ℤ
to_int true n = if leb n (2 ^ 63) then some (negate n) else none
  where
    negate : ℕ → ℤ
    negate zero = pos 0
    negate (suc m) = negsuc m
to_int false n = if ltb n (2 ^ 63) then some (pos n) else none

unfoldable signed : Bool → String → Option ℤ
unfolding read_digits
signed minus [] = none
signed minus (c ∷ s) = read_digits 0 (c ∷ s) >>= to_int minus

-- `strconv.Atoi`, with none for an error.
unfoldable pub atoi : String → Option ℤ
unfolding signed
atoi [] = none
atoi (c ∷ s) =
    if code c == 45
    then signed true s
    else if code c == 43
    then signed false s
    else signed false (c ∷ s)

-- `strconv.Itoa`
unfoldable pub itoa : ℤ → String
unfolding show_nat
itoa (pos n) = show_nat n
itoa (negsuc n) = "-" ++ show_nat (suc n)
