-- ===== src/Downloader/Url.antt =====
-- The parts of a URL, as HTTPFileDownloader.cpp takes them out of the text: the positions in a
-- `std::string`, `std::stoul`, and the search for the regular expression.
pub mod Texts
pub mod Parts
use Prim.Native.Nat.{◌*◌, ◌%◌, ◌^◌}
use wolk_connect_task.Prelude.{
  Text, ℕ, zero, suc, ◌+◌, ◌-◌, ltb, leb, Bool, true, false, not, ◌&&◌, ◌||◌, Option, none, some,
  List, [], ◌∷◌, ◌++◌, length, take, drop, codes, nat_eq, ◌==◌, if◌then◌else◌,
}

unfoldable pub starts_with : Text → Text → Bool
starts_with [] t = true
starts_with (c ∷ p) [] = false
starts_with (c ∷ p) (d ∷ t) = let rest = starts_with p t in if c == d then rest else false

abbrev pub later : Option ℕ → Option ℕ
later none = none
later (some i) = some (suc i)

-- `find` of a string, and `find` and `rfind` of a character.
unfoldable pub find : Text → Text → Option ℕ
find p [] = if starts_with p [] then some 0 else none
find p (c ∷ t) = let rest = find p t in if starts_with p (c ∷ t) then some 0 else later rest

unfoldable pub find_char : ℕ → Text → Option ℕ
find_char c [] = none
find_char c (d ∷ t) = let rest = find_char c t in if d == c then some 0 else later rest

unfoldable pub rfind_char : ℕ → Text → Option ℕ
rfind_char c [] = none
rfind_char c (d ∷ t) = elim (rfind_char c t) [
  | none ↦ if d == c then some 0 else none
  | some i ↦ some (suc i)
]

abbrev pub substr : ℕ → ℕ → Text → Text
substr position count t = take count (drop position t)

abbrev pub http_path_prefix : Text
http_path_prefix = codes "http://"

abbrev pub https_path_prefix : Text
https_path_prefix = codes "https://"

-- `t.replace(t.find(p), p.length(), "")`, if `p` occurs.
unfoldable pub remove_first : Text → Text → Text
remove_first p t = elim (find p t) [ none ↦ t | some i ↦ take i t ++ drop (i + length p) t ]

abbrev pub without_prefixes : Text → Text
without_prefixes target_path =
    remove_first https_path_prefix (remove_first http_path_prefix target_path)

unfoldable pub extract_host : Text → Text
extract_host target_path =
    let t = without_prefixes target_path in
    elim (find_char b':' t) [
      | some i ↦ take i t
      | none ↦ elim (find_char b'/' t) [ some i ↦ take i t | none ↦ t ]
    ]

abbrev pub is_space : ℕ → Bool
is_space c = c == b' ' || leb 9 c && leb c 13

abbrev pub is_digit : ℕ → Bool
is_digit c = leb b'0' c && leb c b'9'

unfoldable pub skip_spaces : Text → Text
skip_spaces [] = []
skip_spaces (c ∷ t) = let rest = skip_spaces t in if is_space c then rest else c ∷ t

-- The number that the digits at the start spell, after those that make up `n`.
unfoldable pub digits_value : ℕ → Text → ℕ
digits_value n [] = n
digits_value n (c ∷ t) =
    let rest = digits_value (n * 10 + (c - b'0')) t in if is_digit c then rest else n

-- Digits without a sign; `none` is an exception: no digit, or a number past 64 bits.
unfoldable pub parse_digits : Text → Option ℕ
parse_digits [] = none
parse_digits (c ∷ t) =
    if not (is_digit c)
    then none
    else if ltb (digits_value 0 (c ∷ t)) (2 ^ 64)
    then some (digits_value 0 (c ∷ t))
    else none

-- `std::stoul`.
unfoldable pub stoul : Text → Option ℕ
stoul text = elim (skip_spaces text) [
  | [] ↦ none
  | c ∷ t ↦
      if c == b'+'
      then parse_digits t
      else if c == b'-'
      then elim (parse_digits t) [ none ↦ none | some n ↦ some ((2 ^ 64 - n) % 2 ^ 64) ]
      else parse_digits (c ∷ t)
]

-- The port in a `std::uint16_t`; `none` is an exception of `std::stoul`.
unfoldable pub extract_port : Text → Option ℕ
extract_port target_path =
    let t = without_prefixes target_path in
    elim (find_char b':' t) [
      | none ↦ some 80
      | some i ↦
          let substring : Text = elim (find_char b'/' t) [
            | none ↦ drop (suc i) t
            | some j ↦ substr (suc i) j t
          ] in
          elim (stoul substring) [ none ↦ none | some n ↦ some (n % 2 ^ 16) ]
    ]

unfoldable pub extract_uri : Text → Text
extract_uri target_path =
    let t = without_prefixes target_path in
    elim (find_char b'/' t) [ none ↦ codes "/" | some i ↦ drop i t ]

-- The classes of characters in the regular expression.
abbrev pub is_alphanumeric : ℕ → Bool
is_alphanumeric c = is_digit c || leb b'a' c && leb c b'z' || leb b'A' c && leb c b'Z'

unfoldable pub one_of : ℕ → Text → Bool
one_of c [] = false
one_of c (d ∷ t) = c == d || one_of c t

abbrev pub is_word : ℕ → Bool
is_word c = is_alphanumeric c || c == b'_'

abbrev pub is_host : ℕ → Bool
is_host c = is_alphanumeric c || one_of c (codes "-@:%._+~#=")

abbrev pub is_domain : ℕ → Bool
is_domain c = is_alphanumeric c || one_of c (codes "()")

-- `\b` between a character and what follows.
abbrev pub is_boundary : ℕ → Text → Bool
is_boundary c [] = is_word c
is_boundary c (d ∷ t) = if is_word c then not (is_word d) else is_word d

-- `[a-zA-Z0-9()]{1,6}\b` with the characters before, of which `c` is the last, and up to `n` more.
unfoldable pub matches_domain : ℕ → ℕ → Text → Bool
matches_domain n c [] = is_boundary c []
matches_domain zero c (d ∷ t) = is_boundary c (d ∷ t)
matches_domain (suc n) c (d ∷ t) =
    let rest = matches_domain n d t in is_boundary c (d ∷ t) || is_domain d && rest

abbrev pub starts_domain : Text → Bool
starts_domain [] = false
starts_domain (c ∷ t) = is_domain c && matches_domain 5 c t

-- `[-a-zA-Z0-9@:%._\+~#=]{1,256}\.` with at least one character before, and up to `n` more.
unfoldable pub matches_host : ℕ → Text → Bool
matches_host n [] = false
matches_host zero (c ∷ t) = c == b'.' && starts_domain t
matches_host (suc n) (c ∷ t) =
    let rest = matches_host n t in c == b'.' && starts_domain t || is_host c && rest

abbrev pub starts_host : Text → Bool
starts_host [] = false
starts_host (c ∷ t) = is_host c && matches_host 255 t

abbrev pub matches_address : Text → Bool
matches_address t = starts_host t || starts_with (codes "www.") t && starts_host (drop 4 t)

abbrev pub matches_here : Text → Bool
matches_here t =
    starts_with http_path_prefix t && matches_address (drop 7 t)
    || starts_with https_path_prefix t && matches_address (drop 8 t)

-- `std::regex_search` with `URL_REGEX`; the last part of the expression matches every text.
unfoldable pub is_url : Text → Bool
is_url [] = matches_here []
is_url (c ∷ t) = let rest = is_url t in matches_here (c ∷ t) || rest
