-- ===== src/Downloader/Url/Texts.antt =====
-- The texts that the parts of a URL are found in.
use Prim.Native.Nat.{◌*◌, ◌^◌}
use wolk_connect_task.Prelude.{
  Text, ℕ, suc, ◌+◌, ◌-◌, ◌<◌, ◌≡◌, ◌≢◌, refl, ap, ◌∙◌, true, false, none, some, [], ◌∷◌, ◌++◌,
  length, take, drop, nat_eq, arith,
}
use wolk_connect_task.Downloader.Url.{
  starts_with, find, find_char, remove_first, http_path_prefix, https_path_prefix, without_prefixes,
  is_digit, skip_spaces, digits_value, parse_digits, stoul,
}

abbrev pub Lacks : ℕ → Text → Type 0
Lacks c [] = Unit {0}
Lacks c (d ∷ t) = (d ≢ c) × Lacks c t

abbrev pub AreDigits : Text → Type 0
AreDigits [] = Unit {0}
AreDigits (c ∷ t) = (is_digit c ≡ true) × AreDigits t

starts_with_self : (p t : Text) → starts_with p (p ++ t) ≡ true
unfolding starts_with
starts_with_self [] t = refl
starts_with_self (c ∷ p) t = ground (arith, starts_with_self p t)

pub find_char-here : (c : ℕ) (t u : Text) → Lacks c t → find_char c (t ++ c ∷ u) ≡ some (length t)
unfolding find_char
find_char-here c [] u l = ground arith
find_char-here c (d ∷ t) u l = ground (arith, find_char-here c t u l.1)

pub take-length : (t u : Text) → take (length t) (t ++ u) ≡ t
take-length [] u = refl
take-length (c ∷ t) u = ap (◌∷◌ c) (take-length t u)

pub drop-length : (t u : Text) → drop (length t) (t ++ u) ≡ u
drop-length [] u = refl
drop-length (c ∷ t) u = drop-length t u

pub drop-suc-length : (t : Text) (c : ℕ) (u : Text) → drop (suc (length t)) (t ++ c ∷ u) ≡ u
drop-suc-length [] c u = refl
drop-suc-length (d ∷ t) c u = drop-suc-length t c u

find_self : (p t : Text) → find p (p ++ t) ≡ some 0
unfolding find starts_with
find_self [] [] = refl
find_self [] (d ∷ t) = refl
find_self (c ∷ p) t = ground (arith, starts_with_self (c ∷ p) t)

drop_sum : (p t : Text) → drop (0 + length p) (p ++ t) ≡ t
drop_sum p t =
    let e : 0 + length p ≡ length p = omega arith in ap (λ n. drop n (p ++ t)) e ∙ drop-length p t

remove_first_self : (p t : Text) → remove_first p (p ++ t) ≡ t
unfolding remove_first
remove_first_self p t = rw (remove_first, find_self p t) (drop_sum p t)

remove_first_absent : (p t : Text) → find p t ≡ none → remove_first p t ≡ t
unfolding remove_first
remove_first_absent p t absent = ground arith

-- The prefix goes, and the rest has no other.
pub without_prefixes_lem :
    (body : Text)
    → find https_path_prefix body ≡ none
    → without_prefixes (http_path_prefix ++ body) ≡ body
without_prefixes_lem body absent =
    ap (remove_first https_path_prefix) (remove_first_self http_path_prefix body)
    ∙ remove_first_absent https_path_prefix body absent

digits_value-stop :
    (n : ℕ) (ds : Text) (c : ℕ) (t : Text)
    → AreDigits ds
    → is_digit c ≡ false
    → digits_value n (ds ++ c ∷ t) ≡ digits_value n ds
unfolding digits_value
digits_value-stop n [] c t a s = ground arith
digits_value-stop n (d ∷ ds) c t a s =
    ground (arith, digits_value-stop (n * 10 + (d - b'0')) ds c t a.1 s)

pub Lacks-append : (c : ℕ) (t u : Text) → Lacks c t → Lacks c u → Lacks c (t ++ u)
Lacks-append c [] u a b = b
Lacks-append c (d ∷ t) u a b = (a.0, Lacks-append c t u a.1 b)

pub AreDigits-Lacks : (c : ℕ) (ds : Text) → is_digit c ≡ false → AreDigits ds → Lacks c ds
AreDigits-Lacks c [] s a = tt
AreDigits-Lacks c (d ∷ ds) s a = (λ e. ground arith, AreDigits-Lacks c ds s a.1)

skip_spaces_digits : (d : ℕ) (t : Text) → is_digit d ≡ true → skip_spaces (d ∷ t) ≡ d ∷ t
unfolding skip_spaces
skip_spaces_digits d t digit = ground arith

-- Digits, followed by a slash or by nothing more.
pub stoul_digits :
    (d : ℕ) (ds t : Text)
    → AreDigits (d ∷ ds)
    → digits_value 0 (d ∷ ds) < 2 ^ 64
    → (stoul (d ∷ (ds ++ b'/' ∷ t)) ≡ some (digits_value 0 (d ∷ ds)))
      × (stoul (d ∷ ds) ≡ some (digits_value 0 (d ∷ ds)))
unfolding stoul parse_digits
stoul_digits d ds t a small = ground (
  arith,
  skip_spaces_digits d (ds ++ b'/' ∷ t),
  skip_spaces_digits d ds,
  digits_value-stop 0 (d ∷ ds) b'/' t a,
)

-- What `substr` leaves of the digits and what follows them.
pub take_past :
    (k : ℕ) (ds : Text) (c : ℕ) (t : Text)
    → take (length ds + suc k) (ds ++ c ∷ t) ≡ ds ++ c ∷ take k t
take_past k [] c t = let e : 0 + suc k ≡ suc k = omega arith in ap (λ n. take n (c ∷ t)) e
take_past k (d ∷ ds) c t =
    let e : suc (length ds) + suc k ≡ suc (length ds + suc k) = omega arith in
    ap (λ n. take n (d ∷ (ds ++ c ∷ t))) e ∙ ap (◌∷◌ d) (take_past k ds c t)

pub find_char-absent : (c : ℕ) (t : Text) → Lacks c t → find_char c t ≡ none
unfolding find_char
find_char-absent c [] l = refl
find_char-absent c (d ∷ t) l = ground (arith, find_char-absent c t l.1)

pub length_past : (t ds : Text) (c : ℕ) → length (t ++ c ∷ ds) ≡ length ds + suc (length t)
length_past [] ds c = omega arith
length_past (d ∷ t) ds c = ground (arith, length_past t ds c)

-- The three functions by what the searches in the text without its prefix come to.
