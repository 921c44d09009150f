-- ===== src/Downloader/Url/Parts.antt =====
-- What the three functions find in a URL of the usual form.
use Prim.Native.Nat.{◌%◌, ◌^◌}
use wolk_connect_task.Prelude.{
  Text, ℕ, suc, ◌<◌, ◌≡◌, refl, sym, ap, ◌∙◌, none, some, ◌∷◌, ◌++◌, length, take, nat_eq, arith,
  ◌⊎◌, inl, inr, append_assoc,
}
use wolk_connect_task.Downloader.Url.{
  find, find_char, http_path_prefix, https_path_prefix, without_prefixes, extract_host,
  digits_value, stoul, extract_port, extract_uri, substr,
}
use wolk_connect_task.Downloader.Url.Texts.{
  find_char-here, take-length, drop-length, drop-suc-length, without_prefixes_lem, Lacks-append,
  AreDigits-Lacks, stoul_digits, take_past, find_char-absent, length_past, Lacks, AreDigits,
}

extract_host-at :
    (url host rest : Text) (c : ℕ)
    → without_prefixes url ≡ host ++ c ∷ rest
    → (find_char b':' (host ++ c ∷ rest) ≡ some (length host))
      ⊎ ((find_char b':' (host ++ c ∷ rest) ≡ none)
          × (find_char b'/' (host ++ c ∷ rest) ≡ some (length host)))
    → extract_host url ≡ host
unfolding extract_host
extract_host-at url host rest c plain (inl colon) = ground (arith, take-length host (c ∷ rest))
extract_host-at url host rest c plain (inr (colon, slash)) =
    ground (arith, take-length host (c ∷ rest))

extract_port-none :
    (url body : Text)
    → without_prefixes url ≡ body
    → find_char b':' body ≡ none
    → extract_port url ≡ some 80
unfolding extract_port
extract_port-none url body plain colon = ground arith

extract_port-at :
    (url body : Text) (i j n : ℕ)
    → without_prefixes url ≡ body
    → find_char b':' body ≡ some i
    → find_char b'/' body ≡ some j
    → stoul (substr (suc i) j body) ≡ some n
    → extract_port url ≡ some (n % 2 ^ 16)
unfolding extract_port
extract_port-at url body i j n plain colon slash number = ground arith

extract_uri-at :
    (url before rest : Text)
    → without_prefixes url ≡ before ++ b'/' ∷ rest
    → find_char b'/' (before ++ b'/' ∷ rest) ≡ some (length before)
    → extract_uri url ≡ b'/' ∷ rest
unfolding extract_uri
extract_uri-at url before rest plain slash = ground (arith, drop-length before (b'/' ∷ rest))

-- What the substring of a port is, and the number it spells.
port_text :
    (host : Text) (d : ℕ) (ds rest : Text)
    → substr
        (suc (length host))
        (length (host ++ b':' ∷ (d ∷ ds)))
        (host ++ b':' ∷ ((d ∷ ds) ++ b'/' ∷ rest))
      ≡ d ∷ (ds ++ b'/' ∷ take (length host) rest)
port_text host d ds rest =
    rw (drop-suc-length host b':' ((d ∷ ds) ++ b'/' ∷ rest), length_past host (d ∷ ds) b':')
      (take_past (length host) (d ∷ ds) b'/' rest)

-- The number of a port's digits.
abbrev pub number_of : Text → ℕ
number_of ds = digits_value 0 ds

-- A URL with a port, `http://HOST:DIGITS/REST`: the host, the port and the URI come back. This is so
-- when the host has neither a colon nor a slash, the port is a number below 2^64, of which 16 bits
-- are kept, and no "https://" follows; the rest may hold anything else.
pub extract-with_port :
    (host : Text) (d : ℕ) (ds rest : Text)
    → Lacks b':' host
    → Lacks b'/' host
    → AreDigits (d ∷ ds)
    → number_of (d ∷ ds) < 2 ^ 64
    → find https_path_prefix (host ++ b':' ∷ ((d ∷ ds) ++ b'/' ∷ rest)) ≡ none
    → (let url = http_path_prefix ++ (host ++ b':' ∷ ((d ∷ ds) ++ b'/' ∷ rest)) in
        (extract_host url ≡ host)
        × (extract_port url ≡ some (number_of (d ∷ ds) % 2 ^ 16))
        × (extract_uri url ≡ b'/' ∷ rest))
extract-with_port host d ds rest colon slash digits small absent =
    let body = host ++ b':' ∷ ((d ∷ ds) ++ b'/' ∷ rest) in
    let url = http_path_prefix ++ body in
    let before = host ++ b':' ∷ (d ∷ ds) in
    let plain = without_prefixes_lem body absent in
    let at_colon = find_char-here b':' host ((d ∷ ds) ++ b'/' ∷ rest) colon in
    let regroup : before ++ b'/' ∷ rest ≡ body =
      append_assoc host (b':' ∷ (d ∷ ds)) (b'/' ∷ rest) in
    let slashes : Lacks b'/' (b':' ∷ (d ∷ ds)) =
      ((λ e. ground arith), AreDigits-Lacks b'/' (d ∷ ds) refl digits) in
    let at_slash =
      find_char-here b'/' before rest (Lacks-append b'/' host (b':' ∷ (d ∷ ds)) slash slashes) in
    let number =
      ap stoul (port_text host d ds rest)
      ∙ (stoul_digits d ds (take (length host) rest) digits small).0 in
    (
      extract_host-at url host ((d ∷ ds) ++ b'/' ∷ rest) b':' plain (inl at_colon),
      extract_port-at url body (length host) (length before) (number_of (d ∷ ds)) plain at_colon
          (ap (find_char b'/') (sym regroup) ∙ at_slash) number,
      extract_uri-at url before rest (plain ∙ sym regroup) at_slash,
    )

-- A URL without a port, `http://HOST/REST`, where the host has neither a colon nor a slash, and no
-- "https://" follows. When the rest has no colon either, the host, the port 80 and the URI come back.
-- When it has one, all that stands before it is taken for the host.
extract-without_port :
    (host rest before after : Text)
    → Lacks b':' host
    → Lacks b'/' host
    → Lacks b':' rest
    → Lacks b':' before
    → find https_path_prefix (host ++ b'/' ∷ rest) ≡ none
    → find https_path_prefix ((host ++ b'/' ∷ before) ++ b':' ∷ after) ≡ none
    → (let url = http_path_prefix ++ (host ++ b'/' ∷ rest) in
        let broken = http_path_prefix ++ ((host ++ b'/' ∷ before) ++ b':' ∷ after) in
        (extract_host url ≡ host)
        × (extract_port url ≡ some 80)
        × (extract_uri url ≡ b'/' ∷ rest)
        × (extract_host broken ≡ host ++ b'/' ∷ before))
extract-without_port host rest before after colon slash clean first absent misread =
    let url = http_path_prefix ++ (host ++ b'/' ∷ rest) in
    let plain = without_prefixes_lem (host ++ b'/' ∷ rest) absent in
    let no_colon =
      find_char-absent b':' (host ++ b'/' ∷ rest)
        (Lacks-append b':' host (b'/' ∷ rest) colon ((λ e. ground arith), clean)) in
    let at_slash = find_char-here b'/' host rest slash in
    let whole = host ++ b'/' ∷ before in
    (
      extract_host-at url host rest b'/' plain (inr (no_colon, at_slash)),
      extract_port-none url (host ++ b'/' ∷ rest) plain no_colon,
      extract_uri-at url host rest plain at_slash,
      extract_host-at (http_path_prefix ++ (whole ++ b':' ∷ after)) whole after b':'
          (without_prefixes_lem (whole ++ b':' ∷ after) misread)
          (inl (
            find_char-here b':' whole after
              (Lacks-append b':' host (b'/' ∷ before) colon ((λ e. ground arith), first)))),
    )
