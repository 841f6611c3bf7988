-- ===== src/GenApi/Formula/Lexer.antt =====
-- genapi/src/formula.rs: the lexer. The source is a list of bytes, and each byte counts as the
-- character with that number. The state is what is left of the source: what `peek` caches is read
-- again from there.
pub mod Decimal
pub mod Scan
pub mod Print
pub mod Ends
use cameleon.Prelude.{ℕ, zero, suc, ◌+◌, ◌-◌, ◌*◌, ◌<◌, ◌^◌, List, [], ◌∷◌, length, take, drop}
use cameleon.Prelude.{Bool, true, false, ◌&&◌, ◌||◌, ◌==◌, leb, ltb, if◌then◌else◌, ◌≡◌, All}
use cameleon.Prelude.{Option, none, some}
use cameleon.Result.{Result, ok, panic, ◌>>=◌, ◌>>◌, assert}
use cameleon.GenApi.{GenApiError}
use cameleon.GenApi.Formula.{Name, Floats}

pub data Token (F : Type 0) : Type 0 where
  l_paren r_paren plus minus star double_star slash percent and double_and or double_or : Token F
  caret tilde eq ne colon question lt le gt ge shl shr : Token F
  ident : Name → Token F
  float : F → Token F
  integer : ℕ → Token F

-- `str::from_utf8`, which accepts ASCII.
pub record Utf8 : Type 0 where
  pub is_utf8 : List ℕ → Bool
  pub is_utf8_ascii : (bs : List ℕ) → All (λ b. b < 128) bs → is_utf8 bs ≡ true

abbrev between_chars : ℕ → ℕ → ℕ → Bool
between_chars low high c = leb low c && leb c high

-- `char::is_whitespace`, `is_ascii_control` and the like, for characters below 256.
unfoldable pub is_blank : ℕ → Bool
is_blank c = c == 0x20 || c == 0x85 || c == 0xA0 || ltb c 0x20 || c == 0x7F

unfoldable pub is_alphabetic : ℕ → Bool
is_alphabetic c =
    between_chars b'a' b'z' c
    || between_chars b'A' b'Z' c
    || c == 0xAA
    || c == 0xB5
    || c == 0xBA
    || between_chars 0xC0 0xD6 c
    || between_chars 0xD8 0xF6 c
    || between_chars 0xF8 0xFF c

unfoldable pub is_numeric : ℕ → Bool
is_numeric c =
    between_chars b'0' b'9' c || c == 0xB2 || c == 0xB3 || c == 0xB9 || between_chars 0xBC 0xBE c

unfoldable pub is_hex_digit : ℕ → Bool
is_hex_digit c = between_chars b'0' b'9' c || between_chars b'a' b'f' c || between_chars b'A' b'F' c

unfoldable pub is_name_char : ℕ → Bool
unfolding is_alphabetic is_numeric
is_name_char c = is_alphabetic c || is_numeric c || c == b'.' || c == b'_'

-- `peek_char_raw` at each place of a text.
unfoldable pub starts : List ℕ → List ℕ → Bool
starts [] c = true
starts (x ∷ xs) [] = false
starts (x ∷ xs) (y ∷ c) = x == y && starts xs c

abbrev amp_entity : List ℕ
amp_entity = b'&' ∷ b'a' ∷ b'm' ∷ b'p' ∷ b';' ∷ []

abbrev lt_entity : List ℕ
lt_entity = b'&' ∷ b'l' ∷ b't' ∷ b';' ∷ []

abbrev gt_entity : List ℕ
gt_entity = b'&' ∷ b'g' ∷ b't' ∷ b';' ∷ []

-- The first character and what follows it; the three XML entities count as one character.
unfoldable pub peek_char : List ℕ → Option (ℕ × List ℕ)
unfolding starts
peek_char [] = none
peek_char (b ∷ c) =
    if starts amp_entity (b ∷ c)
    then some (b'&', drop 5 (b ∷ c))
    else if starts lt_entity (b ∷ c)
    then some (b'<', drop 4 (b ∷ c))
    else if starts gt_entity (b ∷ c)
    then some (b'>', drop 4 (b ∷ c))
    else some (b, c)

-- What is left if the first character passes the test.
unfoldable pub eat_char : (ℕ → Bool) → List ℕ → Option (List ℕ)
unfolding peek_char
eat_char test c = elim (peek_char c) [
  | none ↦ none
  | some (ch, rest) ↦ if test ch then some rest else none
]

-- `while self.eat_char(test) {}`, in as many rounds as there are bytes.
unfoldable pub eat_while : ℕ → (ℕ → Bool) → List ℕ → List ℕ
unfolding eat_char
eat_while zero test c = c
eat_while (suc rounds) test c = elim (eat_char test c) [
  | none ↦ c
  | some rest ↦ eat_while rounds test rest
]

abbrev pub eat_all : (ℕ → Bool) → List ℕ → List ℕ
eat_all test c = eat_while (length c) test c

-- `&src[start_pos..end_pos]`, given what is left of the source at the two places.
abbrev pub sub_string : List ℕ → List ℕ → List ℕ
sub_string start end = take (length start - length end) start

abbrev pub digit_value : ℕ → Option ℕ
digit_value c =
    if between_chars b'0' b'9' c
    then some (c - b'0')
    else if between_chars b'a' b'f' c
    then some (c - b'a' + 10)
    else if between_chars b'A' b'F' c
    then some (c - b'A' + 10)
    else none

-- The number that digits spell after `acc`.
unfoldable pub digits_from : ℕ → ℕ → List ℕ → Option ℕ
digits_from radix acc [] = some acc
digits_from radix acc (c ∷ s) = elim (digit_value c) [
  | none ↦ none
  | some d ↦ if ltb d radix then digits_from radix (acc * radix + d) s else none
]

-- `i64::from_str_radix` of a text without a sign.
unfoldable pub parse_int : ℕ → List ℕ → Option ℕ
unfolding digits_from
parse_int radix [] = none
parse_int radix (c ∷ s) = elim (digits_from radix 0 (c ∷ s)) [
  | none ↦ none
  | some v ↦ if ltb v (2 ^ 63) then some v else none
]

abbrev pub unwrap : {A : Type 0} → Option A → Result GenApiError A
unwrap none = panic
unwrap (some a) = ok a

unfoldable pub contains : ℕ → List ℕ → Bool
contains x [] = false
contains x (y ∷ ys) = x == y || contains x ys

module _ {F : Type 0} ⦃O : Floats F⦄ ⦃U : Utf8⦄ where
  -- The token is the longer one if the given character follows.
  abbrev pub longer :
      ℕ
      → Token F
      → Result GenApiError (Token F × List ℕ)
      → List ℕ
      → Result GenApiError (Token F × List ℕ)
  longer ch token shorter rest = elim (eat_char (λ c. c == ch) rest) [
    | none ↦ shorter
    | some rest ↦ ok (token, rest)
  ]

  unfoldable pub decimal_or_float : List ℕ → List ℕ → Result GenApiError (Token F × List ℕ)
  decimal_or_float start rest =
      let end = eat_all (λ c. c == b'.' || is_numeric c) rest in
      let s = sub_string start end in
      do
        assert (U.is_utf8 s)
        if contains b'.' s
            then (do f ← unwrap (O.from_str s); ok (float f, end))
            else (do i ← unwrap (parse_int 10 s); ok (integer i, end))

  unfoldable pub hexadecimal : List ℕ → Result GenApiError (Token F × List ℕ)
  hexadecimal start =
      let end = eat_all is_hex_digit start in
      do i ← unwrap (parse_int 16 (sub_string start end)); ok (integer i, end)

  unfoldable pub number : List ℕ → ℕ → List ℕ → Result GenApiError (Token F × List ℕ)
  number start ch rest =
      let hex = if ch == b'0' then eat_char (λ c. c == b'x') rest else none in
      elim hex [ none ↦ decimal_or_float start rest | some digits ↦ hexadecimal digits ]

  unfoldable pub fraction : List ℕ → List ℕ → Result GenApiError (Token F × List ℕ)
  fraction start rest =
      let end = eat_all is_numeric rest in
      let s = sub_string start end in
      do assert (U.is_utf8 s); f ← unwrap (O.from_str s); ok (float f, end)

  unfoldable pub name : List ℕ → List ℕ → Result GenApiError (Token F × List ℕ)
  name start rest =
      let end = eat_all is_name_char rest in
      let s = sub_string start end in do assert (U.is_utf8 s); ok (ident s, end)

  -- The `match` of `Lexer::peek` on the character `ch`, which begins `start` and is followed by
  -- `rest`.
  unfoldable pub token_at : List ℕ → ℕ → List ℕ → Result GenApiError (Token F × List ℕ)
  token_at start ch rest =
      if ch == b'('
      then ok (l_paren, rest)
      else if ch == b')'
      then ok (r_paren, rest)
      else if ch == b'+'
      then ok (plus, rest)
      else if ch == b'-'
      then ok (minus, rest)
      else if ch == b'*'
      then longer b'*' double_star (ok (star, rest)) rest
      else if ch == b'/'
      then ok (slash, rest)
      else if ch == b'%'
      then ok (percent, rest)
      else if ch == b'&'
      then longer b'&' double_and (ok (and, rest)) rest
      else if ch == b'|'
      then longer b'|' double_or (ok (or, rest)) rest
      else if ch == b'^'
      then ok (caret, rest)
      else if ch == b'~'
      then ok (tilde, rest)
      else if ch == b'='
      then ok (eq, rest)
      else if ch == b':'
      then ok (colon, rest)
      else if ch == b'?'
      then ok (question, rest)
      else if ch == b'<'
      then longer b'>' ne (longer b'=' le (longer b'<' shl (ok (lt, rest)) rest) rest) rest
      else if ch == b'>'
      then longer b'=' ge (longer b'>' shr (ok (gt, rest)) rest) rest
      else if ch == b'.'
      then fraction start rest
      else if is_alphabetic ch
      then name start rest
      else if is_numeric ch
      then number start ch rest
      else panic

  -- `Lexer::next`: blanks are skipped.
  unfoldable pub next_token : List ℕ → Result GenApiError (Option (Token F × List ℕ))
  next_token c =
      let start = eat_all is_blank c in
      elim (peek_char start) [
        | none ↦ ok none
        | some (ch, rest) ↦ do r ← token_at start ch rest; ok (some r)
      ]
