-- ===== src/Runtime/Scan.antt =====
-- internal/runtime/statemachine.go: `indexOf`, and the scan of a payload for its error text.
pub mod Laws
use sandcode.Base.{
  ℕ, zero, suc, ◌+◌, ◌-◌, ◌≡◌, refl, List, [], ◌∷◌, Option, none, some, Bool, true, false, ◌==◌,
  ltb, length, take, drop, codes, if◌then◌else◌,
}
use sandcode.Base.Bytes.{bytes_eq}

-- The test `s[i:i+m] == sub`.
unfoldable pub window_eq : List ℕ → List ℕ → ℕ → Bool
unfolding bytes_eq
window_eq s sub i = bytes_eq (take (length sub) (drop i s)) sub

-- The `for` loop, with the rounds that are left; `none` stands for -1.
unfoldable pub scan : List ℕ → List ℕ → ℕ → ℕ → Option ℕ
unfolding window_eq
scan s sub zero i = none
scan s sub (suc rounds) i =
    let rest = scan s sub rounds (i + 1) in if window_eq s sub i then some i else rest

unfoldable pub index_of : List ℕ → List ℕ → Option ℕ
unfolding scan
index_of s sub =
    if length sub == 0
    then some 0
    else if ltb (length s) (length sub)
    then none
    else scan s sub (length s - length sub + 1) 0

-- The bytes of `"error":"` and of the closing quote.
abbrev pub error_key : List ℕ
error_key = codes "\"error\":\""

abbrev pub quote : List ℕ
quote = codes "\""

abbrev message_until : List ℕ → Option ℕ → List ℕ
message_until rest none = []
message_until rest (some end) = take end rest

abbrev message_after : List ℕ → Option ℕ → List ℕ
message_after payload none = []
message_after payload (some idx) =
    let rest = drop (idx + length error_key) payload in message_until rest (index_of rest quote)

unfoldable pub extract_error_message : List ℕ → List ℕ
extract_error_message payload =
    if length payload == 0 then [] else message_after payload (index_of payload error_key)

extract_example : extract_error_message (codes "{\"error\":\"boom\",\"x\":1}") ≡ codes "boom"
unfolding extract_error_message index_of
extract_example = refl
