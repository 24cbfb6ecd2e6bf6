-- ===== src/Sat/Native/Source.antt =====
-- crates/sat/src/native/frontend.rs: the source text of byte literals.
use solana_audit_toolkit.Prelude.{
  Text, codes, ℕ, ◌+◌, ◌/◌, ◌%◌, ltb, leb, ◌==◌, ◌&&◌, List, [], ◌∷◌, ◌++◌, if◌then◌else◌,
}

unfoldable pub hex_digit : ℕ → ℕ
hex_digit n = if ltb n 10 then n + 48 else n + 87

-- `{b:02x}` of a byte
unfoldable pub hex2 : ℕ → Text
unfolding hex_digit
hex2 b = hex_digit (b / 16) ∷ hex_digit (b % 16) ∷ []

-- The arms of the `match` of `byte_str_source`.
unfoldable pub byte_source : ℕ → Text
unfolding hex2
byte_source b =
    if b == 34
    then 92 ∷ 34 ∷ []
    else if b == 92
    then 92 ∷ 92 ∷ []
    else if b == 10
    then codes "\\n"
    else if b == 13
    then codes "\\r"
    else if b == 9
    then codes "\\t"
    else if leb 32 b && leb b 126
    then b ∷ []
    else codes "\\x" ++ hex2 b

unfoldable pub bytes_source : List ℕ → Text
unfolding byte_source
bytes_source [] = []
bytes_source (b ∷ bs) = byte_source b ++ bytes_source bs

unfoldable pub byte_str_source : List ℕ → Text
unfolding bytes_source
byte_str_source bytes = 98 ∷ 34 ∷ (bytes_source bytes ++ (34 ∷ []))

unfoldable pub escape_byte : ℕ → Text
unfolding hex2
escape_byte b =
    if b == 39
    then 92 ∷ 39 ∷ []
    else if b == 92
    then 92 ∷ 92 ∷ []
    else if b == 10
    then codes "\\n"
    else if leb 32 b && leb b 126
    then b ∷ []
    else codes "\\x" ++ hex2 b

unfoldable pub hex_bytes : List ℕ → Text
unfolding hex2
hex_bytes [] = []
hex_bytes (b ∷ bs) = hex2 b ++ hex_bytes bs
