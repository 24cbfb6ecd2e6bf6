-- ===== src/Sat/Native/Labels.antt =====
-- crates/sat/src/native/rules/lifecycle.rs: the words of an account's name, and the builtin that it names.
use solana_audit_toolkit.Prelude.{
  Text, codes, text_eq, lower, leb, ℕ, ◌≡◌, refl, Bool, true, false, not, ◌&&◌, ◌||◌, Option, none,
  some, List, [], ◌∷◌, ◌++◌, All, any, all, all-append, is_digit, is_empty, if◌then◌else◌,
  Bool-cases, inl, inr, arith,
}

abbrev pub is_ascii_uppercase : ℕ → Bool
is_ascii_uppercase c = leb 65 c && leb c 90

abbrev pub is_ascii_lowercase : ℕ → Bool
is_ascii_lowercase c = leb 97 c && leb c 122

abbrev pub is_ascii_alphanumeric : ℕ → Bool
is_ascii_alphanumeric c = is_digit c || (is_ascii_uppercase c || is_ascii_lowercase c)

-- The loop of `name_tokens`: the current word, whether the last character was in lower case, and the
-- characters to come.
unfoldable pub tokens_from : Text → Bool → Text → List Text
tokens_from cur prev_lower [] = if not (is_empty cur) then cur ∷ [] else []
tokens_from cur prev_lower (ch ∷ name) = elim (is_ascii_alphanumeric ch) [
  | true ↦ elim (is_ascii_uppercase ch && (prev_lower && not (is_empty cur))) [
    | true ↦ cur ∷ tokens_from (lower ch ∷ []) (is_ascii_lowercase ch) name
    | false ↦ tokens_from (cur ++ (lower ch ∷ [])) (is_ascii_lowercase ch) name
  ]
  | false ↦ elim (is_empty cur) [
    | true ↦ tokens_from cur false name
    | false ↦ cur ∷ tokens_from [] false name
  ]
]

unfoldable pub name_tokens : Text → List Text
unfolding tokens_from
name_tokens name = tokens_from [] false name

unfoldable pub has_token : List Text → Text → Bool
has_token tokens t = any (λ x. text_eq x t) tokens

-- The chain of tests of `builtin_label`, on the words.
unfoldable pub label_of : List Text → Option Text
unfolding has_token
label_of tokens =
    if has_token tokens (codes "system") && has_token tokens (codes "program")
    then some (codes "the system program")
    else if has_token tokens (codes "token2022")
    then some (codes "token-2022")
    else if has_token tokens (codes "associated") && has_token tokens (codes "token")
    then some (codes "the associated token program")
    else if has_token tokens (codes "token") && has_token tokens (codes "2022")
    then some (codes "token-2022")
    else if has_token tokens (codes "token") && has_token tokens (codes "program")
    then some (codes "the token program")
    else if has_token tokens (codes "ata") && has_token tokens (codes "program")
    then some (codes "the associated token program")
    else if has_token tokens (codes "compute") && has_token tokens (codes "budget")
    then some (codes "the compute budget program")
    else if has_token tokens (codes "clock")
    then some (codes "the clock sysvar")
    else if has_token tokens (codes "rent")
    then some (codes "the rent sysvar")
    else if has_token tokens (codes "epoch") && has_token tokens (codes "schedule")
    then some (codes "the epoch schedule sysvar")
    else if has_token tokens (codes "fees")
    then some (codes "the fees sysvar")
    else if has_token tokens (codes "recent") && has_token tokens (codes "blockhashes")
    then some (codes "the recent blockhashes sysvar")
    else if has_token tokens (codes "stake") && has_token tokens (codes "history")
    then some (codes "the stake history sysvar")
    else if has_token tokens (codes "instructions")
    then some (codes "the instructions sysvar")
    else none

unfoldable pub builtin_label : Text → Option Text
unfolding name_tokens label_of
builtin_label name = label_of (name_tokens name)

-- A lower-case letter or a digit.
abbrev pub is_token_char : ℕ → Bool
is_token_char c = is_digit c || is_ascii_lowercase c

pub record IsToken (t : Text) : Type 0 where
  pub filled : is_empty t ≡ false
  pub in_lower_case : all is_token_char t ≡ true

lower-is_token_char : (c : ℕ) → is_ascii_alphanumeric c ≡ true → is_token_char (lower c) ≡ true
unfolding lower
lower-is_token_char c h = ground arith

tokens_from-IsToken :
    (cur : Text) (prev_lower : Bool) (name : Text)
    → all is_token_char cur ≡ true
    → All IsToken (tokens_from cur prev_lower name)
unfolding tokens_from
tokens_from-IsToken cur prev_lower [] h = elim (Bool-cases (is_empty cur)) [
  | inl e ↦ rw (e, tokens_from) tt
  | inr e ↦ rw (e, tokens_from) (record { filled = e; in_lower_case = h }, tt)
]
tokens_from-IsToken cur prev_lower (ch ∷ name) h = elim (Bool-cases (is_ascii_alphanumeric ch)) [
  | inr a ↦ elim (Bool-cases (is_empty cur)) [
    | inl e ↦ rw (tokens_from, a, e) (tokens_from-IsToken cur false name h)
    | inr e ↦
        rw (tokens_from, a, e)
          (record { filled = e; in_lower_case = h }, tokens_from-IsToken [] false name refl)
  ]
  | inl a ↦
      let one : all is_token_char (lower ch ∷ []) ≡ true = rw (lower-is_token_char ch a) refl in
      elim (Bool-cases (is_ascii_uppercase ch && (prev_lower && not (is_empty cur)))) [
        | inl u ↦
            rw (tokens_from, a, u)
              (
                record {
                  filled = not_empty (is_ascii_uppercase ch) prev_lower (is_empty cur) u;
                  in_lower_case = h;
                },
                tokens_from-IsToken (lower ch ∷ []) (is_ascii_lowercase ch) name one,
              )
        | inr u ↦
            rw (tokens_from, a, u)
              (tokens_from-IsToken (cur ++ (lower ch ∷ [])) (is_ascii_lowercase ch) name
                (all-append is_token_char cur (lower ch ∷ []) h one))
      ]
]
  where
    not_empty : (a b c : Bool) → (a && (b && not c)) ≡ true → c ≡ false
    not_empty a b c h = ground arith

-- Every word of a name is not empty and has lower-case letters and digits only.
pub name_tokens-IsToken : (name : Text) → All IsToken (name_tokens name)
unfolding name_tokens
name_tokens-IsToken name = tokens_from-IsToken [] false name refl
