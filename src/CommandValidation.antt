-- ===== src/CommandValidation.antt =====
-- The check of the configured codex command: `validateCodexExecutableCommand` and its tokenizer of
-- vscode-extension/src/local/codexCommandValidation.ts. An absent command is the empty text; an error
-- is its reason, the two fields that are copied are left out.
pub mod Quoting
mod Tests
use Prim.Native.String
use Prim.Native.Char.{Char, code}
use shared_dev_context_layer.Base.{
  ℕ, String, Bool, true, false, ◌||◌, Option, none, some, List, [], ◌∷◌, nat_eq, if◌then◌else◌,
}
use shared_dev_context_layer.Base.Text.{is_space}
use shared_dev_context_layer.Base.Strings.{is_empty, snoc, trim_str}

pub data InvalidReason : Type 0 where
  unclosed_quote embedded_arguments empty_executable : InvalidReason

pub data CodexCommandValidationResult : Type 0 where
  executable : String → CodexCommandValidationResult
  invalid : InvalidReason → CodexCommandValidationResult

-- How the tokenizer reads a character outside of quotes.
pub data CharKind : Type 0 where
  quote_char space_char token_char : CharKind

unfoldable pub char_kind : Char → CharKind
char_kind c =
    if nat_eq (code c) 39 || nat_eq (code c) 34
    then quote_char
    else if is_space (code c)
    then space_char
    else token_char

abbrev pub push_token : String → List String → List String
push_token current tokens = if is_empty current then tokens else current ∷ tokens

abbrev pub push_tokens : String → Option (List String) → Option (List String)
push_tokens current none = none
push_tokens current (some tokens) = some (push_token current tokens)

-- The loop, with the open quote and the token read so far; `none` is the parse error.
unfoldable pub tokenize_from : Option ℕ → String → String → Option (List String)
tokenize_from none current String.[] = some (push_token current [])
tokenize_from (some quote) current String.[] = none
tokenize_from (some quote) current (String.◌∷◌ c s) = elim (nat_eq (code c) quote) [
  | true ↦ tokenize_from none current s
  | false ↦ tokenize_from (some quote) (snoc current c) s
]
tokenize_from none current (String.◌∷◌ c s) = elim (char_kind c) [
  | quote_char ↦ tokenize_from (some (code c)) current s
  | space_char ↦ push_tokens current (tokenize_from none "" s)
  | token_char ↦ tokenize_from none (snoc current c) s
]

unfoldable pub tokenize_command : String → Option (List String)
tokenize_command raw = tokenize_from none "" raw

unfoldable pub validate_tokens : Option (List String) → CodexCommandValidationResult
validate_tokens none = invalid unclosed_quote
validate_tokens (some []) = invalid embedded_arguments
validate_tokens (some (token ∷ [])) =
    let trimmed = trim_str token in
    if is_empty trimmed then invalid empty_executable else executable trimmed
validate_tokens (some (token ∷ other ∷ tokens)) = invalid embedded_arguments

unfoldable pub validate_codex_executable_command : String → CodexCommandValidationResult
validate_codex_executable_command command =
    let trimmed = trim_str command in
    if is_empty trimmed then executable "codex" else validate_tokens (tokenize_command trimmed)
