-- ===== src/CommandValidation/Tests.antt =====
-- Commands checked.
use shared_dev_context_layer.Base.{◌≡◌, refl}
use shared_dev_context_layer.Base.Text.{is_space}
use shared_dev_context_layer.Base.Strings.{trim_str, is_blank_str}
use shared_dev_context_layer.CommandValidation.{
  char_kind, tokenize_from, tokenize_command, validate_tokens, executable, invalid,
  embedded_arguments, unclosed_quote, validate_codex_executable_command,
}
use shared_dev_context_layer.CommandValidation.Quoting.{validate-word, validate-quoted}

two_words : validate_codex_executable_command " codex exec" ≡ invalid embedded_arguments
unfolding validate_codex_executable_command validate_tokens tokenize_command tokenize_from char_kind
    trim_str is_blank_str is_space
two_words = refl

open_quote : validate_codex_executable_command "'codex" ≡ invalid unclosed_quote
unfolding validate_codex_executable_command validate_tokens tokenize_command tokenize_from char_kind
    trim_str is_blank_str is_space
open_quote = refl

validate-word_example : validate_codex_executable_command "codex" ≡ executable "codex"
unfolding char_kind is_space
validate-word_example = validate-word "c" "odex" (refl, (refl, (refl, (refl, (refl, tt)))))

validate-quoted_example :
    validate_codex_executable_command "'my codex'" ≡ executable (trim_str "my codex")
unfolding char_kind is_space trim_str is_blank_str
validate-quoted_example =
    validate-quoted "'" "my codex" refl
      (refl, (refl, (refl, (refl, (refl, (refl, (refl, (refl, tt)))))))) refl
