-- ===== src/CommandValidation/Quoting.antt =====
-- Texts in quotes and texts without any.
use Prim.Native.Char.{Char, code}
use shared_dev_context_layer.Base.{
  ℕ, String, ◌≡◌, refl, ◌∙◌, ap, false, none, some, [], nat_eq, nat_eq_iff, arith,
}
use shared_dev_context_layer.Base.Strings.{snoc, is_empty, trim_str}
use shared_dev_context_layer.Base.Strings.Trim.{Solid, trim_str-Solid, trim_str-ends}
use shared_dev_context_layer.Base.Text.{is_space}
use shared_dev_context_layer.CommandValidation.{
  quote_char, token_char, char_kind, push_token, tokenize_from, tokenize_command, executable,
  validate_tokens, validate_codex_executable_command,
}

-- No character of the text is a quote or white space.
abbrev pub IsWord : String → Type 0
IsWord String.[] = Unit
IsWord (String.◌∷◌ c s) = (char_kind c ≡ token_char) × IsWord s

-- The quote is not in the text.
abbrev pub Lacks : ℕ → String → Type 0
Lacks quote String.[] = Unit
Lacks quote (String.◌∷◌ c s) = (nat_eq (code c) quote ≡ false) × Lacks quote s

-- The characters of a text put behind another.
abbrev extend : String → String → String
extend current String.[] = current
extend current (String.◌∷◌ c s) = extend (snoc current c) s

extend-cons :
    (c : Char) (current s : String)
    → extend (String.◌∷◌ c current) s ≡ String.◌∷◌ c (extend current s)
extend-cons c current String.[] = refl
extend-cons c current (String.◌∷◌ d s) = extend-cons c (snoc current d) s

extend-nil : (s : String) → extend String.[] s ≡ s
extend-nil String.[] = refl
extend-nil (String.◌∷◌ c s) = extend-cons c String.[] s ∙ ap (λ t. String.◌∷◌ c t) (extend-nil s)

tokenize_from-word :
    (current word : String)
    → IsWord word
    → tokenize_from none current word ≡ some (push_token (extend current word) [])
unfolding tokenize_from
tokenize_from-word current String.[] w = refl
tokenize_from-word current (String.◌∷◌ c s) (t, w) =
    rw (t, tokenize_from) (tokenize_from-word (snoc current c) s w)

tokenize_from-quoted :
    (quote : Char) (current s : String)
    → Lacks (code quote) s
    → tokenize_from (some (code quote)) current (snoc s quote)
      ≡ some (push_token (extend current s) [])
unfolding tokenize_from
tokenize_from-quoted quote current String.[] l =
    rw ((nat_eq_iff (code quote) (code quote)).1 refl, tokenize_from) refl
tokenize_from-quoted quote current (String.◌∷◌ c s) (ne, l) =
    rw (ne, tokenize_from) (tokenize_from-quoted quote (snoc current c) s l)

word-Solid : (s : String) → IsWord s → Solid s
unfolding char_kind
word-Solid String.[] w = tt
word-Solid (String.◌∷◌ c s) (t, w) = (ground arith, word-Solid s w)

quote-solid : (quote : Char) → char_kind quote ≡ quote_char → is_space (code quote) ≡ false
unfolding char_kind is_space
quote-solid quote h = ground arith

trimmed_token :
    (token : String)
    → is_empty (trim_str token) ≡ false
    → validate_tokens (some (push_token token [])) ≡ executable (trim_str token)
unfolding validate_tokens trim_str
trimmed_token String.[] h = ground arith
trimmed_token (String.◌∷◌ c s) h = rw (h, validate_tokens) refl

-- A command without quotes and white space is taken as it stands.
pub validate-word :
    (c : Char) (s : String)
    → IsWord (String.◌∷◌ c s)
    → validate_codex_executable_command (String.◌∷◌ c s) ≡ executable (String.◌∷◌ c s)
unfolding validate_codex_executable_command tokenize_command validate_tokens
validate-word c s w =
    let command = String.◌∷◌ c s in
    let solid = trim_str-Solid command (word-Solid command w) in
    rw (solid, tokenize_from-word "" command w, extend-nil command, solid) refl

tokenize_command-quoted :
    (quote : Char) (s : String)
    → char_kind quote ≡ quote_char
    → Lacks (code quote) s
    → tokenize_command (String.◌∷◌ quote (snoc s quote)) ≡ some (push_token s [])
unfolding tokenize_command tokenize_from
tokenize_command-quoted quote s q l =
    rw (q, tokenize_from) (tokenize_from-quoted quote "" s l)
    ∙ ap (λ t. some (push_token t [])) (extend-nil s)

-- A text in quotes is taken as the executable, trimmed, with the white space inside it: for either
-- quote, where the text does not have that quote and is not blank.
pub validate-quoted :
    (quote : Char) (s : String)
    → char_kind quote ≡ quote_char
    → Lacks (code quote) s
    → is_empty (trim_str s) ≡ false
    → validate_codex_executable_command (String.◌∷◌ quote (snoc s quote)) ≡ executable (trim_str s)
unfolding validate_codex_executable_command
validate-quoted quote s q l h =
    let solid = quote-solid quote q in
    rw (trim_str-ends quote s quote solid solid, tokenize_command-quoted quote s q l)
      (trimmed_token s h)
