-- ===== src/Paths.antt =====
-- Paths relative to a project: `normalizeProjectPath`, `toComparablePathKey` of
-- vscode-extension/src/local/pathNormalization.ts, and the `comparePaths` of the modules that sort
-- paths. A path is walked by its code points.
pub mod NormalForm
mod Tests
use Prim.Native.Nat.{Ordering}
use Prim.Native.Char.{Char, code}
use Prim.Native.String
use shared_dev_context_layer.Base.{
  ℕ, String, Bool, true, false, ◌&&◌, ◌||◌, nat_eq, if◌then◌else◌, string_Eq, ◌==◌,
}
use shared_dev_context_layer.Base.Strings.{trim_str, is_empty, Locale}

abbrev pub slash : Char
slash = "/"

abbrev pub is_slash : Char → Bool
is_slash c = nat_eq (code c) b'/'

abbrev pub is_backslash : Char → Bool
is_backslash c = nat_eq (code c) 92

-- replace(/\\/g, "/")
unfoldable pub normalize_slashes : String → String
normalize_slashes String.[] = String.[]
normalize_slashes (String.◌∷◌ c s) =
    String.◌∷◌ (if is_backslash c then slash else c) (normalize_slashes s)

skip_slashes : String → String
skip_slashes String.[] = String.[]
skip_slashes (String.◌∷◌ c s) =
    let rest = skip_slashes s in if is_slash c then rest else String.◌∷◌ c s

-- replace(/^\.\/+/, "")
unfoldable pub strip_dot_prefix : String → String
unfolding skip_slashes
strip_dot_prefix (String.◌∷◌ c (String.◌∷◌ d s)) =
    if nat_eq (code c) b'.' && is_slash d then skip_slashes s else String.◌∷◌ c (String.◌∷◌ d s)
strip_dot_prefix s = s

abbrev pub starts_slash : String → Bool
starts_slash String.[] = false
starts_slash (String.◌∷◌ c s) = is_slash c

-- replace(/\/{2,}/g, "/"): of a run of slashes the last one stays.
unfoldable pub collapse_separators : String → String
collapse_separators String.[] = String.[]
collapse_separators (String.◌∷◌ c s) =
    let rest = collapse_separators s in
    if is_slash c && starts_slash s then rest else String.◌∷◌ c rest

abbrev pub only_slashes : String → Bool
only_slashes String.[] = true
only_slashes (String.◌∷◌ c s) = is_slash c && only_slashes s

-- replace(/\/+$/, "")
unfoldable pub strip_trailing : String → String
strip_trailing String.[] = String.[]
strip_trailing (String.◌∷◌ c s) =
    if is_slash c && only_slashes s then String.[] else String.◌∷◌ c (strip_trailing s)

unfoldable pub normalize_project_path : String → String
normalize_project_path raw =
    let trimmed = normalize_slashes (trim_str raw) in
    if is_empty trimmed
    then ""
    else (let normalized = strip_trailing (collapse_separators (strip_dot_prefix trimmed)) in
        if is_empty normalized || normalized == "." then "" else normalized)

unfoldable pub to_comparable_path_key : Locale → String → String
to_comparable_path_key locale raw = locale.to_lower (normalize_project_path raw)

-- `comparePaths(left, right) <= 0`
unfoldable pub path_le : Locale → String → String → Bool
path_le locale left right =
    elim (locale.locale_compare (to_comparable_path_key locale left)
      (to_comparable_path_key locale right)) [
        | Ordering.lt ↦ true
        | Ordering.gt ↦ false
        | Ordering.eq ↦ elim (locale.locale_compare left right) [ Ordering.gt ↦ false | _ ↦ true ]
      ]
