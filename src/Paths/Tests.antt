-- ===== src/Paths/Tests.antt =====
-- Paths normalized.
use shared_dev_context_layer.Base.{◌≡◌, ◌≢◌, refl}
use shared_dev_context_layer.Base.Strings.{trim_str}
use shared_dev_context_layer.Paths.{
  normalize_slashes, strip_dot_prefix, collapse_separators, strip_trailing, normalize_project_path,
}
use shared_dev_context_layer.Paths.NormalForm.{Posix, SingleSlashes, normalize_project_path_form}

normalized : Unit {0}
unfolding normalize_project_path normalize_slashes strip_dot_prefix collapse_separators
    strip_trailing trim_str
normalized = tt

windows_path : normalize_project_path "  .\\src\\\\app/main.ts/ " ≡ "src/app/main.ts"
unfolding normalized
windows_path = refl

-- Only one leading "./" goes, so that a second call changes the path again.
two_prefixes : normalize_project_path "././a" ≡ "./a"
unfolding normalized
two_prefixes = refl

normalize_project_path_form_example :
    let path = normalize_project_path "a//b\\" in Posix path × SingleSlashes path × (path ≢ ".")
normalize_project_path_form_example = normalize_project_path_form "a//b\\"
