-- ===== src/Commands/Capping.antt =====
-- The cut of long texts: `capText` of vscode-extension/src/local/execution/codexExecutionUtils.ts.
use shared_dev_context_layer.Base.{
  ℕ, ◌-◌, ◌≤◌, [], ◌∷◌, ◌++◌, length, length-append, length-take, take, leb, if◌then◌else◌, arith,
}
use shared_dev_context_layer.Base.Text.{Text, slice}

abbrev pub ellipsis : Text
ellipsis = b'.' ∷ b'.' ∷ b'.' ∷ []

unfoldable pub cap_text : Text → ℕ → Text
cap_text text max_chars =
    if leb (length text) max_chars then text else slice text 0 (max_chars - 3) ++ ellipsis

pub cap_text-le : (text : Text) (n : ℕ) → 3 ≤ n → length (cap_text text n) ≤ n
unfolding cap_text
cap_text-le text n h =
    ground (arith, length-append (take (n - 3) text) ellipsis, length-take (n - 3) text)
