-- ===== src/Common/Paths.antt =====
-- Paths as texts: `PathBuf::join` of a relative path on Unix.
use canary_mining.Common.Tests.{nat_beq, if◌then◌else◌}
use canary_mining.Common.Text.Basic.{Text}
use mathlib.Core.List.{[], ◌∷◌, ◌++◌}

-- An empty base adds nothing, and a base that ends in a slash no other one.
abbrev pub separator : Text → Text
separator [] = []
separator (c ∷ []) = if nat_beq c b'/' then [] else b'/' ∷ []
separator (c ∷ d ∷ s) = separator (d ∷ s)

unfoldable pub path_join : Text → Text → Text
path_join base name = base ++ (separator base ++ name)
