-- ===== src/PoolConfig/Socket.antt =====
-- The socket that the pool takes from its configuration: `resolve_bitcoin_core_ipc_socket_path` in
-- vendor/pool_sv2/src/lib/mod.rs, with `Path::extension` of a Unix path.
use canary_mining.Common.{
  ℕ, Bool, false, not, ◌&&◌, Option, none, some, List, [], ◌∷◌, if◌then◌else◌, is_empty, nat_beq,
  retain,
}
use canary_mining.Common.Text.Basic.{Text, codes, text_beq}
use canary_mining.PoolConfig.{PoolLib, TemplateNetwork}

-- A character in front of the first component, or the separator.
abbrev pub onto_components : ℕ → List Text → List Text
onto_components c [] = []
onto_components c (name ∷ names) = if nat_beq c b'/' then [] ∷ name ∷ names else (c ∷ name) ∷ names

abbrev pub split_path : Text → List Text
split_path [] = [] ∷ []
split_path (c ∷ path) = onto_components c (split_path path)

abbrev pub last_of : List Text → Option Text
last_of [] = none
last_of (name ∷ []) = if text_beq name (codes "..") then none else some name
last_of (name ∷ next ∷ names) = last_of (next ∷ names)

-- `Path::file_name`: empty components and those that are a dot do not count.
unfoldable pub file_name : Text → Option Text
unfolding text_beq retain
file_name path =
    last_of
      (retain (λ name. not (is_empty name) && not (text_beq name (codes "."))) (split_path path))

abbrev pub if_dot : ℕ → Text → Option Text → Option Text
if_dot c rest none = if nat_beq c b'.' then some rest else none
if_dot c rest (some extension) = some extension

abbrev pub after_last_dot : Text → Option Text
after_last_dot [] = none
after_last_dot (c ∷ name) = if_dot c name (after_last_dot name)

-- A dot at the start of a name does not count.
abbrev pub extension_of : Option Text → Option Text
extension_of none = none
extension_of (some []) = none
extension_of (some (c ∷ name)) = after_last_dot name

-- Whether `Path::extension` is `sock`.
abbrev pub is_sock : Option Text → Bool
is_sock none = false
is_sock (some extension) = text_beq extension (codes "sock")

abbrev pub names_socket : Option Text → Bool
names_socket none = false
names_socket (some path) = is_sock (extension_of (file_name path))

unfoldable pub resolve_bitcoin_core_ipc_socket_path :
    PoolLib → TemplateNetwork → Option Text → Option Text
unfolding file_name text_beq
resolve_bitcoin_core_ipc_socket_path B network given =
    if names_socket given then given else B.default_ipc_socket network given
