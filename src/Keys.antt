-- ===== src/Keys.antt =====
-- The authority keys of the pool: keys.rs. The file system, the TOML of the stored keys and the curve
-- are parameters.
pub mod Laws
use canary_mining.Common.{ℕ, Option, none, some, Result, ok, err}
use canary_mining.Common.Text.Basic.{Text, codes}
use canary_mining.Common.Paths.{path_join}

pub data IoError : Type 0 where
  not_found : IoError
  other_error : Text → IoError

-- The state of the disk, and what the program calls: a call that changes it may fail.
pub record FileSystem : Type 1 where
  pub State : Type 0
  pub read_to_string : State → Text → Result IoError Text
  pub create_dir_all : State → Text → State × Result IoError (Unit {0})
  pub write : State → Text → Text → State × Result IoError (Unit {0})

-- `AuthorityKeys`, and also `StoredAuthorityKeys`, which has the same two fields.
pub record AuthorityKeys (P S : Type 0) : Type 0 where
  pub public_key : P
  pub secret_key : S

-- The curve and the TOML of the stored keys.
pub record KeyLib : Type 1 where
  pub P : Type 0
  pub S : Type 0
  pub public_of : S → P
  pub from_toml : Text → Result Text (AuthorityKeys P S)
  pub to_toml : AuthorityKeys P S → Result Text Text

pub data KeyError : Type 0 where
  read_failed : Text → IoError → KeyError
  parse_failed : Text → Text → KeyError
  encode_failed : Text → KeyError
  create_dir_failed : Text → IoError → KeyError
  write_failed : Text → IoError → KeyError

unfoldable pub authority_key_path : Text → Text
unfolding path_join
authority_key_path data_dir = path_join data_dir (codes "authority-keys.toml")

module _ (D : FileSystem) (K : KeyLib) where
  abbrev pub Keys : Type 0
  Keys = AuthorityKeys K.P K.S

  -- `generate`, with the secret that the random generator gives.
  abbrev pub generate : K.S → Keys
  generate secret = record { public_key = K.public_of secret; secret_key = secret }

  abbrev pub written :
      Text → D.State × Result IoError (Unit {0}) → D.State × Result KeyError (Unit {0})
  written path (s, ok u) = (s, ok tt)
  written path (s, err source) = (s, err (write_failed path source))

  abbrev pub write_keys :
      Text → Keys → D.State → Result Text Text → D.State × Result KeyError (Unit {0})
  write_keys data_dir keys s (err source) = (s, err (encode_failed source))
  write_keys data_dir keys s (ok raw) =
      written (authority_key_path data_dir) (D.write s (authority_key_path data_dir) raw)

  abbrev pub persist_in :
      Text → Keys → D.State × Result IoError (Unit {0}) → D.State × Result KeyError (Unit {0})
  persist_in data_dir keys (s, err source) = (s, err (create_dir_failed data_dir source))
  persist_in data_dir keys (s, ok u) = write_keys data_dir keys s (K.to_toml keys)

  unfoldable pub persist : D.State → Keys → Text → D.State × Result KeyError (Unit {0})
  unfolding authority_key_path
  persist s keys data_dir = persist_in data_dir keys (D.create_dir_all s data_dir)

  abbrev pub created : Keys → D.State × Result KeyError (Unit {0}) → D.State × Result KeyError Keys
  created keys (s, ok u) = (s, ok keys)
  created keys (s, err e) = (s, err e)

  abbrev pub parsed : Text → Result Text Keys → Result KeyError Keys
  parsed path (ok keys) = ok keys
  parsed path (err source) = err (parse_failed path source)

  abbrev pub load_from : D.State → Text → K.S → Result IoError Text → D.State × Result KeyError Keys
  load_from s data_dir secret (ok raw) = (s, parsed (authority_key_path data_dir) (K.from_toml raw))
  load_from s data_dir secret (err not_found) =
      created (generate secret) (persist s (generate secret) data_dir)
  load_from s data_dir secret (err (other_error e)) =
      (s, err (read_failed (authority_key_path data_dir) (other_error e)))

  -- The new state of the disk, and the keys; a new secret is at hand in case it is needed.
  unfoldable pub load_or_create : D.State → Text → K.S → D.State × Result KeyError Keys
  unfolding authority_key_path persist
  load_or_create s data_dir secret =
      load_from s data_dir secret (D.read_to_string s (authority_key_path data_dir))
