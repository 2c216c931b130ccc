-- ===== src/Keys/Laws.antt =====
-- The keys are made once, and read ever after.
use canary_mining.Common.{Result, ok, err, ◌≡◌, ◌≢◌, refl, ap, subst, arith}
use canary_mining.Common.Text.Basic.{Text}
use canary_mining.Keys.{
  IoError, not_found, other_error, FileSystem, KeyLib, authority_key_path, Keys, generate, written,
  write_keys, persist_in, created, parsed, load_from, load_or_create,
}

module _ (D : FileSystem) (K : KeyLib) where
  -- Nothing is written unless there is no key file: a file that does not parse, or that cannot be
  -- read, is never replaced.
  pub load-kept :
      (s : D.State) (data_dir : Text) (secret : K.S)
      → D.read_to_string s (authority_key_path data_dir) ≢ err not_found
      → (load_or_create D K s data_dir secret).0 ≡ s
  unfolding load_or_create
  load-kept s data_dir secret h = kept (D.read_to_string s (authority_key_path data_dir)) h
    where
      kept :
          (r : Result IoError Text) → r ≢ err not_found → (load_from D K s data_dir secret r).0 ≡ s
      kept (ok raw) h = refl
      kept (err not_found) h = absurd (h refl)
      kept (err (other_error e)) h = refl

  -- Documented of `fs::write`, and of TOML for the stored keys: what was written is read again.
  abbrev pub CanReread : Type 0
  CanReread =
      (s s' : D.State) (path text : Text)
      → D.write s path text ≡ (s', ok tt)
      → D.read_to_string s' path ≡ ok text

  abbrev pub CanReparse : Type 0
  CanReparse = (keys : Keys D K) (raw : Text) → K.to_toml keys ≡ ok raw → K.from_toml raw ≡ ok keys

  -- Keys that were loaded or created are the same when they are loaded again, whatever secret is at
  -- hand then, and the disk stays as it is; provided that what is written can be read again.
  pub load-again :
      (s s' : D.State) (data_dir : Text) (secret secret' : K.S) (keys : Keys D K)
      → CanReread
      → CanReparse
      → load_or_create D K s data_dir secret ≡ (s', ok keys)
      → load_or_create D K s' data_dir secret' ≡ (s', ok keys)
  unfolding load_or_create
  load-again s s' data_dir secret secret' keys reread reparse h =
      again (D.read_to_string s (authority_key_path data_dir)) refl h
    where
      read_back :
          (raw : Text)
          → D.read_to_string s' (authority_key_path data_dir) ≡ ok raw
          → K.from_toml raw ≡ ok keys
          → load_or_create D K s' data_dir secret' ≡ (s', ok keys)
      read_back raw r p = rw (r, load_or_create, p) refl

      parsed_ok :
          (r : Result Text (Keys D K))
          → parsed D K (authority_key_path data_dir) r ≡ ok keys
          → r ≡ ok keys
      parsed_ok (ok k) h = ground (arith, h)
      parsed_ok (err source) h = absurd (ground (arith, h))

      wrote :
          (t : D.State) (raw : Text) (w : D.State × Result IoError (Unit {0}))
          → D.write t (authority_key_path data_dir) raw ≡ w
          → K.to_toml (generate D K secret) ≡ ok raw
          → created D K (generate D K secret) (written D K (authority_key_path data_dir) w)
            ≡ (s', ok keys)
          → load_or_create D K s' data_dir secret' ≡ (s', ok keys)
      wrote t raw (u, ok v) e k h =
          let su : u ≡ s' = ap (λ x. x.0) h in
          let gk : generate D K secret ≡ keys = ground (arith, h) in
          read_back raw
            (reread t s' (authority_key_path data_dir) raw
              (subst (λ x. D.write t (authority_key_path data_dir) raw ≡ (x, ok tt)) su e))
            (reparse keys raw (subst (λ x. K.to_toml x ≡ ok raw) gk k))
      wrote t raw (u, err source) e k h = absurd (ground arith)

      encoded :
          (t : D.State) (r : Result Text Text)
          → K.to_toml (generate D K secret) ≡ r
          → created D K (generate D K secret) (write_keys D K data_dir (generate D K secret) t r)
            ≡ (s', ok keys)
          → load_or_create D K s' data_dir secret' ≡ (s', ok keys)
      encoded t (ok raw) k h = wrote t raw (D.write t (authority_key_path data_dir) raw) refl k h
      encoded t (err source) k h = absurd (ground arith)

      made :
          (c : D.State × Result IoError (Unit {0}))
          → created D K (generate D K secret) (persist_in D K data_dir (generate D K secret) c)
            ≡ (s', ok keys)
          → load_or_create D K s' data_dir secret' ≡ (s', ok keys)
      made (t, ok u) h = encoded t (K.to_toml (generate D K secret)) refl h
      made (t, err source) h = absurd (ground arith)

      again :
          (r : Result IoError Text)
          → D.read_to_string s (authority_key_path data_dir) ≡ r
          → load_from D K s data_dir secret r ≡ (s', ok keys)
          → load_or_create D K s' data_dir secret' ≡ (s', ok keys)
      again (ok raw) e h =
          read_back raw
            (subst (λ x. D.read_to_string x (authority_key_path data_dir) ≡ ok raw)
              (ap (λ x. x.0) h) e)
            (parsed_ok (K.from_toml raw) (ap (λ x. x.1) h))
      again (err not_found) e h = made (D.create_dir_all s data_dir) h
      again (err (other_error x)) e h = absurd (ground arith)
