-- ===== src/Program/Modes.antt =====
-- When the program mines, and when it runs the dashboard alone.
use canary_mining.Common.{
  Bool, true, false, Option, none, some, Result, ok, err, map_err, ◌≡◌, ◌↔◌, refl, ap, ◌∙◌, subst,
  arith, >>=-eq-ok, map_err-eq-ok,
}
use canary_mining.Common.Float.{Float}
use canary_mining.Common.Text.Basic.{Text}
use canary_mining.Config.{read}
use canary_mining.Keys.{AuthorityKeys, KeyError, load_or_create}
use canary_mining.PoolConfig.{build_pool_config}
use canary_mining.Program.Startup.{
  World, config_failed, pool_config_failed, Config, Pool, Disk, Mode, dashboard_only, mining,
  load_checked_config, ipc_available, pool_config_if, start_ui, choose_mode, start_with, with_keys,
  with_config, start,
}

module _ (R : Float) (W : World R) where
  -- Every step of the start that both modes need: the configuration, the keys, the history, and the
  -- listener of the dashboard if it is enabled.
  pub record IsStarted (s : Disk R W) (path : Text) (secret : W.keys.S) (config : Config R W)
      (keys : AuthorityKeys W.keys.P W.keys.S) : Type 0 where
    pub config_read : read R W.read_to_string W.from_toml path ≡ ok config
    pub keys_loaded : (load_or_create W.disk W.keys s config.data_dir secret).1 ≡ ok keys
    pub history_open : W.open_history config ≡ ok tt
    pub dashboard_bound : start_ui R W config ≡ ok tt

  start_with-ok :
      (config : Config R W) (keys : AuthorityKeys W.keys.P W.keys.S) (mode : Mode R W)
      → start_with R W config keys ≡ ok mode
      → (pool : Option (Pool R W)) × (pool_config_if R W (ipc_available R W config) config keys
          ≡ ok pool)
        × (W.open_history config ≡ ok tt)
        × (start_ui R W config ≡ ok tt)
        × (choose_mode R W config.ui.enabled pool ≡ ok mode)
  unfolding start_with
  start_with-ok config keys mode h =
      let (pool, p, h1) = >>=-eq-ok _ _ h in
      let (u, o, h2) = >>=-eq-ok _ _ h1 in
      let (v, b, h3) = >>=-eq-ok _ _ h2 in (pool, p, map_err-eq-ok _ _ o, b, h3)

  with_keys-ok :
      (config : Config R W) (mode : Mode R W)
      (r : Disk R W × Result KeyError (AuthorityKeys W.keys.P W.keys.S))
      → (with_keys R W config r).1 ≡ ok mode
      → (keys : AuthorityKeys W.keys.P W.keys.S) × (r.1 ≡ ok keys)
        × (start_with R W config keys ≡ ok mode)
  with_keys-ok config mode (t, ok keys) h = (keys, refl, h)
  with_keys-ok config mode (t, err e) h = absurd (ground (arith, h))

  start-ok :
      (s : Disk R W) (path : Text) (secret : W.keys.S) (mode : Mode R W)
      → (start R W s path secret).1 ≡ ok mode
      → (config : Config R W) × (keys : AuthorityKeys W.keys.P W.keys.S) × (read R W.read_to_string
            W.from_toml path
          ≡ ok config)
        × ((load_or_create W.disk W.keys s config.data_dir secret).1 ≡ ok keys)
        × (start_with R W config keys ≡ ok mode)
  unfolding start load_checked_config
  start-ok s path secret mode h = loaded (read R W.read_to_string W.from_toml path) refl h
    where
      loaded :
          (o : Result _ (Config R W))
          → read R W.read_to_string W.from_toml path ≡ o
          → (with_config R W s secret (map_err config_failed o)).1 ≡ ok mode
          → (config : Config R W) × (keys : AuthorityKeys W.keys.P W.keys.S) × (read R
                W.read_to_string W.from_toml path
              ≡ ok config)
            × ((load_or_create W.disk W.keys s config.data_dir secret).1 ≡ ok keys)
            × (start_with R W config keys ≡ ok mode)
      loaded (ok config) e k =
          let (keys, l, m) =
            with_keys-ok config mode (load_or_create W.disk W.keys s config.data_dir secret) k in
          (config, keys, e, l, m)
      loaded (err x) e k = absurd (ground (arith, k))

  ok-with_keys :
      (config : Config R W) (mode : Mode R W) (keys : AuthorityKeys W.keys.P W.keys.S)
      (r : Disk R W × Result KeyError (AuthorityKeys W.keys.P W.keys.S))
      → r.1 ≡ ok keys
      → start_with R W config keys ≡ ok mode
      → (with_keys R W config r).1 ≡ ok mode
  ok-with_keys config mode keys (t, ok k) e h =
      subst (λ x. start_with R W config x ≡ ok mode) (ground (arith, e)) h
  ok-with_keys config mode keys (t, err x) e h = absurd (ground (arith, e))

  ok-start_with :
      (s : Disk R W) (path : Text) (secret : W.keys.S) (config : Config R W)
      (keys : AuthorityKeys W.keys.P W.keys.S) (mode : Mode R W) (pool : Option (Pool R W))
      → IsStarted s path secret config keys
      → pool_config_if R W (ipc_available R W config) config keys ≡ ok pool
      → choose_mode R W config.ui.enabled pool ≡ ok mode
      → start_with R W config keys ≡ ok mode
  unfolding start_with
  ok-start_with s path secret config keys mode pool i p c =
      rw (p, i.history_open, i.dashboard_bound) c

  ok-start :
      (s : Disk R W) (path : Text) (secret : W.keys.S) (config : Config R W)
      (keys : AuthorityKeys W.keys.P W.keys.S) (mode : Mode R W) (pool : Option (Pool R W))
      → IsStarted s path secret config keys
      → pool_config_if R W (ipc_available R W config) config keys ≡ ok pool
      → choose_mode R W config.ui.enabled pool ≡ ok mode
      → (start R W s path secret).1 ≡ ok mode
  unfolding start load_checked_config
  ok-start s path secret config keys mode pool i p c = rw i.config_read (
      ok-with_keys config mode keys (load_or_create W.disk W.keys s config.data_dir secret)
        i.keys_loaded (ok-start_with s path secret config keys mode pool i p c))

  pool_config_if-some :
      (available : Bool) (config : Config R W) (keys : AuthorityKeys W.keys.P W.keys.S)
      (pool : Pool R W)
      → (pool_config_if R W available config keys ≡ ok (some pool))
        ↔ ((available ≡ true) × (build_pool_config W.pool config keys ≡ ok pool))
  unfolding pool_config_if
  pool_config_if-some false config keys pool =
      (λ h. absurd (ground (arith, h)), λ h. absurd (ground (arith, h.0)))
  pool_config_if-some true config keys pool = (
    λ h.
        let (p, b, e) = >>=-eq-ok _ _ h in
        let same : p ≡ pool = ground (arith, e) in (refl, map_err-eq-ok _ _ b ∙ ap (ok) same),
    λ h. rw h.1 refl,
  )

  pool_config_if-none :
      (available : Bool) (config : Config R W) (keys : AuthorityKeys W.keys.P W.keys.S)
      → (pool_config_if R W available config keys ≡ ok none) ↔ (available ≡ false)
  unfolding pool_config_if
  pool_config_if-none false config keys = (λ h. refl, λ h. refl)
  pool_config_if-none true config keys = (
    λ h.
        let (p, b, e) =
          >>=-eq-ok (map_err pool_config_failed (build_pool_config W.pool config keys))
            (λ p. ok (some p)) h in
        absurd (ground (arith, e)),
    λ h. absurd (ground (arith, h)),
  )

  choose_mode-mining :
      (enabled : Bool) (o : Option (Pool R W)) (pool : Pool R W)
      → choose_mode R W enabled o ≡ ok (mining pool)
      → o ≡ some pool
  unfolding choose_mode
  choose_mode-mining enabled (some p) pool h = ground (arith, h)
  choose_mode-mining true none pool h = absurd (ground (arith, h))
  choose_mode-mining false none pool h = absurd (ground (arith, h))

  choose_mode-dashboard :
      (enabled : Bool) (o : Option (Pool R W))
      → choose_mode R W enabled o ≡ ok dashboard_only
      → (o ≡ none) × (enabled ≡ true)
  unfolding choose_mode
  choose_mode-dashboard enabled (some p) h = absurd (ground (arith, h))
  choose_mode-dashboard true none h = (refl, refl)
  choose_mode-dashboard false none h = absurd (ground (arith, h))

  -- The program mines with a configuration of the pool exactly when every step of the start succeeds,
  -- the socket of Bitcoin Core exists, and that configuration is built from the program's and its keys.
  pub start-mining :
      (s : Disk R W) (path : Text) (secret : W.keys.S) (pool : Pool R W)
      → ((start R W s path secret).1 ≡ ok (mining pool)) ↔ (
          (config : Config R W) × (keys : AuthorityKeys W.keys.P W.keys.S) × IsStarted s path secret
            config keys
          × (ipc_available R W config ≡ true)
          × (build_pool_config W.pool config keys ≡ ok pool))
  start-mining s path secret pool = (
    λ h.
        let (config, keys, r, l, w) = start-ok s path secret (mining pool) h in
        let (o, p, history, bound, c) = start_with-ok config keys (mining pool) w in
        let e = choose_mode-mining config.ui.enabled o pool c in
        let (a, b) =
          (pool_config_if-some (ipc_available R W config) config keys pool).0 (p ∙ ap (ok) e) in
        (
          config,
          keys,
          record {
            config_read = r;
            keys_loaded = l;
            history_open = history;
            dashboard_bound = bound;
          },
          a,
          b,
        ),
    λ h.
        let (config, keys, i, a, b) = h in
        ok-start s path secret config keys (mining pool) (some pool) i
          ((pool_config_if-some (ipc_available R W config) config keys pool).1 (a, b))
          (unfold choose_mode in refl),
  )

  -- The dashboard runs alone exactly when every step of the start succeeds, the socket does not exist,
  -- and the dashboard is enabled.
  pub start-dashboard_only :
      (s : Disk R W) (path : Text) (secret : W.keys.S)
      → ((start R W s path secret).1 ≡ ok dashboard_only) ↔ (
          (config : Config R W) × (keys : AuthorityKeys W.keys.P W.keys.S) × IsStarted s path secret
            config keys
          × (ipc_available R W config ≡ false)
          × (config.ui.enabled ≡ true))
  start-dashboard_only s path secret = (
    λ h.
        let (config, keys, r, l, w) = start-ok s path secret dashboard_only h in
        let (o, p, history, bound, c) = start_with-ok config keys dashboard_only w in
        let (e, enabled) = choose_mode-dashboard config.ui.enabled o c in
        (
          config,
          keys,
          record {
            config_read = r;
            keys_loaded = l;
            history_open = history;
            dashboard_bound = bound;
          },
          (pool_config_if-none (ipc_available R W config) config keys).0 (p ∙ ap (ok) e),
          enabled,
        ),
    λ h.
        let (config, keys, i, a, enabled) = h in
        ok-start s path secret config keys dashboard_only none i
          ((pool_config_if-none (ipc_available R W config) config keys).1 a)
          (rw enabled (unfold choose_mode in refl)),
  )
