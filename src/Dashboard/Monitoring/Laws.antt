-- ===== src/Dashboard/Monitoring/Laws.antt =====
-- The rows of the connected miners agree with the identities that they were read from.
use canary_mining.Common.{
  ℕ, ◌^◌, ◌<◌, ◌≡◌, refl, arith, true, Option, none, some, List, [], ◌∷◌, All, All-append,
  Option-cases, inl, inr, subst,
}
use canary_mining.Common.Json.{Json}
use canary_mining.Common.Text.Basic.{Text, codes}
use canary_mining.Common.Float.{Float}
use canary_mining.Config.{Network}
use canary_mining.Address.{AddressLib}
use canary_mining.Identity.{parse_miner_identity}
use canary_mining.Dashboard.Sessions.{MinerRow}
use canary_mining.Dashboard.Workers.{miner_row_id, label_address}
use canary_mining.Dashboard.Monitoring.{
  u64_member, array_member, channel_row, channel_rows, append_channel_rows, append_client,
  channels_path, visit_clients, miners_of, fetch_monitoring_json, fetch_current_miners,
}

module _ (R : Float) (J : Json R.F) (A : AddressLib) (difficulty_float : List ℕ → R.F)
    (http_get : Text → Option J.Value) (network : Network) where
  -- A row of a channel that is open: its label and address are those of its identity, its id is made of
  -- them, and its channel is a `u32`.
  pub record IsCurrent (row : MinerRow R.F) : Type 0 where
    pub connected : row.connected ≡ true
    pub unseen : row.last_seen_at ≡ none
    pub named :
        (row.label, row.payout_address)
        ≡ label_address (parse_miner_identity A row.user_identity network)
    pub id : row.id ≡ miner_row_id network row.user_identity row.label row.payout_address
    pub channel : row.channel_id < 2 ^ 32

  channel_row-IsCurrent :
      (client_id : ℕ) (kind : Text) (channel : J.Value)
      → IsCurrent (channel_row R J A difficulty_float http_get network client_id kind channel)
  unfolding channel_row
  channel_row-IsCurrent client_id kind channel = record {
    connected = refl;
    unseen = refl;
    named = refl;
    id = refl;
    channel = omega arith;
  }

  channel_rows-All :
      (client_id : ℕ) (kind : Text) (channels : List J.Value)
      → All IsCurrent (channel_rows R J A difficulty_float http_get network client_id kind channels)
  unfolding channel_rows
  channel_rows-All client_id kind [] = tt
  channel_rows-All client_id kind (channel ∷ channels) =
      (channel_row-IsCurrent client_id kind channel, channel_rows-All client_id kind channels)

  append_channel_rows-All :
      (client_id : ℕ) (kind : Text) (channels : Option (List J.Value))
      (miners : List (MinerRow R.F))
      → All IsCurrent miners
      → All IsCurrent (
          append_channel_rows R J A difficulty_float http_get network client_id kind channels
            miners)
  unfolding append_channel_rows
  append_channel_rows-All client_id kind none miners a = a
  append_channel_rows-All client_id kind (some channels) miners a =
      All-append IsCurrent miners _ a (channel_rows-All client_id kind channels)

  append_client-All :
      (client_id : ℕ) (channels : J.Value) (miners : List (MinerRow R.F))
      → All IsCurrent miners
      → All IsCurrent
          (append_client R J A difficulty_float http_get network client_id channels miners)
  append_client-All client_id channels miners a =
      let kind : Text → Option (List J.Value) =
        λ key. array_member R J A difficulty_float http_get key channels in
      append_channel_rows-All client_id (codes "extended") (kind (codes "extended_channels"))
        (append_channel_rows R J A difficulty_float http_get network client_id (codes "standard")
          (kind (codes "standard_channels")) miners)
        (append_channel_rows-All client_id (codes "standard") (kind (codes "standard_channels"))
          miners a)

  AllIn : Option (List (MinerRow R.F)) → Type 0
  AllIn none = Unit
  AllIn (some rows) = All IsCurrent rows

  visit_clients-All :
      (base : Option Text) (items : List J.Value) (miners : List (MinerRow R.F))
      → All IsCurrent miners
      → AllIn (visit_clients R J A difficulty_float http_get base network items miners)
  unfolding visit_clients AllIn
  visit_clients-All base [] miners a = a
  visit_clients-All base (item ∷ items) miners a =
      elim (Option-cases (u64_member R J A difficulty_float http_get (codes "client_id") item)) [
        | inl e ↦ rw (visit_clients, e) (visit_clients-All base items miners a)
        | inr (client_id, e) ↦
            elim (Option-cases (
              fetch_monitoring_json R J A difficulty_float http_get base
                (channels_path R J A difficulty_float http_get client_id))) [
                  | inl f ↦ rw (visit_clients, e, f) tt
                  | inr (channels, f) ↦
                      rw (visit_clients, e, f)
                        (visit_clients-All base items
                          (append_client R J A difficulty_float http_get network client_id channels
                            miners)
                          (append_client-All client_id channels miners a))
                ]
      ]

  miners_of-All :
      (base : Option Text) (items : Option (List J.Value))
      → AllIn (miners_of R J A difficulty_float http_get base network items)
  unfolding AllIn
  miners_of-All base none = tt
  miners_of-All base (some items) = visit_clients-All base items [] tt

  -- Every row of the current miners is current, whatever the monitoring API answers.
  pub fetch_current_miners-All :
      (base : Option Text) (rows : List (MinerRow R.F))
      → fetch_current_miners R J A difficulty_float http_get base network ≡ some rows
      → All IsCurrent rows
  unfolding fetch_current_miners AllIn
  fetch_current_miners-All base rows h = subst AllIn h (miners_of-All base _)
