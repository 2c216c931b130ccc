-- ===== src/Activity/Template.antt =====
-- The template of the dashboard, which the reader of templates sets.
use canary_mining.Common.{ℕ, Option, some}

pub data TemplateStatusSource : Type 0 where
  ipc_bootstrap ipc_chain_tip ipc_mempool : TemplateStatusSource

pub data TemplateStatusKind : Type 0 where
  available : TemplateStatusKind

pub record TemplateStatusSnapshot (F : Type 0) : Type 0 where
  pub height : ℕ
  pub reward_sats : Option ℕ
  pub fee_sats : Option ℕ
  pub weight : Option ℕ
  pub weight_percent : Option F
  pub transaction_count : ℕ
  pub updated_at : ℕ
  pub source : TemplateStatusSource
  pub status : TemplateStatusKind

-- The status holds the last template, stamped with the time at which it was set.
unfoldable pub set_template :
    {F : Type 0} → ℕ → TemplateStatusSnapshot F → Option (TemplateStatusSnapshot F)
set_template now template = some (record template { updated_at = now })
