-- ===== src/Dashboard/Template.antt =====
-- The template as the dashboard shows it, and the text of the node's warnings.
use canary_mining.Common.{
  ℕ, Bool, not, Option, none, some, List, [], ◌∷◌, retain, is_empty, is_some, if◌then◌else◌,
}
use mathlib.Core.Option
use canary_mining.Common.Text.Basic.{Text, codes, trim, join}
use canary_mining.Activity.Template.{
  TemplateStatusSnapshot, TemplateStatusSource, ipc_bootstrap, ipc_chain_tip, ipc_mempool,
  TemplateStatusKind, available,
}

pub record BlockTemplateStatus (F : Type 0) : Type 0 where
  pub height : ℕ
  pub reward_sats : Option ℕ
  pub fee_sats : Option ℕ
  pub weight : Option ℕ
  pub weight_percent : Option F
  pub transaction_count : ℕ
  pub updated_at : ℕ
  pub source : Text
  pub status : Text

unfoldable pub template_status_source : TemplateStatusSource → Text
template_status_source ipc_bootstrap = codes "ipc_bootstrap"
template_status_source ipc_chain_tip = codes "ipc_chain_tip"
template_status_source ipc_mempool = codes "ipc_mempool"

unfoldable pub template_status_kind : TemplateStatusKind → Text
template_status_kind available = codes "available"

unfoldable pub block_template_status_from_ipc_snapshot :
    {F : Type 0} → TemplateStatusSnapshot F → BlockTemplateStatus F
unfolding template_status_source template_status_kind
block_template_status_from_ipc_snapshot snapshot = record {
  height = snapshot.height;
  reward_sats = snapshot.reward_sats;
  fee_sats = snapshot.fee_sats;
  weight = snapshot.weight;
  weight_percent = snapshot.weight_percent;
  transaction_count = snapshot.transaction_count;
  updated_at = snapshot.updated_at;
  source = template_status_source snapshot.source;
  status = template_status_kind snapshot.status;
}

unfoldable pub cached_block_template_status :
    {F : Type 0} → Option (TemplateStatusSnapshot F) → Bool × Option (BlockTemplateStatus F)
unfolding block_template_status_from_ipc_snapshot
cached_block_template_status snapshot =
    let template = Option.map block_template_status_from_ipc_snapshot snapshot in
    (is_some template, template)

abbrev pub is_blank : Text → Bool
is_blank text = is_empty (trim text)

-- The members of an array that are strings.
unfoldable pub texts_of : {V : Type 0} → (V → Option Text) → List V → List Text
texts_of as_str [] = []
texts_of as_str (v ∷ vs) = elim (as_str v) [
  | none ↦ texts_of as_str vs
  | some text ↦ text ∷ texts_of as_str vs
]

abbrev pub unless_empty : Text → Option Text
unless_empty text = if is_empty text then none else some text

-- A value is a string, an array or neither; the accessors tell which.
unfoldable pub rpc_warning_text :
    {V : Type 0} → (V → Option Text) → (V → Option (List V)) → V → Option Text
unfolding retain join texts_of
rpc_warning_text as_str as_array value = elim (as_str value) [
  | some warning ↦ if is_blank warning then none else some warning
  | none ↦ elim (as_array value) [
    | some warnings ↦
        unless_empty
          (join (codes "; ") (retain (λ text. not (is_blank text)) (texts_of as_str warnings)))
    | none ↦ none
  ]
]
