-- ===== src/Serving/Cache.antt =====
-- CapabilityCache (server/server.go): what changed since the last notification, what there is, and
-- the notifications that wait for the client. `N` stands for an encoded notification.
use gomcp.Prelude.{Bool, true, false, List, [], ◌∷◌, ◌++◌}

module _ {ℓ} (N : Type ℓ) where
  pub record CapabilityCache : Type ℓ where
    pub tools_changed : Bool
    pub resources_changed : Bool
    pub prompts_changed : Bool
    pub has_tools : Bool
    pub has_resources : Bool
    pub has_prompts : Bool
    pub pending_notifications : List N

module _ {ℓ} {N : Type ℓ} where
  abbrev pub new_capability_cache : CapabilityCache N
  new_capability_cache = record {
    tools_changed = false;
    resources_changed = false;
    prompts_changed = false;
    has_tools = false;
    has_resources = false;
    has_prompts = false;
    pending_notifications = [];
  }

  unfoldable pub mark_tools_changed : CapabilityCache N → CapabilityCache N
  mark_tools_changed c = record c { tools_changed = true; has_tools = true }

  unfoldable pub mark_resources_changed : CapabilityCache N → CapabilityCache N
  mark_resources_changed c = record c { resources_changed = true; has_resources = true }

  unfoldable pub mark_prompts_changed : CapabilityCache N → CapabilityCache N
  mark_prompts_changed c = record c { prompts_changed = true; has_prompts = true }

  unfoldable pub queue_notification : N → CapabilityCache N → CapabilityCache N
  queue_notification n c = record c { pending_notifications = c.pending_notifications ++ (n ∷ []) }

  unfoldable pub get_pending_notifications : CapabilityCache N → CapabilityCache N × List N
  get_pending_notifications c = (record c { pending_notifications = [] }, c.pending_notifications)

  unfoldable pub reset_change_flags : CapabilityCache N → CapabilityCache N
  reset_change_flags c = record c {
    tools_changed = false;
    resources_changed = false;
    prompts_changed = false;
  }
