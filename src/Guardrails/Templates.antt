-- ===== src/Guardrails/Templates.antt =====
-- wallet-sdk/src/guardrails/templates.ts; descriptions are left out.
use reth_monmouth.Common.{ℕ, ◌+◌, ◌*◌, Bool, false, ◌&&◌, [], ltb, or_else}
use reth_monmouth.Common.Int.{ℤ, pos, ltb_ℤ}
use reth_monmouth.Guardrails.Policy.{
  AgentType, research, trading, coordinator, commerce, SpendingPolicy, PolicyOverrides,
}

abbrev hour : ℕ
hour = 3_600_000

abbrev day : ℕ
day = 86_400_000

-- `eth(1)`; the fractions of an ether that the templates name are exact.
abbrev ether : ℕ
ether = 1_000_000_000_000_000_000

pub record PermissionTemplate : Type 0 where
  pub max_per_transaction : ℤ
  pub max_per_day : ℤ
  pub session_duration : ℕ
  pub can_deploy_contracts : Bool

unfoldable pub permission_templates : AgentType → PermissionTemplate
permission_templates research = record {
  max_per_transaction = pos 100_000_000_000_000_000;
  max_per_day = pos ether;
  session_duration = 24 * hour;
  can_deploy_contracts = false;
}
permission_templates trading = record {
  max_per_transaction = pos (10 * ether);
  max_per_day = pos (100 * ether);
  session_duration = hour;
  can_deploy_contracts = false;
}
permission_templates coordinator = record {
  max_per_transaction = pos 10_000_000_000_000_000;
  max_per_day = pos 100_000_000_000_000_000;
  session_duration = 7 * day;
  can_deploy_contracts = false;
}
permission_templates commerce = record {
  max_per_transaction = pos ether;
  max_per_day = pos (10 * ether);
  session_duration = 4 * hour;
  can_deploy_contracts = false;
}

unfoldable pub create_policy_from_template : ℕ → AgentType → PolicyOverrides → SpendingPolicy
unfolding permission_templates
create_policy_from_template now agent_type overrides =
    let template = permission_templates agent_type in
    record {
      max_per_transaction = or_else overrides.max_per_transaction template.max_per_transaction;
      max_per_day = or_else overrides.max_per_day template.max_per_day;
      allowed_addresses = or_else overrides.allowed_addresses [];
      blocked_addresses = or_else overrides.blocked_addresses [];
      allowed_selectors = or_else overrides.allowed_selectors [];
      session_expiry = or_else overrides.session_expiry (now + template.session_duration);
      can_deploy_contracts = or_else overrides.can_deploy_contracts template.can_deploy_contracts;
    }

-- `createMinimalPolicy`: its session has expired already.
unfoldable pub create_minimal_policy : ℕ → SpendingPolicy
create_minimal_policy now = record {
  max_per_transaction = pos 0;
  max_per_day = pos 0;
  allowed_addresses = [];
  blocked_addresses = [];
  allowed_selectors = [];
  session_expiry = now;
  can_deploy_contracts = false;
}

unfoldable pub get_default_session_duration : AgentType → ℕ
unfolding permission_templates
get_default_session_duration agent_type = (permission_templates agent_type).session_duration

unfoldable pub is_policy_active : ℕ → SpendingPolicy → Bool
is_policy_active now policy =
    ltb_ℤ (pos 0) policy.max_per_transaction
    && ltb_ℤ (pos 0) policy.max_per_day
    && ltb now policy.session_expiry
