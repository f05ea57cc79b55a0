-- ===== src/Templates.antt =====
-- app/services/email_templates.py: the template that one event sees, from the base row and its override.
use resource_mgmt_app.Base.{
  ℕ, Bool, true, false, not, ◌&&◌, Option, none, some, List, is_some, find?, ◌==◌, is_value,
}
use resource_mgmt_app.Base.Text.{Text, eqb_text}

pub record EmailTemplate : Type 0 where
  pub id : ℕ
  pub template_key : Text
  pub subject : Text
  pub body_text : Text
  pub is_active : Bool
  pub version : ℕ

pub record EmailTemplateEventOverride : Type 0 where
  pub id : ℕ
  pub email_template_id : ℕ
  pub event_cycle_id : ℕ
  pub subject : Option Text
  pub body_text : Option Text
  pub is_active : Option Bool
  pub send_window_start : Option ℕ
  pub send_window_end : Option ℕ
  pub base_version_at_override : Option ℕ

pub record EffectiveTemplate : Type 0 where
  pub template_key : Text
  pub subject : Text
  pub body_text : Text
  pub is_active : Bool
  pub send_window_start : Option ℕ
  pub send_window_end : Option ℕ
  pub base_version : ℕ
  pub override_id : Option ℕ
  pub is_stale : Bool

-- the two tables
pub record Templates : Type 0 where
  pub bases : List EmailTemplate
  pub overrides : List EmailTemplateEventOverride

unfoldable pub get_template : Templates → Text → Option EmailTemplate
get_template tables key = find? (λ t. eqb_text t.template_key key) tables.bases

-- the override of a template for an event, where there is an event
unfoldable pub find_override :
    Templates → EmailTemplate → Option ℕ → Option EmailTemplateEventOverride
find_override tables base none = none
find_override tables base (some cycle_id) =
    find? (λ o. o.email_template_id == base.id && o.event_cycle_id == cycle_id) tables.overrides

-- `value if value is not None else default`
or_inherited : {A : Type 0} → Option A → A → A
or_inherited none default = default
or_inherited (some value) default = value

unfoldable pub merge : Text → EmailTemplate → Option EmailTemplateEventOverride → EffectiveTemplate
unfolding or_inherited
merge key base none = record {
  template_key = key;
  subject = base.subject;
  body_text = base.body_text;
  is_active = base.is_active;
  send_window_start = none;
  send_window_end = none;
  base_version = base.version;
  override_id = none;
  is_stale = false;
}
merge key base (some override) = record {
  template_key = key;
  subject = or_inherited override.subject base.subject;
  body_text = or_inherited override.body_text base.body_text;
  is_active = base.is_active && or_inherited override.is_active true;
  send_window_start = override.send_window_start;
  send_window_end = override.send_window_end;
  base_version = base.version;
  override_id = some override.id;
  is_stale =
      is_some override.base_version_at_override
      && not (is_value override.base_version_at_override base.version);
}

resolve_base : Templates → Text → Option ℕ → Option EmailTemplate → Option EffectiveTemplate
unfolding find_override merge
resolve_base tables key cycle_id none = none
resolve_base tables key cycle_id (some base) =
    some (merge key base (find_override tables base cycle_id))

unfoldable pub get_effective_template : Templates → Text → Option ℕ → Option EffectiveTemplate
unfolding get_template resolve_base
get_effective_template tables key cycle_id =
    resolve_base tables key cycle_id (get_template tables key)
