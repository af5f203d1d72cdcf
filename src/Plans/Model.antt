-- ===== src/Plans/Model.antt =====
-- work_plans/models.py: plans and their items, as far as planning and control read them. The rows of
-- PlanDependency and ItemDependency are the lists `depends_on`; a text that has only to be there is
-- a Boolean.
use autohub.Base.{ℕ, Bool, Option, List}

pub data PlanState : Type 0 where
  draft proposed paused active completed revoked : PlanState

pub data ItemState : Type 0 where
  item_waiting item_preparing item_preparation_failed item_running item_attention item_succeeded
        item_revoked item_failed item_blocked item_paused item_canceled :
      ItemState

pub record WorkPlan : Type 0 where
  pub id : ℕ
  pub project_id : ℕ
  pub registration_request_id : Option ℕ
  pub registration_digest : Option ℕ
  pub group_key : Option ℕ
  pub base_branch : ℕ
  pub repository : ℕ
  pub connector_id : ℕ
  pub scheduled_at : Option ℕ
  pub state : PlanState
  pub revision : ℕ
  pub completed_at : Option ℕ
  pub depends_on : List ℕ

-- `WorkItemWrite`, and the part of a row that it gives.
pub record WorkItemWrite : Type 0 where
  pub key : ℕ
  pub has_title : Bool
  pub has_description : Bool
  pub has_acceptance : Bool
  pub attach_branch : Option ℕ
  pub depends_on : List ℕ

pub record WorkItem : Type 0 where
  pub plan_id : ℕ
  pub spec : WorkItemWrite
  pub state : ItemState
  pub started_at : Option ℕ
  pub completed_at : Option ℕ

pub record Project : Type 0 where
  pub id : ℕ
  pub github_repository : Option ℕ
  pub github_connector_id : Option ℕ

pub record Store : Type 0 where
  pub plans : List WorkPlan
  pub items : List WorkItem
