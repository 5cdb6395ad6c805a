-- ===== src/Api/Resources/Gates.antt =====
-- api/v1alpha1: approvals, freeze windows, promotion policies and notifiers. A
-- `LocalObjectReference` is its name, an `int32` an integer, and a duration its nanoseconds.
use keleustes.Base.{Bool, ℕ, Str, Option, List}
use keleustes.Base.Int.{ℤ}
use keleustes.Api.Resources.{ObjectMeta, Condition}

abbrev pub ApprovalDecision : Type 0
ApprovalDecision = Str

pub record ApprovalSpec : Type 0 where
  pub promotion_ref : Str
  pub decision : ApprovalDecision
  pub reviewer : Str
  pub comment : Str

pub record ApprovalStatus : Type 0 where
  pub observed_generation : ℕ
  pub recorded_at : Option ℕ
  pub conditions : List Condition

pub record Approval : Type 0 where
  pub meta : ObjectMeta
  pub spec : ApprovalSpec
  pub status : ApprovalStatus

pub record FreezeWindowSpec : Type 0 where
  pub reason : Str
  pub start : ℕ
  pub end_time : ℕ
  pub environments : List Str
  pub cells : List Str

pub record FreezeWindowStatus : Type 0 where
  pub observed_generation : ℕ
  pub active : Bool
  pub conditions : List Condition

pub record FreezeWindow : Type 0 where
  pub meta : ObjectMeta
  pub spec : FreezeWindowSpec
  pub status : FreezeWindowStatus

pub record PromotionPolicySpec : Type 0 where
  pub required : List Str

pub record PromotionPolicyStatus : Type 0 where
  pub observed_generation : ℕ
  pub conditions : List Condition

pub record PromotionPolicy : Type 0 where
  pub meta : ObjectMeta
  pub spec : PromotionPolicySpec
  pub status : PromotionPolicyStatus

pub record SecretKeyRef : Type 0 where
  pub name : Str
  pub key : Str

pub record NotifierWebhookEndpoint : Type 0 where
  pub url : Str
  pub auth_secret_ref : Option SecretKeyRef

pub record NotifierEndpoint : Type 0 where
  pub builtin : Str
  pub webhook : Option NotifierWebhookEndpoint

pub record NotifierEventSelector : Type 0 where
  pub includes : List Str
  pub excludes : List Str

pub record NotifierFilters : Type 0 where
  pub environments : List Str
  pub applications : List Str

pub record NotifierDelivery : Type 0 where
  pub mode : Str
  pub timeout : Option ℤ
  pub retries : ℤ
  pub backoff : Str

pub record NotifierSpec : Type 0 where
  pub endpoint : NotifierEndpoint
  pub events : NotifierEventSelector
  pub filters : NotifierFilters
  pub delivery : NotifierDelivery

pub record NotifierStatus : Type 0 where
  pub observed_generation : ℕ
  pub conditions : List Condition

pub record Notifier : Type 0 where
  pub meta : ObjectMeta
  pub spec : NotifierSpec
  pub status : NotifierStatus
