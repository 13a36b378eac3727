-- ===== src/Lifecycle.antt =====
-- The lifecycle of a business action: its receipts (packages/agent-kernel/src/receipts.ts), the
-- repository (packages/infrastructure/src/inMemoryRepositories.ts) and the service
-- (packages/application/src/actionService.ts). This file has the data that they share.
pub mod Environment
pub mod Receipts
pub mod Repository
pub mod Service
pub mod Guards
pub mod Once
pub mod Authority
pub mod Chain
pub mod Outcome
use eauto_ai.Prelude.{ℕ, String, Option, List}
use eauto_ai.Prelude.Assoc.{Assoc}
use eauto_ai.Action.{BusinessAction, Approval, ExactChange, RiskLevel}
use eauto_ai.Outbox.{Outbox}

pub data ReceiptType : Type 0 where
  proposal review approval execution verification outcome : ReceiptType

-- The payloads that the service writes to events and receipts.
pub data Payload : Type 0 where
  proposed_by : String → Payload
  exact_changes : List ExactChange → (proposed_by : String) → Payload
  reviewed_by : String → RiskLevel → Payload
  approved_by : String → (approval_id : String) → Payload
  approval_record : Approval → Payload
  requested_by : String → Payload
  executed_for : String → (provider_receipt : String) → Payload
  provider_receipt : String → Payload
  verified_for : String → (observed_state : String) → Payload
  observed_state : String → Payload
  unknown_outcome : String → (error : String) → Payload

pub record LifecyclePayload : Type 0 where
  pub action_id : String
  pub account_id : String
  pub payload : Payload

pub record ReceiptDraft : Type 0 where
  pub id : String
  pub type : ReceiptType
  pub account_id : String
  pub action_id : String
  pub content_hash : String
  pub policy_hash : String
  pub evidence_hash : String
  pub payload : Payload
  pub recorded_at : ℕ

pub record VerifiableReceipt : Type 0 where
  pub draft : ReceiptDraft
  pub open draft use *
  pub previous_receipt_hash : Option String
  pub payload_hash : String
  pub chain_hash : String

-- The stores behind the repository.
pub record Store : Type 0 where
  pub actions : Assoc BusinessAction
  pub approvals : Assoc Approval
  pub receipts : List VerifiableReceipt
  pub outbox : Outbox LifecyclePayload

-- The stores, and how often the environment was asked.
pub record World : Type 0 where
  pub store : Store
  pub open store use *
  pub asked : ℕ
