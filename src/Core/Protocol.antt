-- ===== src/Core/Protocol.antt =====
-- rustend-core/src/protocol.rs: the bodies of requests and responses.
use rustend.Prelude.{List, Option}
use rustend.Core.Ids.{ObjectId, RevisionId, ClientId, UserId, TransactionId, Text}
use rustend.Core.Revision.{Revision}
use rustend.Core.Filter.{CreatedAtFilter, FilterCondition}

pub data RejectionReason : Type 0 where
  duplicate_revision_id unknown_parent malformed_data : RejectionReason

pub record RejectedRevision : Type 0 where
  pub revision_id : RevisionId
  pub reason : RejectionReason

pub record PushRequest (V : Type 0) : Type 0 where
  pub revisions : List (Revision V)

pub record PushResponse : Type 0 where
  pub transaction_id : TransactionId
  pub accepted : List RevisionId
  pub rejected : List RejectedRevision

pub record PullRequest (V : Type 0) : Type 0 where
  pub since : Option TransactionId
  pub object_types : Option (List Text)
  pub created_at : Option (List CreatedAtFilter)
  pub filter : Option (List (List (FilterCondition V)))

pub data HeadAction : Type 0 where
  replace conflict : HeadAction

pub record ObjectUpdate (V : Type 0) : Type 0 where
  pub object_id : ObjectId
  pub action : HeadAction
  pub heads : List (Revision V)

pub record PullResponse (V : Type 0) : Type 0 where
  pub up_to_transaction : TransactionId
  pub object_updates : List (ObjectUpdate V)

pub record WhoAmIResponse : Type 0 where
  pub client_id : ClientId
  pub user_id : UserId
  pub roles : List Text
