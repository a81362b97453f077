-- ===== src/Protocol.antt =====
-- internal/harbor/protocol.go: the messages between the broker and its clients.
use adb_harbor.Prelude.{ℕ, Bool, List, Option}
use adb_harbor.Text.{Text}
use adb_harbor.Map.{Map}

pub record AcquireReq : Type 0 where
  pub serial : Text
  pub session : Text
  pub holder : Text
  pub pid : ℕ
  pub idle_ttl_sec : ℕ
  pub ttl_sec : ℕ
  pub explicit : Bool
  pub command : Bool

pub record AcquireResp : Type 0 where
  pub granted : Bool
  pub lease_id : Text
  pub waiter_id : Text
  pub position : ℕ
  pub holder_desc : Text

pub record WaitResp : Type 0 where
  pub granted : Bool
  pub lease_id : Text
  pub position : ℕ
  pub holder_desc : Text
  pub expired : Bool

pub record AcquireAnyReq : Type 0 where
  pub session : Text
  pub holder : Text
  pub pid : ℕ
  pub ttl_sec : ℕ
  pub usb : Bool
  pub emulator : Bool

pub record AcquireAnyResp : Type 0 where
  pub granted : Bool
  pub serial : Text
  pub lease_id : Text
  pub message : Text

pub record ReleaseReq : Type 0 where
  pub serial : Text
  pub lease_id : Text
  pub session : Text
  pub force : Bool

pub record ReleaseResp : Type 0 where
  pub released : Bool
  pub message : Text

pub record LeaseInfo : Type 0 where
  pub id : Text
  pub serial : Text
  pub session : Text
  pub holder : Text
  pub pid : ℕ
  pub acquired_at : ℕ
  pub last_active : ℕ
  pub running : ℕ
  pub idle_ttl_sec : ℕ
  pub explicit : Bool
  pub expires_at : Option ℕ

pub record WaiterInfo : Type 0 where
  pub session : Text
  pub holder : Text
  pub enqueued : ℕ

pub record StateResp : Type 0 where
  pub leases : List LeaseInfo
  pub queues : Map (List WaiterInfo)

pub record DeviceInfo : Type 0 where
  pub serial : Text
  pub state : Text
  pub model : Text
  pub lease : Option LeaseInfo
  pub waiting : ℕ
  pub cleaning : Bool

pub record DevicesResp : Type 0 where
  pub devices : List DeviceInfo
  pub error : Text
