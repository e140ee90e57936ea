-- ===== src/Ticket.antt =====
-- The data of tickets: backend/internal/domain/ticket/ticket.go, the actor of service.go and the
-- roles of backend/internal/domain/user/user.go.
pub mod Tracking
pub mod Attachments
pub mod Listing
pub mod Search
mod Tests
pub mod Rules
pub mod Store
pub mod Service
pub mod Operation
pub mod Authority
pub mod Replying
pub mod Quiet
pub mod Stable
pub mod Rows
pub mod Outcome
pub mod Atomic
pub mod Identity
pub mod Numbering
use open_help_desk.Base.{ℕ, Bool, true, false, Option, none, some, Uuid, Time}
use open_help_desk.Base.Text.{Text, codes}
use open_help_desk.Base.Int.{ℤ}

-- A `user.Role`: a string, of which three are valid.
pub data Role : Type 0 where
  admin staff user : Role
  other_role : Text → Role

-- A `Priority`: a string, of which four are accepted by the database.
pub data Priority : Type 0 where
  critical high medium low : Priority
  other_priority : Text → Priority

pub data StatusKind : Type 0 where
  system custom : StatusKind
  other_kind : Text → StatusKind

abbrev pub status_name_new : Text
status_name_new = codes "New"

abbrev pub status_name_resolved : Text
status_name_resolved = codes "Resolved"

abbrev pub status_name_closed : Text
status_name_closed = codes "Closed"

pub record Status : Type 0 where
  pub id : Uuid
  pub name : Text
  pub kind : StatusKind
  pub sort_order : ℤ
  pub color : Text
  pub active : Bool

-- The columns of `ticket_status_history`; the names and colours of a `StatusHistoryEntry` are
-- joined in when it is listed.
pub record StatusHistoryEntry : Type 0 where
  pub id : Uuid
  pub ticket_id : Uuid
  pub from_status_id : Option Uuid
  pub to_status_id : Uuid
  pub changed_by_user_id : Option Uuid
  pub created_at : Time

pub data LinkType : Type 0 where
  related_to parent_child caused_by duplicate_of : LinkType
  other_link : Text → LinkType

pub record TicketLink : Type 0 where
  pub source_ticket_id : Uuid
  pub target_ticket_id : Uuid
  pub link_type : LinkType

pub record Ticket : Type 0 where
  pub id : Uuid
  pub tracking_number : Text
  pub subject : Text
  pub description : Text
  pub category_id : Uuid
  pub type_id : Option Uuid
  pub item_id : Option Uuid
  pub priority : Priority
  pub status_id : Uuid
  pub assignee_user_id : Option Uuid
  pub assignee_group_id : Option Uuid
  pub reporter_user_id : Option Uuid
  pub guest_email : Option Text
  pub guest_name : Text
  pub guest_phone : Text
  pub resolution_notes : Option Text
  pub resolved_at : Option Time
  pub closed_at : Option Time
  pub created_at : Time
  pub updated_at : Time

pub record Reply : Type 0 where
  pub id : Uuid
  pub ticket_id : Uuid
  pub author_id : Option Uuid
  pub guest_token : Option Text
  pub body : Text
  pub internal : Bool
  pub notify_customer : Bool
  pub created_at : Time

pub record Attachment : Type 0 where
  pub id : Uuid
  pub ticket_id : Uuid
  pub filename : Text
  pub mime_type : Text
  pub size_bytes : ℕ
  pub storage_path : Text
  pub created_at : Time

-- Who performs an operation; a system actor has no user.
pub record Actor : Type 0 where
  pub user_id : Option Uuid
  pub role : Role

abbrev pub system_actor : Actor
system_actor = record { user_id = none; role = admin }

-- `role == user.RoleAdmin`, and so on
abbrev pub is_admin : Role → Bool
is_admin admin = true
is_admin _ = false

abbrev pub is_staff : Role → Bool
is_staff staff = true
is_staff _ = false

abbrev pub is_user : Role → Bool
is_user user = true
is_user _ = false

-- The strings of the enumerations, by which Go and the database compare them.
abbrev pub priority_text : Priority → Text
priority_text critical = codes "critical"
priority_text high = codes "high"
priority_text medium = codes "medium"
priority_text low = codes "low"
priority_text (other_priority s) = s

abbrev pub link_text : LinkType → Text
link_text related_to = codes "related_to"
link_text parent_child = codes "parent_child"
link_text caused_by = codes "caused_by"
link_text duplicate_of = codes "duplicate_of"
link_text (other_link s) = s

-- `status.Kind == StatusKindCustom`
abbrev pub is_custom : StatusKind → Bool
is_custom custom = true
is_custom _ = false
