-- ===== src/Enums.antt =====
-- common/enums/*.ts: the enumerations, their `===`, and the two orders.
use issueflow.Prelude.{
  ℕ, zero, suc, ◌≡◌, Bool, true, false, Option, none, some, List, [], ◌∷◌, arith, if◌then◌else◌,
}

pub data TicketStatus : Type 0 where
  todo in_progress in_review done : TicketStatus

pub data TicketPriority : Type 0 where
  low medium high critical : TicketPriority

pub data TicketType : Type 0 where
  bug feature technical : TicketType

pub data UserRole : Type 0 where
  admin developer : UserRole

pub data ActorType : Type 0 where
  by_user by_system : ActorType

pub data EntityType : Type 0 where
  user_entity project_entity ticket_entity comment_entity attachment_entity : EntityType
  dependency_entity : EntityType

pub data AuditAction : Type 0 where
  create_action update_action delete_action restore_action auto_escalate auto_assign : AuditAction
  login_action login_failed : AuditAction

abbrev pub status_eq : TicketStatus → TicketStatus → Bool
status_eq todo todo = true
status_eq in_progress in_progress = true
status_eq in_review in_review = true
status_eq done done = true
status_eq _ _ = false

abbrev pub priority_eq : TicketPriority → TicketPriority → Bool
priority_eq low low = true
priority_eq medium medium = true
priority_eq high high = true
priority_eq critical critical = true
priority_eq _ _ = false

abbrev pub role_eq : UserRole → UserRole → Bool
role_eq admin admin = true
role_eq developer developer = true
role_eq _ _ = false

abbrev pub actor_eq : ActorType → ActorType → Bool
actor_eq by_user by_user = true
actor_eq by_system by_system = true
actor_eq _ _ = false

abbrev pub action_eq : AuditAction → AuditAction → Bool
action_eq create_action create_action = true
action_eq update_action update_action = true
action_eq delete_action delete_action = true
action_eq restore_action restore_action = true
action_eq auto_escalate auto_escalate = true
action_eq auto_assign auto_assign = true
action_eq login_action login_action = true
action_eq login_failed login_failed = true
action_eq _ _ = false

abbrev pub entity_eq : EntityType → EntityType → Bool
entity_eq user_entity user_entity = true
entity_eq project_entity project_entity = true
entity_eq ticket_entity ticket_entity = true
entity_eq comment_entity comment_entity = true
entity_eq attachment_entity attachment_entity = true
entity_eq dependency_entity dependency_entity = true
entity_eq _ _ = false

abbrev pub ticket_status_order : List TicketStatus
ticket_status_order = todo ∷ in_progress ∷ in_review ∷ done ∷ []

abbrev pub ticket_priority_order : List TicketPriority
ticket_priority_order = low ∷ medium ∷ high ∷ critical ∷ []

-- `indexOf`, on an array that holds the value: every member stands in its order array.
abbrev pub index_of : {A : Type 0} → (A → A → Bool) → A → List A → ℕ
index_of eq a [] = 0
index_of eq a (x ∷ xs) = if eq x a then 0 else suc (index_of eq a xs)

abbrev pub status_index : TicketStatus → ℕ
status_index s = index_of status_eq s ticket_status_order

abbrev pub priority_index : TicketPriority → ℕ
priority_index p = index_of priority_eq p ticket_priority_order

abbrev pub get_elem? : {A : Type 0} → List A → ℕ → Option A
get_elem? [] i = none
get_elem? (x ∷ xs) zero = some x
get_elem? (x ∷ xs) (suc i) = get_elem? xs i

pub status_eq_sound : (a b : TicketStatus) → status_eq a b ≡ true → a ≡ b
status_eq_sound a b h = ground arith

pub status_eq_refl : (a : TicketStatus) → status_eq a a ≡ true
status_eq_refl a = ground arith

pub priority_eq_sound : (a b : TicketPriority) → priority_eq a b ≡ true → a ≡ b
priority_eq_sound a b h = ground arith

pub role_eq_sound : (a b : UserRole) → role_eq a b ≡ true → a ≡ b
role_eq_sound a b h = ground arith
