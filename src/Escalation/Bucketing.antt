-- ===== src/Escalation/Bucketing.antt =====
-- What the buckets hold for each ticket id, while ids are unique.
use issueflow.Prelude.{
  ℕ, ◌≡◌, refl, true, false, Bool, Option, none, some, List, [], ◌∷◌, ◌++◌, arith, contains,
  find_one, ◌==◌, ==_iff, ==_refl, Bool-cases, inl, inr, not, if◌then◌else◌,
}
use issueflow.Enums.{TicketPriority, priority_eq}
use issueflow.Entities.{Ticket}
use issueflow.Tickets.Ids.{UniqueIds, ids_of}
use issueflow.Escalation.{
  Buckets, PriorityBumps, push_bump, next_priority, bucket_ticket, bucket_from,
  bucket_by_transition, no_buckets,
}

-- The keys of the groups that hold the id, in the order of the map.
unfoldable pub hits : PriorityBumps → ℕ → List TicketPriority
hits [] n = []
hits ((q, g) ∷ m) n = let rest = hits m n in if contains (ids_of g) n then q ∷ rest else rest

contains-append_one :
    (ts : List Ticket) (t : Ticket) (n : ℕ)
    → contains (ids_of (ts ++ t ∷ [])) n ≡ (if t.id == n then true else contains (ids_of ts) n)
unfolding contains
contains-append_one [] t n = ground arith
contains-append_one (x ∷ xs) t n = ground (arith, contains-append_one xs t n)

hits-push_other :
    (p : TicketPriority) (t : Ticket) (m : PriorityBumps) (n : ℕ)
    → t.id == n ≡ false
    → hits (push_bump p t m) n ≡ hits m n
unfolding hits push_bump contains
hits-push_other p t [] n h = ground arith
hits-push_other p t ((q, g) ∷ m) n h =
    ground (arith, contains-append_one g t n, hits-push_other p t m n h)

priority_eq_sound : (q p : TicketPriority) → priority_eq q p ≡ true → q ≡ p
priority_eq_sound q p h = ground arith

hits-push_own :
    (p : TicketPriority) (t : Ticket) (m : PriorityBumps) (n : ℕ)
    → t.id == n ≡ true
    → hits m n ≡ []
    → hits (push_bump p t m) n ≡ p ∷ []
unfolding hits push_bump contains
hits-push_own p t [] n h e = ground arith
hits-push_own p t ((q, g) ∷ m) n h e =
    ground (arith, contains-append_one g t n, hits-push_own p t m n h, priority_eq_sound q p)

-- What the buckets say of one id.
pub record Holds (b : Buckets) (n : ℕ) (keys : List TicketPriority) (flip : Bool) : Type 0 where
  pub bumps : hits b.priority_bumps n ≡ keys
  pub flips : contains (ids_of b.critical_flip) n ≡ flip

bucket_ticket-other :
    (t : Ticket) (b : Buckets) (n : ℕ) {keys : List TicketPriority} {flip : Bool}
    → t.id == n ≡ false
    → Holds b n keys flip
    → Holds (bucket_ticket t b) n keys flip
unfolding bucket_ticket
bucket_ticket-other t b n h k = ground (
  arith,
  hits-push_other t.priority t b.priority_bumps n h,
  contains-append_one b.critical_flip t n,
)

abbrev pub keys_for : Ticket → List TicketPriority
keys_for t = elim (next_priority t.priority) [ none ↦ [] | some to ↦ t.priority ∷ [] ]

abbrev pub flip_for : Ticket → Bool
flip_for t = elim (next_priority t.priority) [ none ↦ not t.is_overdue | some to ↦ false ]

bucket_ticket-own :
    (t : Ticket) (b : Buckets)
    → Holds b t.id [] false
    → Holds (bucket_ticket t b) t.id (keys_for t) (flip_for t)
unfolding bucket_ticket
bucket_ticket-own t b k = ground (
  arith,
  hits-push_own t.priority t b.priority_bumps t.id (==_refl t.id),
  contains-append_one b.critical_flip t t.id,
  ==_refl t.id,
)

bucket_from-other :
    (ts : List Ticket) (b : Buckets) (n : ℕ) {keys : List TicketPriority} {flip : Bool}
    → contains (ids_of ts) n ≡ false
    → Holds b n keys flip
    → Holds (bucket_from b ts) n keys flip
unfolding bucket_from contains
bucket_from-other [] b n h k = k
bucket_from-other (t ∷ ts) b n h k =
    bucket_from-other ts (bucket_ticket t b) n (ground arith)
      (bucket_ticket-other t b n (ground arith) k)

abbrev pub keys_at : Option Ticket → List TicketPriority
keys_at none = []
keys_at (some t) = keys_for t

abbrev pub flip_at : Option Ticket → Bool
flip_at none = false
flip_at (some t) = flip_for t

-- From buckets that hold nothing for an id, the buckets hold just what the ticket of that id asks.
pub bucket_from-Holds :
    (ts : List Ticket) (b : Buckets) (n : ℕ)
    → UniqueIds ts
    → Holds b n [] false
    → Holds
        (bucket_from b ts)
        n
        (keys_at (find_one (λ t. t.id == n) ts))
        (flip_at (find_one (λ t. t.id == n) ts))
unfolding bucket_from find_one
bucket_from-Holds [] b n u k = k
bucket_from-Holds (t ∷ ts) b n u k = elim (Bool-cases (t.id == n)) [
  | inl same ↦
      let e : t.id ≡ n = (==_iff t.id n).0 same in
      rw same (
        rw (← e)
          (bucket_from-other ts (bucket_ticket t b) t.id u.0 (bucket_ticket-own t b (rw e k))))
  | inr other ↦
      rw other (bucket_from-Holds ts (bucket_ticket t b) n u.1 (bucket_ticket-other t b n other k))
]

nothing_held : (n : ℕ) → Holds no_buckets n [] false
unfolding hits contains
nothing_held n = record { bumps = refl; flips = refl }

pub bucket_by_transition-Holds :
    (ts : List Ticket) (n : ℕ)
    → UniqueIds ts
    → Holds
        (bucket_by_transition ts)
        n
        (keys_at (find_one (λ t. t.id == n) ts))
        (flip_at (find_one (λ t. t.id == n) ts))
unfolding bucket_by_transition
bucket_by_transition-Holds ts n u = bucket_from-Holds ts no_buckets n u (nothing_held n)
