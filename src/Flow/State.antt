-- ===== src/Flow/State.antt =====
-- The state of the connection table. Entries are shared by the table and by the fragment table, so
-- they live in a heap: a reference is a number, `next` the first one that is free. Times and
-- durations are nanoseconds. The callbacks' calls are recorded: `events` holds what onEvent was
-- given and `learned` what the Learner was given, newest first.
use bound_gate_vpn.Prelude.{
  ℕ, ◌*◌, ◌≡◌, ◌↔◌, Bool, true, false, ◌&&◌, ◌||◌, Option, none, some, arith, ltb, ◌==◌,
  if◌then◌else◌, Bytes, bytes_eq, Eq, List, [], ◌∷◌,
}
use bound_gate_vpn.Prelude.Assoc.{lookup}
use bound_gate_vpn.Netip.{
  Addr, AddrPort, less, same_addr, same_addr_iff, same_addr_port, same_addr_port_iff, addr_eq,
  addr_port_eq,
}
use bound_gate_vpn.Netparse.Header.{Header}
use bound_gate_vpn.Registry.{Session, Node}

pub record Key : Type 0 where
  pub a : AddrPort
  pub b : AddrPort
  pub proto : ℕ

abbrev pub same_key : Key → Key → Bool
same_key k l = same_addr_port k.a l.a && same_addr_port k.b l.b && k.proto == l.proto

pub same_key_iff : (k l : Key) → (same_key k l ≡ true) ↔ (k ≡ l)
same_key_iff k l = ground (arith, same_addr_port_iff k.a l.a, same_addr_port_iff k.b l.b)

instance abbrev pub key_eq : Eq Key
key_eq = record { beq = same_key; beq_iff = same_key_iff }

abbrev pub src_of : Header → AddrPort
src_of h = record { addr = h.src; port = h.src_port }

abbrev pub dst_of : Header → AddrPort
dst_of h = record { addr = h.dst; port = h.dst_port }

-- KeyOf
unfoldable pub key_of : Header → Key
key_of h =
    let a = src_of h in
    let b = dst_of h in
    if less h.dst h.src || (same_addr h.src h.dst && ltb h.dst_port h.src_port)
    then record { a = b; b = a; proto = h.proto }
    else record { a = a; b = b; proto = h.proto }

pub record Origin : Type 0 where
  pub principal : Bytes
  pub local : Bool

pub record Result : Type 0 where
  pub allow : Bool
  pub policies : List Bytes
  pub reasons : List Bytes
  pub errors : List Bytes
  pub session : Option Session
  pub owner : Option Node
  pub permit_by_sni : Bool
  pub names : List Bytes
  pub sign_in : Bool

-- Result{}
abbrev pub no_result : Result
no_result = record {
  allow = false;
  policies = [];
  reasons = [];
  errors = [];
  session = none;
  owner = none;
  permit_by_sni = false;
  names = [];
  sign_in = false;
}

pub record DnsQuery : Type 0 where
  pub id : ℕ
  pub name : Bytes

-- `sni_buf` is nil exactly when it is empty: only non-empty data is appended to it.
pub record Entry : Type 0 where
  pub id : Bytes
  pub key : Key
  pub originator : AddrPort
  pub target : AddrPort
  pub proto : ℕ
  pub origin : Origin
  pub decided : Bool
  pub allowed : Bool
  pub result : Result
  pub sni : Bytes
  pub dns_name : Bytes
  pub opened : ℕ
  pub last_seen : ℕ
  pub bytes_in : ℕ
  pub bytes_out : ℕ
  pub packets_in : ℕ
  pub packets_out : ℕ
  pub sni_buf : Bytes
  pub sni_start : ℕ
  pub sni_seq : Bool
  pub sni_done : Bool
  pub dns_done : Bool
  pub closing : Bool
  pub deny_only : Bool
  pub dns : Bool
  pub dns_started : Bool
  pub nameless : Bool
  pub queries : List DnsQuery
  pub last_denied : Bytes
  pub probing : Bool

-- Decider; a nil Decider is `none`.
abbrev pub Decider : Type 0
Decider = Option (Entry → Result)

pub data EventType : Type 0 where
  event_open event_deny event_close : EventType

-- The texts that Event.Reason takes.
pub data Reason : Type 0 where
  no_reason idle no_client_hello policy_changed : Reason
  given : Bytes → Reason

pub record Event : Type 0 where
  pub type : EventType
  pub entry : Entry
  pub reset : Bool
  pub reason : Reason
  pub at : ℕ

pub data Outcome : Type 0 where
  drop pass reset : Outcome

pub record Timeouts : Type 0 where
  pub tcp : ℕ
  pub udp : ℕ
  pub icmp : ℕ
  pub other : ℕ
  pub closing : ℕ
  pub deny : ℕ
  pub embryonic : ℕ

abbrev pub second : ℕ
second = 1_000_000_000

abbrev pub default_timeouts : Timeouts
default_timeouts = record {
  tcp = 1800 * second;
  udp = 120 * second;
  icmp = 30 * second;
  other = 120 * second;
  closing = 5 * second;
  deny = 10 * second;
  embryonic = 60 * second;
}

abbrev pub max_entries : ℕ
max_entries = 65536

abbrev pub max_per_peer : ℕ
max_per_peer = 8192

abbrev pub max_local : ℕ
max_local = 16384

-- 32 << 20
abbrev pub max_sni_bytes : ℕ
max_sni_bytes = 33_554_432

abbrev pub max_queries : ℕ
max_queries = 32

abbrev pub frag_ttl : ℕ
frag_ttl = 10 * second

abbrev pub max_frags : ℕ
max_frags = 4096

abbrev pub min_frag_offset : ℕ
min_frag_offset = 24

pub record FragKey : Type 0 where
  pub src : Addr
  pub dst : Addr
  pub proto : ℕ
  pub id : ℕ

abbrev pub same_frag : FragKey → FragKey → Bool
same_frag k l = same_addr k.src l.src && same_addr k.dst l.dst && k.proto == l.proto && k.id == l.id

pub same_frag_iff : (k l : FragKey) → (same_frag k l ≡ true) ↔ (k ≡ l)
same_frag_iff k l = ground (arith, same_addr_iff k.src l.src, same_addr_iff k.dst l.dst)

instance abbrev pub frag_eq : Eq FragKey
frag_eq = record { beq = same_frag; beq_iff = same_frag_iff }

-- fragState: the entry by its reference.
pub record FragState : Type 0 where
  pub entry : ℕ
  pub until : ℕ

pub record Learned : Type 0 where
  pub entry : Entry
  pub name : Bytes
  pub addrs : List Addr
  pub ttl : ℕ

-- Table. `learns`: a Learner is installed.
pub record Table : Type 0 where
  pub heap : ℕ → Entry
  pub next : ℕ
  pub flows : List (Key × ℕ)
  pub timeouts : Timeouts
  pub overflow : ℕ
  pub strays : ℕ
  pub per_peer : List (Bytes × ℕ)
  pub sni_free : ℕ
  pub frags : List (FragKey × FragState)
  pub events : List Event
  pub learns : Bool
  pub learned : List Learned

-- A heap with one entry written.
unfoldable pub update : (ℕ → Entry) → ℕ → Entry → ℕ → Entry
update heap r e s = if s == r then e else heap s

abbrev pub put : Table → ℕ → Entry → Table
put t r e = record t { heap = update t.heap r e }

-- t.onEvent
abbrev pub emit : Table → Event → Table
emit t ev = record t { events = ev ∷ t.events }

abbrev pub event_of : EventType → Entry → ℕ → Event
event_of kind e now = record { type = kind; entry = e; reset = false; reason = no_reason; at = now }

-- A field of `d` where that of `t` is zero.
abbrev pub or_default : ℕ → ℕ → ℕ
or_default t d = if t == 0 then d else t

-- New, with what the heap holds before anything is allocated.
unfoldable pub new_table : Timeouts → (ℕ → Entry) → Table
new_table t heap =
    let d = default_timeouts in
    record {
      heap = heap;
      next = 0;
      flows = [];
      timeouts = record {
        tcp = or_default t.tcp d.tcp;
        udp = or_default t.udp d.udp;
        icmp = or_default t.icmp d.icmp;
        other = or_default t.other d.other;
        closing = or_default t.closing d.closing;
        deny = or_default t.deny d.deny;
        embryonic = or_default t.embryonic d.embryonic;
      };
      overflow = 0;
      strays = 0;
      per_peer = [];
      sni_free = max_sni_bytes;
      frags = [];
      events = [];
      learns = false;
      learned = [];
    }

-- SetLearner; what a Learner does is not the table's.
abbrev pub set_learner : Bool → Table → Table
set_learner b t = record t { learns = b }

-- t.perPeer[p]
abbrev pub held : List (Bytes × ℕ) → Bytes → ℕ
held m p = elim (lookup p m) [ none ↦ 0 | some n ↦ n ]
