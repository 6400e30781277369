-- ===== src/Flow/Fragments.antt =====
-- The runs of a connection table with the fragmented packets that it let begin.
pub mod Kept
pub mod Recorded
use bound_gate_vpn.Prelude.{
  ℕ, Bool, not, ◌&&◌, none, some, if◌then◌else◌, Bytes, List, [], ◌∷◌, ◌++◌,
}
use bound_gate_vpn.Netparse.Header.{Header, is_fragment}
use bound_gate_vpn.Flow.State.{
  Table, Timeouts, Entry, Decider, Origin, FragKey, new_table, set_learner,
}
use bound_gate_vpn.Flow.Handle.{Done, frag_key, is_pass, handle}
use bound_gate_vpn.Flow.Sweep.{expire, close_where, reevaluate}

-- A first fragment that passed: which packet it began, the reference of its flow, and when.
pub record Opening : Type 0 where
  pub key : FragKey
  pub entry : ℕ
  pub time : ℕ

-- What a call of Handle with a header adds to the history: its packet, if it is no later fragment,
-- has more to come, and passed.
unfoldable pub opened_by : Header → ℕ → Done → List Opening
opened_by h now d = elim d.entry [
  | none ↦ []
  | some r ↦
      if not (is_fragment h) && (is_pass d.outcome && h.more_fragments)
      then record { key = frag_key h; entry = r; time = now } ∷ []
      else []
]

-- The tables that New and any sequence of calls give, with the first fragments that passed, the
-- latest first.
pub data Run : Table → List Opening → Type 0 where
  begun : (timeouts : Timeouts) (heap : ℕ → Entry) → Run (new_table timeouts heap) []
  received :
      (t : Table) (l : List Opening)
      → Run t l
      → (id : Bytes) (h : Header) (pkt : Bytes) (origin : Origin) (dec : Decider) (now : ℕ)
      → Run
          (handle t id h pkt origin dec now).table
          (opened_by h now (handle t id h pkt origin dec now) ++ l)
  expired : (t : Table) (l : List Opening) → Run t l → (now : ℕ) → Run (expire t now).0 l
  closed :
      (t : Table) (l : List Opening)
      → Run t l
      → (test : Entry → Bool) (why : Bytes) (now : ℕ) → Run (close_where t test why now).0 l
  decided_anew :
      (t : Table) (l : List Opening)
      → Run t l
      → (dec : Decider) (now : ℕ) → Run (reevaluate t dec now).0 l
  heard : (t : Table) (l : List Opening) → Run t l → (on : Bool) → Run (set_learner on t) l
