-- ===== src/Acl/Engine.antt =====
-- New: the policies of a snapshot, compiled. The Cedar engine and the regular expression that finds
-- a policy that reads `sni` are parameters.
use bound_gate_vpn.Prelude.{
  ℕ, ◌+◌, Bool, true, false, ◌&&◌, ◌||◌, Option, none, some, ltb, ◌==◌, if◌then◌else◌, List, [],
  ◌∷◌, ◌++◌, length, map, Bytes, bytes_eq, same_bytes,
}
use bound_gate_vpn.Prelude.Assoc.{insert}
use bound_gate_vpn.Prelude.Text.{has_text, itoa, trim_space}
use bound_gate_vpn.Netip.{Prefix}
use bound_gate_vpn.Registry.{Policy, NamedList, Snapshot}
use bound_gate_vpn.Registry.Entries.{Texts}
use bound_gate_vpn.Acl.Word
use bound_gate_vpn.Acl.Entities.{Uid, Attributes, Entity}
use bound_gate_vpn.Acl.Lists.{CompiledList, compile_list, has_name}
use bound_gate_vpn.Acl.Base.{EntityMap, Network, networks_of, internal_of, base_of}

-- types.Request; `user` is the context's record of that name
pub record Query : Type 0 where
  pub principal : Uid
  pub action : Uid
  pub resource : Uid
  pub context : Attributes
  pub user : Option Attributes

-- What cedar.Authorize returns: the decision, the policies that determine it, and the errors with
-- their policies.
pub record Answer : Type 0 where
  pub allow : Bool
  pub reasons : List Bytes
  pub errors : List (Bytes × Bytes)

-- cedar-go with statements `S`: NewPolicyListFromBytes, Effect, MarshalCedar and Authorize; the
-- match of `sniAttr`; and net/netip's texts.
pub record Library (S : Type 0) : Type 0 where
  pub parse_list : Bytes → Bytes → Option (List S)
  pub is_permit : S → Bool
  pub marshal : S → Bytes
  pub authorize : List (Bytes × S) → (Uid → Option Entity) → Query → Answer
  pub reads_sni : Bytes → Bool
  pub texts : Texts

pub data Cause : Type 0 where
  too_long syntax : Cause

-- PolicyError
pub record PolicyError : Type 0 where
  pub id : Bytes
  pub name : Bytes
  pub err : Cause

-- The part of an Engine that the policies determine.
pub record Compiled (S : Type 0) : Type 0 where
  pub set : List (Bytes × S)
  pub names : List (Bytes × Bytes)
  pub errs : List PolicyError
  pub count : ℕ
  pub permits_by_sni : Bool
  pub permits_dynamic : Bool

-- Engine
pub record Engine (S : Type 0) : Type 0 where
  pub snap : Option Snapshot
  pub policies : Compiled S
  pub base : EntityMap
  pub networks : List Network
  pub lists : List CompiledList
  pub internal : List Prefix

-- MaxPolicyBytes
abbrev pub max_policy_bytes : ℕ
max_policy_bytes = 65_536

-- BoundGate::List::"name"
abbrev pub list_ref : Bytes → Bytes
list_ref name =
    b'B'
    ∷ b'o'
    ∷ b'u'
    ∷ b'n'
    ∷ b'd'
    ∷ b'G'
    ∷ b'a'
    ∷ b't'
    ∷ b'e'
    ∷ b':'
    ∷ b':'
    ∷ b'L'
    ∷ b'i'
    ∷ b's'
    ∷ b't'
    ∷ b':'
    ∷ b':'
    ∷ b'"'
    ∷ (name ++ b'"' ∷ [])

-- sniLists and dynamicLists, by the kind
unfoldable pub refs_of : Bytes → List NamedList → List Bytes
refs_of kind [] = []
refs_of kind (l ∷ ls) =
    let rest = refs_of kind ls in if same_bytes l.kind kind then list_ref l.name ∷ rest else rest

unfoldable pub names_one : Bytes → List Bytes → Bool
names_one text [] = false
names_one text (r ∷ rs) = has_text r text || names_one text rs

-- The policy's own ID, or with the statement's number when there are several.
abbrev pub statement_id : Bytes → ℕ → ℕ → Bytes
statement_id id total i = if ltb 1 total then id ++ (b'#' ∷ itoa i) else id

abbrev pub no_policies : {S : Type 0} → Compiled S
no_policies = record {
  set = [];
  names = [];
  errs = [];
  count = 0;
  permits_by_sni = false;
  permits_dynamic = false;
}

abbrev pub add_error : {S : Type 0} → Policy → Cause → Compiled S → Compiled S
add_error p e c = record c { errs = c.errs ++ (record { id = p.id; name = p.name; err = e } ∷ []) }

module _ {S : Type 0} (lib : Library S) where
  open lib use {parse_list, is_permit, marshal, authorize, reads_sni, texts}

  -- Validate: true for no error
  unfoldable pub is_valid_policy : Bytes → Bool
  is_valid_policy text =
      if ltb max_policy_bytes (length text)
      then false
      else if length (trim_space text) == 0
      then false
      else elim (parse_list (b'p' ∷ b'o' ∷ b'l' ∷ b'i' ∷ b'c' ∷ b'y' ∷ []) text) [
        | none ↦ false
        | some list ↦ true
      ]

  -- The body of New's loop over the statements of one policy.
  unfoldable pub add_statement : List NamedList → Policy → ℕ → ℕ → S → Compiled S → Compiled S
  add_statement lists p total i pol c =
      let id = statement_id p.id total i in
      let text = marshal pol in
      record {
        set = insert id pol c.set;
        names = insert id p.name c.names;
        errs = c.errs;
        count = c.count + 1;
        permits_by_sni =
            c.permits_by_sni
            || is_permit pol && (reads_sni text || names_one text (refs_of Word.sni lists));
        permits_dynamic =
            c.permits_dynamic || is_permit pol && names_one text (refs_of Word.dynamic lists);
      }

  unfoldable pub add_statements : List NamedList → Policy → ℕ → ℕ → List S → Compiled S → Compiled S
  add_statements lists p total i [] c = c
  add_statements lists p total i (pol ∷ ps) c =
      add_statements lists p total (i + 1) ps (add_statement lists p total i pol c)

  -- The body of New's loop over the policies.
  unfoldable pub add_policy : List NamedList → Policy → Compiled S → Compiled S
  add_policy lists p c =
      if ltb max_policy_bytes (length p.cedar)
      then add_error p too_long c
      else elim (parse_list p.name p.cedar) [
        | none ↦ add_error p syntax c
        | some list ↦ add_statements lists p (length list) 0 list c
      ]

  unfoldable pub add_policies : List NamedList → List Policy → Compiled S → Compiled S
  add_policies lists [] c = c
  add_policies lists (p ∷ ps) c = add_policies lists ps (add_policy lists p c)

  abbrev pub engine_of : Snapshot → Engine S
  engine_of s =
      let lists = map (compile_list texts) s.lists in
      record {
        snap = some s;
        policies = add_policies s.lists s.policies no_policies;
        base = base_of texts s lists;
        networks = networks_of texts s;
        lists = lists;
        internal = internal_of s;
      }

  abbrev pub empty_engine : Engine S
  empty_engine = record {
    snap = none;
    policies = no_policies;
    base = [];
    networks = [];
    lists = [];
    internal = [];
  }

  -- New
  unfoldable pub new : Option Snapshot → Engine S
  new none = empty_engine
  new (some s) = engine_of s

-- LearnsNames
unfoldable pub learns_names : List CompiledList → Bool
learns_names [] = false
learns_names (c ∷ cs) = same_bytes c.kind Word.dynamic || learns_names cs

-- Learns
unfoldable pub learns : Bytes → List CompiledList → Bool
learns name [] = false
learns name (c ∷ cs) = same_bytes c.kind Word.dynamic && has_name c name || learns name cs
