-- ===== src/Cluster/Control/Scripts.antt =====
-- crates/nzbd-cluster/src/control.rs: `begin_script` and `finish_script`.
use nzbd.Prelude.{Bool, false, Option, none, some, if◌then◌else◌, bytes_eq}
use nzbd.Prelude.Int.{ℤ}
use nzbd.Types.Torrent.{Text}
use nzbd.Cluster.Control.{
  Result, ok, ◌>>=◌, ◌>>◌, WorkLease, LeaseToken, ScriptReceipt, started, done, Database, put_text,
  unix_ms, is_current, checked,
}
use nzbd.Cluster.Control.Leases.{numbers_of}

pub data ScriptReceiptOutcome : Type 0 where
  run already_done ambiguous script_conflict : ScriptReceiptOutcome

abbrev pub guarded_lease : LeaseToken → ℤ → Database → Option WorkLease
guarded_lease t now db = elim (db.leases t.resource) [
  | none ↦ none
  | some l ↦ if is_current t now l then some l else none
]

abbrev pub begun : LeaseToken → WorkLease → ScriptReceipt
begun t l = record { resource = t.resource; job_id = l.job_id; state = started }

abbrev pub with_script : Text → ScriptReceipt → Database → Database
with_script id s db = record db { scripts = put_text id s db.scripts }

abbrev pub standing : Option ScriptReceipt → ScriptReceiptOutcome
standing none = script_conflict
standing (some s) = elim s.state [ done ↦ already_done | started ↦ ambiguous ]

-- ON CONFLICT DO NOTHING; `later` is the store when the state is read.
abbrev pub insert_script :
    Database
    → Text
    → LeaseToken
    → Option WorkLease
    → Option ScriptReceipt
    → Database
    → Result ScriptReceiptOutcome × Database
insert_script later id t (some l) none db = (ok run, with_script id (begun t l) db)
insert_script later id t (some l) (some s) db = (ok (standing (later.scripts id)), db)
insert_script later id t none old db = (ok (standing (later.scripts id)), db)

unfoldable pub begin_row :
    Database → Text → LeaseToken → ℤ → Database → Result ScriptReceiptOutcome × Database
begin_row later id t now db = insert_script later id t (guarded_lease t now db) (db.scripts id) db

abbrev pub script_time : ℤ → LeaseToken → Result ℤ
script_time clock t = do now ← unix_ms clock; numbers_of t; ok now

unfoldable pub begin_script :
    ℤ → Database → Text → LeaseToken → Database → Result ScriptReceiptOutcome × Database
begin_script clock later id t db = checked (script_time clock t) (begin_row later id t) db

abbrev pub is_started : LeaseToken → ScriptReceipt → Bool
is_started t s = elim s.state [ started ↦ bytes_eq s.resource t.resource | done ↦ false ]

abbrev pub finish_answer : Option ScriptReceipt → ScriptReceiptOutcome
finish_answer s = elim (standing s) [ already_done ↦ already_done | _ ↦ script_conflict ]

abbrev pub update_script :
    Database
    → Text
    → LeaseToken
    → Option WorkLease
    → Option ScriptReceipt
    → Database
    → Result ScriptReceiptOutcome × Database
update_script later id t (some l) (some s) db =
    if is_started t s
    then (ok already_done, with_script id (record s { state = done }) db)
    else (ok (finish_answer (later.scripts id)), db)
update_script later id t (some l) none db = (ok (finish_answer (later.scripts id)), db)
update_script later id t none old db = (ok (finish_answer (later.scripts id)), db)

unfoldable pub finish_row :
    Database → Text → LeaseToken → ℤ → Database → Result ScriptReceiptOutcome × Database
finish_row later id t now db = update_script later id t (guarded_lease t now db) (db.scripts id) db

unfoldable pub finish_script :
    ℤ → Database → Text → LeaseToken → Database → Result ScriptReceiptOutcome × Database
finish_script clock later id t db = checked (script_time clock t) (finish_row later id t) db
