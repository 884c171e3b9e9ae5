-- ===== src/GuestTsc/Page/Readers.antt =====
-- A guest that reads the page while KVM updates it: the stores and the loads in any interleaving.
pub mod Ordered
pub mod Snapshot
use mathlib.Core.List.{append_assoc}
use pve_anti_detection.Prelude.{
  ==_iff, ◌==◌, ℕ, suc, ◌+◌, ◌*◌, ◌%◌, ◌^◌, ◌≤◌, ◌<◌, ◌≡◌, ◌⊎◌, inl, inr, refl, sym, subst, ap, ◌∙◌,
  Bool, true, false, Option, none, some, arith, List, [], ◌∷◌, ◌++◌, if◌then◌else◌, u32, All,
  All-append, Bool-cases,
}
use pve_anti_detection.GuestTsc.Page.{
  TimeInfo, Field, field_version, field_tsc_timestamp, field_system_time, field_tsc_to_system_mul,
  field_tsc_shift, field_flags, load, Write, write, put, store, store_all, or_one, clear_stable,
  Clock, prepared, memcpy, remaining, kvm_setup_guest_pvclock,
}

-- What a guest has read so far: the version it saw first, and fields with their values. `since` is the
-- count of the versions at the first load, which no guest knows.
pub record GuestReader : Type 0 where
  pub seen : ℕ
  pub since : ℕ
  pub copy : List (Field × ℕ)

-- The page, the stores of the running update that are left, and a reader. `published` is what the running
-- update, or the last one, is to leave in the page, and `changes` counts the changes of the version.
pub record System : Type 0 where
  pub page : TimeInfo
  pub pending : List Write
  pub reader : Option GuestReader
  pub published : TimeInfo
  pub changes : ℕ

-- The next store.
abbrev pub advance : System → Write → List Write → System
advance s w ws =
    let page = store w s.page in
    record s {
      page = page;
      pending = ws;
      changes = if page.version == s.page.version then s.changes else s.changes + 1;
    }

pub data Step (order : List Field) (s : System) : System → Type 0 where
  -- KVM updates the page with a clock, when no update is running: its first store.
  update :
      (c : Clock) (force : Bool) (w : Write) (ws : List Write)
      → s.pending ≡ []
      → (kvm_setup_guest_pvclock order s.page c force).0 ≡ w ∷ ws
      → Step order s (record (advance s w ws) {
        published = store_all (kvm_setup_guest_pvclock order s.page c force).0 s.page;
      })
  next : (w : Write) (ws : List Write) → s.pending ≡ w ∷ ws → Step order s (advance s w ws)
  -- The guest begins to read.
  begin :
      Step order s (record s {
        reader = some (record { seen = s.page.version; since = s.changes; copy = [] });
      })
  -- It reads a field.
  read :
      (r : GuestReader) (f : Field)
      → s.reader ≡ some r
      → Step order s (record s { reader = some (record r { copy = (f, load s.page f) ∷ r.copy }) })

-- From a page that KVM is not updating, with an even version.
pub data Reach (order : List Field) : System → Type 0 where
  start :
      (page : TimeInfo)
      → page.version < 2 ^ 32
      → page.version % 2 ≡ 0
      → Reach order (record {
        page = page;
        pending = [];
        reader = none;
        published = page;
        changes = page.version;
      })
  later : {s t : System} → Reach order s → Step order s t → Reach order t
