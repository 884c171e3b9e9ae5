-- ===== src/GuestTsc/Page/Readers/Ordered.antt =====
-- What holds of the page, the running update and the reader at all times.
use mathlib.Core.List.{append_assoc}
use pve_anti_detection.Prelude.{
  ==_iff, ◌==◌, ℕ, ◌+◌, ◌%◌, ◌≤◌, ◌≡◌, ◌⊎◌, inl, inr, refl, sym, subst, ap, ◌∙◌, Bool, true, false,
  Option, some, arith, List, [], ◌∷◌, ◌++◌, if◌then◌else◌, u32, All, All-append,
}
use pve_anti_detection.GuestTsc.Page.{
  TimeInfo, Field, field_version, field_tsc_timestamp, field_system_time, field_tsc_to_system_mul,
  field_tsc_shift, field_flags, load, Write, write, store, store_all, or_one, clear_stable, Clock,
  prepared, memcpy, remaining, kvm_setup_guest_pvclock,
}
use pve_anti_detection.GuestTsc.Page.Readers.{
  GuestReader, System, advance, Step, update, next, begin, read, Reach, start, later,
}

-- A store that leaves the version at `v`.
abbrev pub Keeps : ℕ → Write → Type 0
Keeps v w = (p : TimeInfo) → p.version ≡ v → (store w p).version ≡ v

-- No update is running.
pub record IsQuiet (s : System) : Type 0 where
  pub pending : s.pending ≡ []
  pub even : s.changes % 2 ≡ 0
  pub page : s.page ≡ s.published

-- An update is running: all stores but the last leave the version odd.
pub record IsBusy (s : System) : Type 0 where
  pub odd : s.changes % 2 ≡ 1
  pub left : List Write
  pub pending : s.pending ≡ left ++ (write field_version (u32 (s.changes + 1)) ∷ [])
  pub keeps : All (Keeps s.page.version) left
  pub page : store_all s.pending s.page ≡ s.published

abbrev pub Agrees : TimeInfo → Field × ℕ → Type 0
Agrees page (f, x) = x ≡ load page f

-- The reader's copy is that of the page, unless the version has changed or is odd.
pub record IsRead (s : System) (r : GuestReader) : Type 0 where
  pub seen : r.seen ≡ u32 r.since
  pub since : r.since ≤ s.changes
  pub copy : r.since ≡ s.changes → r.since % 2 ≡ 0 → All (Agrees s.page) r.copy

pub record IsOrdered (s : System) : Type 0 where
  pub version : s.page.version ≡ u32 s.changes
  pub phase : IsQuiet s ⊎ IsBusy s
  pub read : (r : GuestReader) → s.reader ≡ some r → IsRead s r

memcpy-Keeps : (order : List Field) (info : TimeInfo) → All (Keeps info.version) (memcpy order info)
unfolding memcpy
memcpy-Keeps [] info = tt
memcpy-Keeps (field_version ∷ fs) info = (λ p e. refl, memcpy-Keeps fs info)
memcpy-Keeps (field_tsc_timestamp ∷ fs) info = (λ p e. e, memcpy-Keeps fs info)
memcpy-Keeps (field_system_time ∷ fs) info = (λ p e. e, memcpy-Keeps fs info)
memcpy-Keeps (field_tsc_to_system_mul ∷ fs) info = (λ p e. e, memcpy-Keeps fs info)
memcpy-Keeps (field_tsc_shift ∷ fs) info = (λ p e. e, memcpy-Keeps fs info)
memcpy-Keeps (field_flags ∷ fs) info = (λ p e. e, memcpy-Keeps fs info)

-- The stores after the first one: some that keep the version, and the one that makes it even.
remaining-Keeps :
    (order : List Field) (info : TimeInfo) (force : Bool)
    → (left : List Write) × (remaining order info force
        ≡ left ++ (write field_version (u32 (info.version + 1)) ∷ []))
      × All (Keeps info.version) left
unfolding remaining
remaining-Keeps order info false = (memcpy order info, refl, memcpy-Keeps order info)
remaining-Keeps order info true =
    let last = write field_flags (clear_stable info.flags) ∷ [] in
    (
      memcpy order info ++ last,
      sym (append_assoc (memcpy order info) last _),
      All-append (Keeps info.version) (memcpy order info) last (memcpy-Keeps order info)
          (λ p e. e, tt),
    )

-- A store that keeps the version: the reader's claim is void before and after, as the version is odd.
keep-IsOrdered :
    (s : System) (w : Write) (ws left : List Write)
    → IsOrdered s
    → s.changes % 2 ≡ 1
    → Keeps s.page.version w
    → All (Keeps s.page.version) left
    → ws ≡ left ++ (write field_version (u32 (s.changes + 1)) ∷ [])
    → store_all ws (store w s.page) ≡ s.published
    → IsOrdered (advance s w ws)
keep-IsOrdered s w ws left i odd keeps all e page =
    let kept = keeps s.page refl in
    let same : ((store w s.page).version == s.page.version) ≡ true = (==_iff _ _).1 kept in
    record {
      version = rw (same, kept) i.version;
      phase = inr (record {
        odd = rw same odd;
        left = left;
        pending = rw same e;
        keeps = rw kept all;
        page = page;
      });
      read = λ r e'.
          let before = i.read r e' in
          record {
            seen = before.seen;
            since = rw same before.since;
            copy = λ now even. absurd (omega (arith, rw same at now));
          };
    }

append-not-[] : (ws : List Write) (w : Write) → ws ++ (w ∷ []) ≡ [] → ⊥
append-not-[] [] w e = cc
append-not-[] (x ∷ ws) w e = cc

some_inj : {A : Type 0} {a b : A} → some a ≡ some b → a ≡ b
some_inj e = cc

-- A step of the reader leaves the update where it is.
same_phase :
    (s : System) (reader : Option GuestReader)
    → IsQuiet s ⊎ IsBusy s
    → let t = record s { reader = reader } in IsQuiet t ⊎ IsBusy t
same_phase s reader (inl q) = inl (record { pending = q.pending; even = q.even; page = q.page })
same_phase s reader (inr b) =
    inr (record { odd = b.odd; left = b.left; pending = b.pending; keeps = b.keeps; page = b.page })

-- From an even version, the next one.
next_odd : (v n : ℕ) → v ≡ u32 n → n % 2 ≡ 0 → or_one (u32 (v + 1)) ≡ u32 (n + 1)
next_odd v n e even = ground arith

-- A store of another version counts as a change.
advance_flip :
    (s : System) (x : ℕ)
    → s.page.version ≡ u32 s.changes
    → x ≡ u32 (s.changes + 1)
    → (if x == s.page.version then s.changes else s.changes + 1) ≡ s.changes + 1
advance_flip s x v e = ground arith

-- Such a store makes the reader's claim void from here on.
flip-IsOrdered :
    (s : System) (x : ℕ) (ws : List Write) (published : TimeInfo)
    → IsOrdered s
    → x ≡ u32 (s.changes + 1)
    → let t = record (advance s (write field_version x) ws) { published = published } in
      (t.changes ≡ s.changes + 1 → IsQuiet t ⊎ IsBusy t) → IsOrdered t
flip-IsOrdered s x ws published i e phase =
    let up = advance_flip s x i.version e in
    record {
      version = rw up e;
      phase = phase up;
      read = λ r e'.
          let before = i.read r e' in
          record {
            seen = before.seen;
            since = omega (arith, up, before.since);
            copy = λ now even. absurd (omega (arith, up, before.since));
          };
    }

-- The next store of a running update.
next-IsOrdered :
    (s : System) (w : Write) (ws left : List Write)
    → IsOrdered s
    → s.changes % 2 ≡ 1
    → All (Keeps s.page.version) left
    → w ∷ ws ≡ left ++ (write field_version (u32 (s.changes + 1)) ∷ [])
    → store_all (w ∷ ws) s.page ≡ s.published
    → IsOrdered (advance s w ws)
next-IsOrdered s w ws [] i odd keeps e page =
    let last : w ≡ write field_version (u32 (s.changes + 1)) = cc in
    let none_left : ws ≡ [] = cc in
    subst (λ w'. IsOrdered (advance s w' ws)) (sym last)
      (flip-IsOrdered s (u32 (s.changes + 1)) ws s.published i refl (λ up. inl (record {
        pending = none_left;
        even = omega (arith, up, odd);
        page = rw (sym page, last, none_left) refl;
      })))
next-IsOrdered s w ws (l ∷ left) i odd keeps e page =
    let first : l ≡ w = cc in
    let rest : ws ≡ left ++ (write field_version (u32 (s.changes + 1)) ∷ []) = cc in
    keep-IsOrdered s w ws left i odd (subst (Keeps s.page.version) first keeps.0) keeps.1 rest page

-- The first store of an update.
update-IsOrdered :
    (order : List Field) (s : System) (c : Clock) (force : Bool)
    → IsOrdered s
    → IsQuiet s
    → let info = prepared s.page c in
      let ws = remaining order info force in
      let first = write field_version info.version in
      IsOrdered (record (advance s first ws) { published = store_all (first ∷ ws) s.page })
unfolding prepared
update-IsOrdered order s c force i q =
    let info = prepared s.page c in
    let (left, split, keeps) = remaining-Keeps order info force in
    let odd : info.version ≡ u32 (s.changes + 1) =
      next_odd s.page.version s.changes i.version q.even in
    flip-IsOrdered s info.version _ _ i odd (λ up. inr (record {
      odd = omega (arith, up, q.even);
      left = left;
      pending = split ∙ ap (λ x. left ++ (write field_version x ∷ [])) (omega (arith, odd, up));
      keeps = keeps;
      page = refl;
    }))

Step-IsOrdered : (order : List Field) {s t : System} → Step order s t → IsOrdered s → IsOrdered t
unfolding kvm_setup_guest_pvclock
Step-IsOrdered order {s = s} (update c force w ws idle e) i = elim i.phase [
  | inr b ↦ absurd (append-not-[] b.left _ (sym b.pending ∙ idle))
  | inl q ↦
      let info = prepared s.page c in
      let first : write field_version info.version ≡ w = cc in
      let rest : remaining order info force ≡ ws = cc in
      rw (sym first, sym rest) (update-IsOrdered order s c force i q)
]
Step-IsOrdered order {s = s} (next w ws e) i = elim i.phase [
  | inl q ↦ absurd cc
  | inr b ↦
      next-IsOrdered s w ws b.left i b.odd b.keeps (sym e ∙ b.pending)
        (subst (λ p. store_all p s.page ≡ s.published) e b.page)
]
Step-IsOrdered order {s = s} begin i = record {
  version = i.version;
  phase = same_phase s _ i.phase;
  read = λ r e.
      subst (IsRead _) (some_inj e)
        (record { seen = i.version; since = omega arith; copy = λ now even. tt });
}
Step-IsOrdered order {s = s} (read r f e) i = record {
  version = i.version;
  phase = same_phase s _ i.phase;
  read = λ r' e'.
      let before = i.read r e in
      subst (IsRead _) (some_inj e') (record {
        seen = before.seen;
        since = before.since;
        copy = λ now even. (refl, before.copy now even);
      });
}

pub Reach-IsOrdered : (order : List Field) {s : System} → Reach order s → IsOrdered s
Reach-IsOrdered order (start page small even) = record {
  version = omega arith;
  phase = inl (record { pending = refl; even = even; page = refl });
  read = λ r e. absurd cc;
}
Reach-IsOrdered order (later r s) = Step-IsOrdered order s (Reach-IsOrdered order r)
