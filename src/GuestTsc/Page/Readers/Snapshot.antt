-- ===== src/GuestTsc/Page/Readers/Snapshot.antt =====
-- What a guest that finds the same even version twice has read.
use pve_anti_detection.Prelude.{
  ◌+◌, ◌%◌, ◌^◌, ◌<◌, ◌≡◌, inl, inr, subst, some, arith, List, [], All,
}
use pve_anti_detection.GuestTsc.Page.{Field}
use pve_anti_detection.GuestTsc.Page.Readers.{GuestReader, System, Reach}
use pve_anti_detection.GuestTsc.Page.Readers.Ordered.{Agrees, Reach-IsOrdered}

-- A guest that reads the page while KVM updates it, in any interleaving, and finds an even version before
-- and the same version after, has read a whole update: each value is the one that the last update was to
-- leave in the page, and no update is running, if the version changed fewer than 2 ^ 32 times in between.
pub Reach-Agrees :
    (order : List Field) {s : System} (r : GuestReader)
    → Reach order s
    → s.reader ≡ some r
    → r.seen % 2 ≡ 0
    → s.page.version ≡ r.seen
    → s.changes < r.since + 2 ^ 32
    → All (Agrees s.published) r.copy × (s.pending ≡ [])
Reach-Agrees order {s = s} r reach e even same few =
    let i = Reach-IsOrdered order reach in
    let read = i.read r e in
    let unchanged : r.since ≡ s.changes = omega (arith, read.seen, read.since, i.version) in
    let even' : s.changes % 2 ≡ 0 = omega (arith, read.seen) in
    elim i.phase [
      | inl q ↦
          (subst (λ p. All (Agrees p) r.copy) q.page (read.copy unchanged (omega arith)), q.pending)
      | inr b ↦ absurd (omega (arith, b.odd))
    ]
