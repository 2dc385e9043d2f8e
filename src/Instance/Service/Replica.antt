-- ===== src/Instance/Service/Replica.antt =====
-- A service's row on the way to a replica (`update` of runner.rs against `apply` of
-- sandpolis-instance/src/database/sync.rs).
use sandpolis.Prelude.{ℕ, ◌≡◌, sym, ap, ◌∙◌, inl, inr, Bool, some, find, arith, Option-cases}
use sandpolis.Database.Revision.{number}
use sandpolis.Database.Scope.{WriteAuthority}
use sandpolis.Database.Resident.{Row}
use sandpolis.Database.Sync.{Access, upsert_op, apply_row, upsert_over}
use sandpolis.Instance.Service.{ServiceData, Change, is_row_of, written, update}
use sandpolis.Instance.Service.Rows.{Rows}

written_same :
    (same : ServiceData → ServiceData → Bool) (fresh i k : ℕ) (f : Change) (r : Row ServiceData)
    → let row = (written same fresh f i k (some r)).1 in
      (row.id ≡ r.id) × (number row.revision ≡ number r.revision)
unfolding written
written_same same fresh i k f r = ground arith

module _ {D E : Type 0} (x : Access D ServiceData) (y : Access E ServiceData) where
  -- A change of a service's row does not advance its revision, so a replica that holds the row as it
  -- was drops the changed row, whatever the change: it keeps the first version that it got.
  pub update_unseen :
      (same : ServiceData → ServiceData → Bool) (a : WriteAuthority) (fresh i k : ℕ) (f : Change)
      (d d' : D) (rows : Rows) (old row : Row ServiceData) (replica : E)
      → x.scan d ≡ some rows
      → find (is_row_of i k) rows ≡ some old
      → update x same a fresh i k f d ≡ some (d', row)
      → y.primary old.id replica ≡ some old
      → apply_row y upsert_op row replica ≡ some replica
  unfolding update apply_row upsert_over
  update_unseen same a fresh i k f d d' rows old row replica s h e p =
      let (same_id, same_number) = written_same same fresh i k f old in
      elim (Option-cases (x.commit (written same fresh f i k (some old)).0 d)) [
        | inl n ↦ absurd (ground (arith, e, s, h, n))
        | inr (d'', c) ↦
            let q : (written same fresh f i k (some old)).1 ≡ row = ground (arith, e, s, h, c) in
            let at : y.primary row.id replica ≡ some old =
              ap (λ (r : Row ServiceData). y.primary r.id replica) (sym q)
              ∙ ap (λ i. y.primary i replica) same_id
              ∙ p in
            let n : number row.revision ≡ number old.revision =
              ap (λ (r : Row ServiceData). number r.revision) (sym q) ∙ same_number in
            ground (arith, at, n)
      ]
