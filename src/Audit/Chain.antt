-- ===== src/Audit/Chain.antt =====
-- What a chained stream gives: its rows in order, and a verification that passes.
use wisetraceloom.Prelude.{
  ℕ, suc, ◌+◌, ◌≤◌, ◌<◌, ◌≡◌, refl, sym, Option, none, some, List, [], ◌∷◌, Text, filter_by, length,
  arith, text_eq_iff, option_eq_iff, text_Eq, All-weaken,
}
use wisetraceloom.Sql.{IsRising}
use wisetraceloom.Sql.Order.{rising_unique}
use wisetraceloom.Storage.{Host, StorageCommit, StorageCommit-set}
use wisetraceloom.Storage.Append.{Table, in_stream, Turn, append_loop}
use wisetraceloom.Storage.Append.Chain.{row_hash, Chained, IsChained, Chained-bounds}
use wisetraceloom.Storage.Append.Invariant.{Rely}
use wisetraceloom.Storage.Append.Outcome.{append_loop-IsChained}
use wisetraceloom.Audit.{verify_from, verify_chain, sound}

module _ (host : Host) where
  pub Chained-IsRising :
      (prev : Option Text) (k : ℕ) (rows : List StorageCommit)
      → Chained host prev k rows
      → IsRising (λ r. r.version) rows
  Chained-IsRising prev k [] h = tt
  Chained-IsRising prev k (r ∷ rows) h = (
    All-weaken (λ x. (suc k ≤ x.version) × (x.version + 1 ≤ suc k + length rows))
        (λ x. r.version < x.version) (λ x b. omega arith) rows
        (Chained-bounds host (some r.entry_hash) (suc k) rows h.3),
    Chained-IsRising (some r.entry_hash) (suc k) rows h.3,
  )

  -- The engine's ORDER BY version leaves chained rows as they are.
  pub order_by-Chained :
      (prev : Option Text) (k : ℕ) (rows : List StorageCommit)
      → Chained host prev k rows
      → host.sql.order_by StorageCommit (λ r. r.version) rows ≡ rows
  order_by-Chained prev k rows h =
      rising_unique StorageCommit-set (λ r. r.version) _ rows
        (host.sql.order_by_sorted StorageCommit (λ r. r.version) rows)
        (Chained-IsRising prev k rows h)
        (host.sql.order_by_perm StorageCommit (λ r. r.version) rows)

  verify_from-Chained :
      (prev : Option Text) (k : ℕ) (rows : List StorageCommit)
      → Chained host prev k rows
      → verify_from host prev rows ≡ sound
  unfolding verify_from
  verify_from-Chained prev k [] h = refl
  verify_from-Chained prev k (r ∷ rows) h = ground (
    arith,
    (option_eq_iff r.prev_hash prev).1 h.1,
    (text_eq_iff (row_hash host r) r.entry_hash).1 (sym h.2),
    verify_from-Chained (some r.entry_hash) (suc k) rows h.3,
  )

  pub verify_chain-IsChained :
      (s : Text) (table : Table) → IsChained host table → verify_chain host s table ≡ sound
  unfolding verify_chain
  verify_chain-IsChained s table h =
      rw (order_by-Chained none 1 (filter_by (in_stream s) table) (h s))
        (verify_from-Chained none 1 (filter_by (in_stream s) table) (h s))

  -- What the retry loop leaves of a chained table, under writers that keep it chained, passes
  -- verify_chain on every stream.
  pub verify_chain-append_loop :
      (s record_type : Text) (tenant_id : Option Text) (payload_json : Text) (turns : List Turn)
      (table : Table) (audited : Text)
      → IsChained host table
      → Rely host table turns
      → verify_chain host audited
          (append_loop host s record_type tenant_id payload_json turns table).1
        ≡ sound
  verify_chain-append_loop s record_type tenant_id payload_json turns table audited h rely =
      verify_chain-IsChained audited _
        (append_loop-IsChained host s record_type tenant_id payload_json turns table h rely)
