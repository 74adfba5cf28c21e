-- ===== src/Storage/Hybrid/Laws.antt =====
-- crates/rnmdb-storage/src/lib.rs: the hybrid backend as one store of pages.
use rnov_modular_db.Base.{
  ℕ, ◌≡◌, refl, sym, ap, subst, ◌∙◌, Option, none, some, List, [], ◌∷◌, arith, inl, inr, ◌⊎◌,
  length,
}
use rnov_modular_db.Common.{Result, ok, Result-cases}
use rnov_modular_db.Collections.Order.{nat_order}
use rnov_modular_db.Collections.BTreeSet
use rnov_modular_db.Storage.Page.{Page}
use rnov_modular_db.Storage.Codec.{Crc}
use rnov_modular_db.Storage.Disk.{StorageBackend, Keeps}
use rnov_modular_db.Storage.Status.{
  HybridSyncTarget, SyncStatus, SwitchDataMovement, metadata_only, pre_synchronized,
  switch_data_movement,
}
use rnov_modular_db.Storage.Hybrid.{
  HybridBackend, ◌and_then◌, read_page, write_page, sync_status, switch_by, switch_active_target,
}
use rnov_modular_db.Storage.Hybrid.Coherent.{
  and_then_ok, sealed, on_disk, IsCoherent, content, coherent_read, clean_content,
}
use rnov_modular_db.Storage.Hybrid.Writes.{updated, write_page-Wrote, switch-Unchanged}
use rnov_modular_db.Storage.Hybrid.Warmup.{warmup_pages}
use rnov_modular_db.Storage.Hybrid.Warmed.{warmup_pages-Kept}
use rnov_modular_db.Storage.Hybrid.Sync.{sync}
use rnov_modular_db.Storage.Hybrid.Clean.{sync_clean}
use rnov_modular_db.Storage.Hybrid.Synced.{Synced-IsCoherent, sync-Synced}

-- the calls of a client
pub data StoreCall : Type 0 where
  write : Page → StoreCall
  flush : StoreCall
  switch : HybridSyncTarget → StoreCall
  warmup : List ℕ → StoreCall

module _ {D : StorageBackend} where
  -- A write or a flush may fail and end the run. A switch or a warm-up that is refused does not.
  abbrev pub perform : StoreCall → HybridBackend D → Result (Unit {0}) × HybridBackend D
  perform (write p) h = write_page p h
  perform flush h = sync h and_then (λ _ g. (ok tt, g))
  perform (switch target) h = (ok tt, (switch_active_target target h).1)
  perform (warmup ids) h = (ok tt, (warmup_pages ids h).1)

  unfoldable pub run : List StoreCall → HybridBackend D → Result (Unit {0}) × HybridBackend D
  run [] h = (ok tt, h)
  run (call ∷ calls) h = perform call h and_then (λ _ g. run calls g)

-- a store of pages as the function from ids to what is read, which only writes change
abbrev pub store : Crc → List StoreCall → (ℕ → Result (Option Page)) → ℕ → Result (Option Page)
store crc [] pages = pages
store crc (write p ∷ calls) pages = store crc calls (λ i. updated crc i p (pages i))
store crc (flush ∷ calls) pages = store crc calls pages
store crc (switch target ∷ calls) pages = store crc calls pages
store crc (warmup ids ∷ calls) pages = store crc calls pages

store-same :
    (crc : Crc) (calls : List StoreCall) (f g : ℕ → Result (Option Page))
    → ((i : ℕ) → f i ≡ g i)
    → (i : ℕ) → store crc calls f i ≡ store crc calls g i
store-same crc [] f g h i = h i
store-same crc (write p ∷ calls) f g h i =
    store-same crc calls _ _ (λ j. ap (updated crc j p) (h j)) i
store-same crc (flush ∷ calls) f g h i = store-same crc calls f g h i
store-same crc (switch target ∷ calls) f g h i = store-same crc calls f g h i
store-same crc (warmup ids ∷ calls) f g h i = store-same crc calls f g h i

store_cons :
    (crc : Crc) (call : StoreCall) (calls : List StoreCall) (f : ℕ → Result (Option Page)) (i : ℕ)
    → store crc calls (store crc (call ∷ []) f) i ≡ store crc (call ∷ calls) f i
store_cons crc (write p) calls f i = refl
store_cons crc flush calls f i = refl
store_cons crc (switch target) calls f i = refl
store_cons crc (warmup ids) calls f i = refl

movement_ready :
    {D : StorageBackend} (h : HybridBackend D) (target : HybridSyncTarget)
    → h.dirty_pages ≡ []
    → h.lsn_status.memory_lsn ≡ h.lsn_status.disk_lsn
    → (switch_data_movement (sync_status h) target ≡ metadata_only)
      ⊎ (switch_data_movement (sync_status h) target ≡ pre_synchronized)
unfolding switch_data_movement sync_status
movement_ready h target d e = ground (arith, e, ap length d)

module _ {D : StorageBackend} (keeps : Keeps D) where
  -- what one call does to the pages that are read
  perform-content :
      (call : StoreCall) (h : HybridBackend D)
      → (perform call h).0 ≡ ok tt
      → IsCoherent h
      → IsCoherent (perform call h).1
        × ((i : ℕ) → content i (perform call h).1 ≡ store D.crc (call ∷ []) (λ j. content j h) i)
  perform-content (write p) h w c = write_page-Wrote keeps p h w c
  perform-content (switch target) h w c = switch-Unchanged keeps target h c
  perform-content (warmup ids) h w c = let k = warmup_pages-Kept keeps ids h c in (k.0, k.1)
  perform-content flush h w c =
      let rest : SyncStatus → HybridBackend D → Result (Unit {0}) × HybridBackend D =
        λ _ g. (ok tt, g) in
      let done = and_then_ok (sync h) rest tt w in
      let s = sync-Synced keeps h done.0 done.1 c in
      subst (λ o. IsCoherent (o.1) × ((i : ℕ) → content i (o.1) ≡ content i h)) (sym done.2)
        (Synced-IsCoherent keeps h (sync h).1 s, s.0)

  run-content :
      (calls : List StoreCall) (h : HybridBackend D)
      → (run calls h).0 ≡ ok tt
      → IsCoherent h
      → IsCoherent (run calls h).1
        × ((i : ℕ) → content i (run calls h).1 ≡ store D.crc calls (λ j. content j h) i)
  unfolding run
  run-content [] h w c = (c, λ i. refl)
  run-content (call ∷ calls) h w c =
      let rest : Unit {0} → HybridBackend D → Result (Unit {0}) × HybridBackend D =
        λ _ g. run calls g in
      let done = and_then_ok (perform call h) rest tt w in
      let first = perform-content call h done.1 c in
      let g = (perform call h).1 in
      let further = run-content calls g (sym (ap (λ o. o.0) done.2) ∙ w) first.0 in
      subst
        (λ o.
          IsCoherent (o.1)
          × ((i : ℕ) → content i (o.1) ≡ store D.crc (call ∷ calls) (λ j. content j h) i))
        (sym done.2)
        (
          further.0,
          λ i.
              further.1 i
              ∙ store-same D.crc calls _ _ first.1 i
              ∙ store_cons D.crc call calls (λ j. content j h) i,
        )

  -- A hybrid backend is a store of pages: take a disk that gives back what it is given, as
  -- `PageCodec` encodes it, start from a coherent backend, and run any writes, flushes, switches and
  -- warm-ups of which no write and no flush fails. Then every id reads as in a plain map in which
  -- only the writes changed something, up to the version and the checksum of the page, which
  -- encoding sets.
  pub run-store :
      (calls : List StoreCall) (h : HybridBackend D) (i : ℕ)
      → IsCoherent h
      → (run calls h).0 ≡ ok tt
      → sealed D.crc (read_page i (run calls h).1)
        ≡ store D.crc calls (λ j. sealed D.crc (read_page j h)) i
  run-store calls h i c w =
      let r = run-content calls h w c in
      coherent_read i (run calls h).1 r.0
      ∙ r.1 i
      ∙ sym (store-same D.crc calls _ _ (λ j. coherent_read j h c) i)

  disk_sealed : (i : ℕ) (h : HybridBackend D) → sealed D.crc (on_disk i h) ≡ on_disk i h
  disk_sealed i h = elim (Result-cases (on_disk i h)) [
    | inr (e, r) ↦ rw r refl
    | inl (none, r) ↦ rw r refl
    | inl (some p, r) ↦ rw r (ap (λ q. ok (some q)) (keeps.read_sealed i p h.disk_pages r))
  ]

  -- A `sync` that succeeds on a coherent backend makes all of it durable, where the disk gives back
  -- what it is given, as `PageCodec` encodes it: the disk alone then has what reads returned before,
  -- for every id, with the version and the checksum set.
  pub sync_durable :
      (h : HybridBackend D) (status : SyncStatus) (i : ℕ)
      → IsCoherent h
      → (sync h).0 ≡ ok status
      → on_disk i (sync h).1 ≡ sealed D.crc (read_page i h)
  sync_durable h status i c w =
      let s = sync-Synced keeps h status w c in
      let coherent = Synced-IsCoherent keeps h (sync h).1 s in
      sym (disk_sealed i (sync h).1)
      ∙ sym (clean_content i (sync h).1 coherent (ap (BTreeSet.contains i) s.2))
      ∙ s.0 i
      ∙ sym (coherent_read i h c)

-- After a `sync` that succeeds, a switch to either target succeeds, whatever the disk does.
pub sync_enables_switch :
    {D : StorageBackend} (h : HybridBackend D) (status : SyncStatus) (target : HybridSyncTarget)
    → (sync h).0 ≡ ok status
    → (movement : SwitchDataMovement) × ((switch_active_target target (sync h).1).0 ≡ ok movement)
unfolding switch_active_target
sync_enables_switch h status target w =
    let (clean, same_lsn) = sync_clean h status w in
    let g = (sync h).1 in
    elim (movement_ready g target clean same_lsn) [
      | inl m ↦ (metadata_only, ap (λ m. (switch_by m target g).0) m)
      | inr m ↦ (pre_synchronized, ap (λ m. (switch_by m target g).0) m)
    ]
